-- ===== src/Tests/Planning.antt =====
-- The planning of VMs for two jobs.
use dynamictorque.Base.{
  ◌+◌, ◌≡◌, refl, ltb, str_eq, some, arith, map, String, List, [], ◌∷◌, if◌then◌else◌,
}
use dynamictorque.Base.Int.{pos, ◌*ℤ◌}
use dynamictorque.Base.Action.{ok, Post, fold_each}
use dynamictorque.Base.Dict.{lookup, insert}
use dynamictorque.Base.Sort.{sort_by}
use dynamictorque.Config.{with_resource, get_default_node_location}
use dynamictorque.CloudTools.{StaticVms, ResAllocation, available_cores, get_total_num_cores}
use dynamictorque.CloudTools.Capacity.{max_vcpus, sorted, available_cores_lem}
use dynamictorque.CloudTools.Static.{add_static_req, need_more, need_vm, get_provision_list}
use dynamictorque.CloudTools.Static.Count.{
  total, wanted, Takes, Asks, wanted-add_static_req, need_more_iff, need_vm-Takes, need_vm_anywhere,
  get_provision_list-Asks,
}
use dynamictorque.JobScheduler.{
  Job, planned, plan_jobs, plan_job, get_vcpu_requirement, assign, have_enough_cores,
  add_new_requirement_to_list, best_flavor, extend_nodes,
}
use dynamictorque.JobScheduler.Nodes.{HasPlaced, extend_nodes-HasPlaced}
use dynamictorque.JobScheduler.BestFlavor.{IsBest, best_flavor-IsBest}
use dynamictorque.JobScheduler.Frame.{size, SameSize}
use dynamictorque.JobScheduler.Capacity.{IsWithin}
use dynamictorque.JobScheduler.Plan.{plan_jobs-IsWithin}
use dynamictorque.Center.Cores.{num_used, update_available_cores}
use dynamictorque.Center.Budget.{WithinLimit, plan_jobs-WithinLimit}
use dynamictorque.Commands.{qstat_to_job_list}
use dynamictorque.Commands.Ordered.{IsQueue, qstat_to_job_list-IsQueue}
use dynamictorque.Tests.Fixtures.{
  busy_world, installation, two_nodes_job, one_core_job, first_item, center, resource, small, large,
  static_req, node,
}

abbrev jobs : List Job
jobs = two_nodes_job ∷ one_core_job ∷ []

abbrev three_cores : ResAllocation
three_cores = record { vcpu_list = 3 ∷ []; location_property = some "north" }

abbrev one_core : ResAllocation
one_core = record { vcpu_list = 1 ∷ []; location_property = some "north" }

abbrev one_request : StaticVms
one_request = static_req ∷ []

-- The jobs get two nodes of three cores and one of one core.
plan_of_jobs :
    (plan_jobs first_item jobs 0 installation).0
    ≡ ok (("physics", three_cores ∷ three_cores ∷ []) ∷ ("default", one_core ∷ []) ∷ [])
unfolding plan_jobs plan_job fold_each get_vcpu_requirement lookup insert get_default_node_location
    assign have_enough_cores with_resource available_cores sort_by ◌*ℤ◌ add_new_requirement_to_list
plan_of_jobs = refl

plan_jobs-IsWithin_example :
    Post
      (λ req_list c'.
        IsWithin (λ k. size k installation) req_list × SameSize (λ k. size k installation) c')
      (SameSize (λ k. size k installation))
      (plan_jobs first_item jobs 0 installation)
plan_jobs-IsWithin_example = plan_jobs-IsWithin first_item jobs 0 installation

plan_jobs-WithinLimit_example :
    Post
      (λ req_list _. WithinLimit (planned "physics" req_list) 4 (num_used "physics" center) 8)
      (λ _. Unit {0})
      (plan_jobs first_item jobs 0 (update_available_cores center).1.shell.config)
unfolding lookup
plan_jobs-WithinLimit_example =
    plan_jobs-WithinLimit first_item jobs 0 center "physics" resource refl

wanted-add_static_req_example :
    wanted "north" (add_static_req "south" 3 one_request)
    ≡ wanted "north" one_request + (if str_eq "south" "north" then 3 else 0)
wanted-add_static_req_example = wanted-add_static_req "south" "north" 3 one_request

need_more_iff_example : need_more one_request ≡ ltb 0 (total one_request)
need_more_iff_example = need_more_iff one_request

need_vm-Takes_example :
    Takes one_request (need_vm (some "zone-a") installation.location_properties one_request)
need_vm-Takes_example = need_vm-Takes (some "zone-a") installation.location_properties one_request

need_vm_anywhere_example :
    (reqs' : StaticVms) × (need_vm (some "zone-b") [] one_request
      ≡ ok (ltb 0 (total one_request), reqs'))
need_vm_anywhere_example = need_vm_anywhere (some "zone-b") one_request

get_provision_list-Asks_example :
    Asks 2 (get_provision_list small "default" installation.location_properties one_request)
get_provision_list-Asks_example =
    get_provision_list-Asks small "default" installation.location_properties one_request

best_flavor-IsBest_example :
    (id : String) × (best_flavor (small ∷ large ∷ []) node ≡ ok id)
    × IsBest (get_total_num_cores node) (small ∷ large ∷ []) id
best_flavor-IsBest_example = best_flavor-IsBest (small ∷ large ∷ []) node (λ e. cc) (omega arith)

extend_nodes-HasPlaced_example :
    HasPlaced 8 (3 ∷ 3 ∷ []) (node ∷ []) (extend_nodes 8 (some "north") (3 ∷ 3 ∷ []) (node ∷ []))
extend_nodes-HasPlaced_example =
    extend_nodes-HasPlaced 8 8 (some "north") (3 ∷ 3 ∷ []) (node ∷ []) (omega arith)
      (omega arith, tt) (omega arith, (omega arith, tt))

available_cores_lem_example :
    available_cores resource ≡ (ok (pos 4 *ℤ pos (max_vcpus (small ∷ large ∷ []))), sorted resource)
available_cores_lem_example = available_cores_lem resource small (large ∷ []) refl

-- Of the two idle jobs both are kept, in the order of their numbers.
jobs_of_queue :
    map (λ job. lookup "Job_Id" job.attrs) (qstat_to_job_list busy_world installation "").idle_jobs
    ≡ some "7[2].server" ∷ some "9.server" ∷ []
unfolding qstat_to_job_list lookup insert sort_by
jobs_of_queue = refl

qstat_to_job_list-IsQueue_example :
    IsQueue installation.max_number_of_jobs (qstat_to_job_list busy_world installation "")
qstat_to_job_list-IsQueue_example = qstat_to_job_list-IsQueue busy_world installation ""
