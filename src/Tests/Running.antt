-- ===== src/Tests/Running.antt =====
-- The steps of a resource center at work.
use dynamictorque.Center.Started.{Stopped}
use dynamictorque.Base.{
  ◌⊎◌, ◌+◌, ◌≡◌, ◌<◌, ◌↔◌, ℕ, refl, true, false, some, arith, map, List, [], ◌∷◌,
}
use dynamictorque.Base.Int.{pos}
use dynamictorque.Base.Action.{Result, ok, ok-injective, Post}
use dynamictorque.Base.Dict.{lookup}
use dynamictorque.JobScheduler.{Job}
use dynamictorque.Commands.{JobPriority}
use dynamictorque.Center.Admin.{kill_vm, forceoff}
use dynamictorque.Center.Launch.{launch_instances}
use dynamictorque.Center.Provision.{Progress, promote, update_provision_status}
use dynamictorque.Center.Cleanup.{Outcome, settle, check_deleting, is_delete_due, check_cleanup}
use dynamictorque.Center.WorkerNodes.{retire}
use dynamictorque.Center.Jobs.{assign_priorities, collect_cluster_information}
use dynamictorque.Center.Tracking.{lists}
use dynamictorque.Center.Moves.{
  Killed, AllDeleting, ExistingDeleting, kill_vm-Killed, forceoff-AllDeleting,
}
use dynamictorque.Center.Settled.{Loses, LosesAtMost, settle-Loses}
use dynamictorque.Center.Judged.{Verdict, check_deleting-Verdict}
use dynamictorque.Center.Launched.{Launched, room_of, launch_instances-Launched}
use dynamictorque.Center.Promoted.{Same, AllButOne, promote-Same}
use dynamictorque.Center.Priorities.{prioritised, assign_priorities-prioritised}
use dynamictorque.Center.Cleaned.{Keeps, KeepsAll, check_cleanup-Keeps}
use dynamictorque.Center.Provisioned.{update_provision_status-Keeps}
use dynamictorque.Center.Retired.{Retired, retire-Retired}
use dynamictorque.Center.Guards.{standing, collect_cluster_information-standing}
use dynamictorque.Center.Timing.{is_delete_due_iff}
use dynamictorque.Tests.Fixtures.{world, cloud, ready_cloud, center, two_nodes_job, one_core_job}

abbrev outcome : Outcome
outcome = record { vm_deleted = 2 ∷ []; vm_executing = [] }

abbrev no_outcome : Outcome
no_outcome = record { vm_deleted = []; vm_executing = [] }

abbrev progress : Progress
progress = record { to_delete = []; ready_to_use = 1 ∷ [] }

abbrev queue : List Job
queue = two_nodes_job ∷ one_core_job ∷ []

abbrev priorities : List JobPriority
priorities = record { job_id = 3; priority = pos 1 } ∷ record { job_id = 9; priority = pos 70 } ∷ []

zero_not_three : ¬ (◌≡◌ {A = Result ℕ} (ok 0) (ok 3))
zero_not_three e = omega (arith, ok-injective e)

launch_instances-Launched_example :
    Post
      (λ _. Launched cloud center)
      (Stopped cloud (room_of center) center.provision_waiting_list center)
      (launch_instances cloud center)
launch_instances-Launched_example = launch_instances-Launched cloud center

settle-Loses_example :
    Post
      (λ _. Loses 2 (2 ∷ []) center)
      (LosesAtMost 2 (2 ∷ []) center)
      (settle world cloud outcome center)
settle-Loses_example = settle-Loses world cloud 2 outcome center

promote-Same_example :
    Post (λ _. Same center) (AllButOne center) (promote world cloud progress center)
promote-Same_example = promote-Same world cloud progress center

check_deleting-Verdict_example :
    Post
      (λ o' t. Verdict 2 (ok 3) no_outcome o' × (lists t ≡ lists center))
      (λ t. lists t ≡ lists center)
      (check_deleting world cloud no_outcome 2 center)
check_deleting-Verdict_example = check_deleting-Verdict world cloud no_outcome 2 center

collect_cluster_information-standing_example :
    Post
      (λ _ t. standing t ≡ standing center)
      (λ t. standing t ≡ standing center)
      (collect_cluster_information world cloud center)
collect_cluster_information-standing_example =
    collect_cluster_information-standing world cloud center refl

kill_vm-Killed_example :
    Post
      (λ _. Killed "wn0" false center)
      (λ t. lists t ≡ lists center)
      (kill_vm world "wn0" false center)
kill_vm-Killed_example = kill_vm-Killed world "wn0" false center

forceoff-AllDeleting_example :
    Post
      (λ _. AllDeleting center)
      (λ t. (lists t ≡ lists center) ⊎ ExistingDeleting center t)
      (forceoff world cloud center)
forceoff-AllDeleting_example = forceoff-AllDeleting world cloud center

assign_priorities-prioritised_example :
    assign_priorities queue priorities ≡ (ok tt, map (prioritised priorities) queue)
unfolding lookup
assign_priorities-prioritised_example =
    assign_priorities-prioritised queue priorities 0 0
      (7, refl, omega arith, (9, refl, omega arith, tt)) (omega arith, (omega arith, tt))

retire-Retired_example :
    Post (λ _. Retired 0 center) (λ t. lists t ≡ lists center) (retire world cloud 0 center)
retire-Retired_example = retire-Retired world cloud 0 center

is_delete_due_iff_example : (is_delete_due 600 (some 1000) (1000 + 20) ≡ true) ↔ (20 + 600 < 86400)
is_delete_due_iff_example = is_delete_due_iff 600 1000 20 (omega arith) (omega arith)

check_cleanup-Keeps_example :
    Post (λ _. Keeps 2 center) (Keeps 2 center) (check_cleanup world ready_cloud center)
check_cleanup-Keeps_example =
    check_cleanup-Keeps world ready_cloud 2 center (λ t vm e. zero_not_three e)

update_provision_status-Keeps_example :
    Post
      (λ _. KeepsAll center)
      (AllButOne center)
      (update_provision_status world ready_cloud center)
update_provision_status-Keeps_example = update_provision_status-Keeps world ready_cloud center
