-- ===== src/JobScheduler.antt =====
-- dynamictorque/job_scheduler.py: from the idle jobs to the VMs that are asked for. `req_list`
-- maps a resource to the nodes that are planned for it.
pub mod Nodes
pub mod BestFlavor
pub mod Frame
pub mod Capacity
pub mod Assign
pub mod Plan
use dynamictorque.Base.{
  ℕ, zero, ◌+◌, String, Bool, true, false, not, ◌&&◌, Option, none, some, List, [], ◌∷◌, ◌++◌, map,
  ltb, leb, str_eq, opt_str_eq, sum_of, replicate, find, isdigit, to_number, if◌then◌else◌,
}
use dynamictorque.Base.Int.{ℤ, pos, negsuc, ltb_ℤ}
use dynamictorque.Base.Sort.{sort_by}
use dynamictorque.Base.Dict.{Dict, lookup, insert, has_key}
use dynamictorque.Base.Action.{
  Action, Result, ok, err, key_error, index_error, value_error, pure, raise, gets, or_raise,
  from_result, fold_each, ◌>>=◌, ◌>>◌,
}
use dynamictorque.CloudTools.{
  VmFlavor, flavor_id, ResAllocation, new_allocation, get_total_num_cores, ProvisionVm,
  new_provision, CloudResource, available_cores, smaller_first, first_vcpus,
}
use dynamictorque.Config.{
  Config, with_resource, get_default_node_location, convert_location_property_to_availability_zone,
}

-- A job of `qstat`: its texts by key, and the numbers that the program adds under `"Priority"`
-- and `"job_priority"`.
pub record Job : Type 0 where
  pub attrs : Dict String
  pub priority : Option ℤ
  pub job_priority : Option ℤ

abbrev pub ReqList : Type 0
ReqList = Dict (List ResAllocation)

-- The cores of a list of nodes.
abbrev pub node_cores : List ResAllocation → ℕ
node_cores = sum_of get_total_num_cores

-- The cores that are planned for a resource so far.
abbrev pub planned : String → ReqList → ℕ
planned account req_list = elim (lookup account req_list) [
  | none ↦ 0
  | some nodes ↦ node_cores nodes
]

abbrev pub head_of : {A : Type 0} → List A → Option A
head_of [] = none
head_of (x ∷ xs) = some x

abbrev top_vcpus : CloudResource → Option ℕ
top_vcpus r = first_vcpus r.flavor_objects

-- `config.cloud_resources[account].flavor_objects[0].vcpus`
abbrev top : String → Action Config ℕ
top account = with_resource account (λ r. or_raise (top_vcpus r) index_error r)

-- The last test of `have_enough_cores`: the first node fits the largest flavor.
abbrev first_fits : String → List ℕ → Action Config Bool
first_fits account reqs = do
  v ← or_raise (head_of reqs) index_error
  n ← top account
  pure (not (ltb n v))

unfoldable pub have_enough_cores : ReqList → String → List ℕ → Action Config Bool
have_enough_cores req_list account reqs = do
  available ← with_resource account available_cores
  if ltb_ℤ available (pos (planned account req_list + sum_of (λ v. v) reqs))
      then pure false
      else first_fits account reqs

-- The nodes that the loop has dealt with, in front of the others.
abbrev keep :
    ResAllocation → Result (List ResAllocation × List ℕ) → Result (List ResAllocation × List ℕ)
keep res (err e) = err e
keep res (ok (nodes, left)) = ok (res ∷ nodes, left)

-- The loop of `add_new_requirement_to_list` on the nodes of the resource. `left` is
-- `vcpu_requirement[idx:]`, so that `vcpu_requirement[idx]` raises where `left` is empty.
unfoldable pub place :
    ℕ → Option String → List ResAllocation → List ℕ → Result (List ResAllocation × List ℕ)
place top location [] left = ok ([], left)
place top location (res ∷ nodes) left = elim (opt_str_eq res.location_property location) [
  | false ↦ keep res (place top location nodes left)
  | true ↦ elim left [
    | [] ↦ err index_error
    | v ∷ vs ↦ elim (leb (get_total_num_cores res + v) top) [
      | true ↦
          keep (record res { vcpu_list = res.vcpu_list ++ (v ∷ []) }) (place top location nodes vs)
      | false ↦ keep res (place top location nodes (v ∷ vs))
    ]
  ]
]

-- More cores first.
abbrev pub fuller_first : ResAllocation → ResAllocation → Bool
fuller_first a b = leb (get_total_num_cores b) (get_total_num_cores a)

abbrev pub new_nodes : Option String → List ℕ → List ResAllocation
new_nodes location = map (λ v. new_allocation v location)

-- What is left over gets nodes of its own.
abbrev finish : Option String → Result (List ResAllocation × List ℕ) → Result (List ResAllocation)
finish location (err e) = err e
finish location (ok (placed, left)) = ok (placed ++ new_nodes location left)

-- `add_new_requirement_to_list` on the nodes that the resource has already.
unfoldable pub extend_nodes :
    ℕ → Option String → List ℕ → List ResAllocation → Result (List ResAllocation)
extend_nodes top location reqs nodes =
    finish location (place top location (sort_by fuller_first nodes) reqs)

-- The largest flavor is read in every round of the loop in the source, and here once before it.
unfoldable pub add_new_requirement_to_list :
    ReqList → List ℕ → Option String → String → Action Config ReqList
add_new_requirement_to_list req_list reqs location account = elim (lookup account req_list) [
  | none ↦ pure (insert account (new_nodes location reqs) req_list)
  | some nodes ↦ do
    n ← top account
    nodes' ← from_result (extend_nodes n location reqs nodes)
    pure (insert account nodes' req_list)
]

-- The smallest flavor with enough cores, or the smallest of all.
unfoldable pub best_flavor : List VmFlavor → ResAllocation → Result String
best_flavor flavors node =
    let tmp = sort_by smaller_first flavors in
    elim (find (λ f. leb (get_total_num_cores node) f.vcpus) tmp) [
      | some f ↦ ok f.id
      | none ↦ elim (head_of tmp) [ none ↦ err index_error | some f ↦ ok f.id ]
    ]

unfoldable pub best_flavor_from_node : String → ResAllocation → Action Config String
best_flavor_from_node account node =
    with_resource account (λ r. from_result (best_flavor r.flavor_objects node) r)

-- What `_get_vcpu_requirement` answers, the account or queue last.
abbrev pub Requirement : Type 0
Requirement = Option (List ℕ) × Option String × String

abbrev job_get : String → Job → Option String
job_get key job = lookup key job.attrs

-- `int(s)` if `s.isdigit()`, and 1 if not
abbrev digits_or_one : String → ℕ
digits_or_one s = elim (to_number s) [ none ↦ 1 | some n ↦ n ]

abbrev account_of : Job → Action Config String
account_of job = elim (job_get "Account_Name" job) [
  | some account ↦ pure account
  | none ↦ or_raise (job_get "queue" job) key_error
]

-- `-1`
abbrev is_minus_one : ℤ → Bool
is_minus_one (negsuc zero) = true
is_minus_one _ = false

-- The `elif` of the loop of `calculate_new_instances`: the default resource's cores.
abbrev fall_back : ReqList → List ℕ → Option String → String → Action Config ReqList
fall_back req_list reqs location account = do
  spare ← have_enough_cores req_list "default" reqs
  if spare && not (opt_str_eq (some account) location)
      then add_new_requirement_to_list req_list reqs location "default"
      else pure req_list

abbrev own_cores : ReqList → List ℕ → String → Action Config Bool
own_cores req_list reqs account =
    if str_eq account "default" then pure false else have_enough_cores req_list account reqs

-- The end of the loop of `calculate_new_instances`: the job's own resource if it has enough
-- cores, else the default one.
unfoldable pub assign : ReqList → List ℕ → Option String → String → Action Config ReqList
assign req_list reqs location account = do
  own ← own_cores req_list reqs account
  if own
      then add_new_requirement_to_list req_list reqs location account
      else fall_back req_list reqs location account

-- `if not vcpu_requirement: continue`
abbrev assign_some : ReqList → Requirement → String → Action Config ReqList
assign_some req_list (none, location, _) account = pure req_list
assign_some req_list (some [], location, _) account = pure req_list
assign_some req_list (some (v ∷ vs), location, _) account =
    assign req_list (v ∷ vs) location account

module _ (draw : ℕ → ℕ → ℕ) where
  abbrev located : List ℕ → String → Action Config Requirement
  located reqs account = do
    location ← get_default_node_location draw
    pure (some reqs, location, account)

  abbrev by_nodes : String → String → Action Config Requirement
  by_nodes nodes account = do n ← or_raise (to_number nodes) value_error; located (n ∷ []) account

  -- The three forms of a requirement that a job can have.
  unfoldable pub requirement_of :
      Job → String → Option String → Option String → Option String → Action Config Requirement
  requirement_of job account (some neednodes) (some ncpus) nodes =
      located (replicate (digits_or_one neednodes) (digits_or_one ncpus)) account
  requirement_of job account neednodes ncpus (some nodes) = by_nodes nodes account
  requirement_of job account none none none = located (1 ∷ []) account
  requirement_of job account neednodes ncpus none = pure (none, none, account)

  -- `_get_vcpu_requirement`
  unfoldable pub get_vcpu_requirement : Job → Action Config Requirement
  unfolding requirement_of
  get_vcpu_requirement job = do
    account ← account_of job
    requirement_of job account (job_get "Resource_List.neednodes" job)
        (job_get "Resource_List.ncpus" job) (job_get "Resource_List.nodes" job)

  abbrev plan_required : ReqList → Job → Action Config ReqList
  plan_required req_list job = do
    requirement ← get_vcpu_requirement job
    resources ← gets (λ c. c.cloud_resources)
    assign_some req_list requirement
        (if has_key requirement.2 resources then requirement.2 else "default")

  -- The body of the loop of `calculate_new_instances`.
  unfoldable pub plan_job : ℕ → ReqList → Job → Action Config ReqList
  plan_job number_of_wn req_list job = do
    priority ← or_raise job.job_priority key_error
    if is_minus_one priority && ltb 0 number_of_wn
        then pure req_list
        else plan_required req_list job

  unfoldable pub plan_jobs : List Job → ℕ → Action Config ReqList
  plan_jobs idle_jobs number_of_wn = fold_each idle_jobs [] (plan_job number_of_wn)

  abbrev provision_node :
      String → List ProvisionVm → ResAllocation → Action Config (List ProvisionVm)
  provision_node account flavor_list node = do
    flavor ← best_flavor_from_node account node
    zone ← convert_location_property_to_availability_zone draw node.location_property
    pure (flavor_list ++ (new_provision (flavor_id flavor) (some zone) account false ∷ []))

  unfoldable pub convert_req_list_to_flavor : ReqList → Action Config (List ProvisionVm)
  convert_req_list_to_flavor req_list =
      fold_each req_list []
        (λ flavor_list entry. fold_each entry.1 flavor_list (provision_node entry.0))

  unfoldable pub calculate_new_instances : List Job → ℕ → Action Config (List ProvisionVm)
  calculate_new_instances idle_jobs number_of_wn =
      plan_jobs idle_jobs number_of_wn >>= convert_req_list_to_flavor
