-- ===== src/Center/WorkerNodes.antt =====
-- `check_existing_worker_nodes`: which nodes are shut down, and which static node is swapped for a
-- dynamic one that runs jobs.
use dynamictorque.Base.{
  ℕ, ◌+◌, String, Bool, true, false, not, ◌&&◌, ◌||◌, Option, none, some, List, [], ◌∷◌, ltb, ◌==◌,
  any, str_eq, opt_str_eq, length, if◌then◌else◌,
}
use dynamictorque.Base.Dict.{lookup, has_key}
use dynamictorque.Base.Action.{
  Action, Result, ok, err, key_error, index_error, type_error, attribute_error, pure, raise, gets,
  or_raise, from_result, for_each, ◌>>=◌, ◌>>◌,
}
use dynamictorque.CloudTools.{Vm, Flavor, flavor_object, FlavorNames}
use dynamictorque.World.{World}
use dynamictorque.Commands.{Node, check_node, hold_node_in_torque, contains_text, lower}
use dynamictorque.Cloud.{Cloud}
use dynamictorque.Center.State.{
  Center, lift, config, get_vm, change_vm, append_deleting, remove_existing, set_provisioning,
  find_vm_from_wn,
}
use dynamictorque.Center.Cores.{update_available_cores}
use dynamictorque.Center.Admin.{shut_down}

-- `vm.state` and `vm.state_time` after a look at the node: the time in the same state so far.
unfoldable pub track_state : Option String → ℕ → Vm → Result Vm
track_state state interval vm =
    if opt_str_eq vm.state state
    then elim vm.state_time [
      | none ↦ err type_error
      | some t ↦ ok (record vm { state = state; state_time = some (t + interval) })
    ]
    else ok (record vm { state = state; state_time = some 0 })

abbrev pub exceeds : Option ℕ → ℕ → Bool
exceeds none limit = false
exceeds (some t) limit = ltb limit t

-- The VM on another node could stand in for this one: it is dynamic, and alike.
abbrev pub is_substitute : Vm → Vm → Bool
is_substitute other vm =
    other.dynamic
    && (other.vcpu_number == vm.vcpu_number
        && (opt_str_eq other.availability_zone vm.availability_zone
            && str_eq other.cloud_resource_name vm.cloud_resource_name))

-- `vm.flavor.name`
abbrev flavor_name : Option Flavor → Option String
flavor_name (some (flavor_object f)) = some f.name
flavor_name _ = none

-- `worker_node_flavors[0]`: of a text that is its first character.
abbrev first_of : FlavorNames → Option String
first_of (FlavorNames.names []) = none
first_of (FlavorNames.names (n ∷ ns)) = some n
first_of (FlavorNames.text String.[]) = none
first_of (FlavorNames.text (String.◌∷◌ c s)) = some (String.◌∷◌ c String.[])

-- The test behind the swap, which only logs, but raises where a part of it is missing.
abbrev check_base_flavor : Vm → Action Center Unit
check_base_flavor vm = do
  name ← or_raise (flavor_name vm.flavor) attribute_error
  c ← config
  res ← or_raise (lookup vm.cloud_resource_name c.cloud_resources) key_error
  base ← or_raise (first_of res.worker_node_flavors) index_error
  if str_eq name base
      then pure tt
      else elim res.flavor_objects [ [] ↦ raise index_error | f ∷ fs ↦ pure tt ]

-- `state and "down" in wn['state'].lower() and "down" in state and time > max_down_time`
abbrev is_down : Option String → Option String → Option ℕ → ℕ → Result Bool
is_down none torque time limit = ok false
is_down (some state) torque time limit = if str_eq state "" then ok false else elim torque [
  | none ↦ err key_error
  | some t ↦
      ok (contains_text "down" (lower t) && (contains_text "down" state && exceeds time limit))
]

module _ (w : World) (cloud : Cloud) where
  -- `if the_vm in self.existing_instances: self.existing_instances.remove(the_vm)`
  abbrev pub forget : ℕ → Action Center Unit
  forget r = do
    existing ← gets (λ s. s.existing_instances)
    if any (λ r'. r == r') existing then remove_existing r else pure tt

  -- The node is taken out of the cluster and its VM destroyed.
  unfoldable pub retire : ℕ → Action Center Unit
  retire r = do shut_down w cloud r; forget r; update_available_cores; set_provisioning false

  -- The nodes are tried in turn; the first substitute ends the loop.
  unfoldable pub swap : ℕ → String → List Node → Action Center Unit
  unfolding retire
  swap r name [] = pure tt
  swap r name (another_wn ∷ nodes) = do
    other_name ← or_raise (lookup "name" another_wn) key_error
    if str_eq other_name name || not (has_key "jobs" another_wn) then swap r name nodes else (do
      another ← find_vm_from_wn another_wn
      elim another [
        | none ↦ swap r name nodes
        | some r' ↦ do
          other ← get_vm r'
          vm ← get_vm r
          elim (is_substitute other vm) [
            | false ↦ swap r name nodes
            | true ↦ do
              change_vm r (λ v. record v { dynamic = true })
              change_vm r' (λ v. record v { dynamic = false })
              retire r
          ]
      ])

  -- A static node that has been idle for too long.
  unfoldable pub idle_static : ℕ → String → Action Center Unit
  unfolding swap
  idle_static r name = do
    running ← gets (λ s. s.running_jobs)
    nodes ← gets (λ s. s.worker_nodes)
    if ltb 0 (length running) then swap r name nodes else pure tt
    vm ← get_vm r
    check_base_flavor vm

  -- The tests of a node without jobs; the answer is `to_delete`.
  unfoldable pub check_idle : ℕ → Node → String → Option String → Action Center Bool
  unfolding retire idle_static
  check_idle r wn name state = do
    vm ← get_vm r
    c ← config
    if opt_str_eq state (some "free") && exceeds vm.state_time c.max_idle_time
        then (if vm.dynamic then retire r else idle_static r name) >> pure false
        else if opt_str_eq state (some "drained")
        then pure true
        else from_result (is_down state (lookup "state" wn) vm.state_time c.max_down_time)

  abbrev hold_if_outdated : ℕ → Action Center Unit
  hold_if_outdated r = do
    vm ← get_vm r
    c ← config
    res ← or_raise (lookup vm.cloud_resource_name c.cloud_resources) key_error
    if opt_str_eq vm.image_id (some res.image_uuid)
        then pure tt
        else lift (hold_node_in_torque w vm)

  unfoldable pub examine_vm : ℕ → Node → Action Center Bool
  unfolding check_idle
  examine_vm r wn = do
    name ← or_raise (lookup "name" wn) key_error
    state ← lift (check_node w name)
    vm ← get_vm r
    c ← config
    vm' ← from_result (track_state state c.job_poller_interval vm)
    change_vm r (λ _. vm')
    hold_if_outdated r
    if has_key "jobs" wn then pure false else check_idle r wn name state

  abbrev move_to_deleting : ℕ → Action Center Unit
  move_to_deleting r = append_deleting r >> remove_existing r

  -- The body of the loop on the worker nodes.
  unfoldable pub examine : Node → Action Center Unit
  unfolding examine_vm
  examine wn = do
    the_vm ← find_vm_from_wn wn
    elim the_vm [
      | none ↦ or_raise (lookup "name" wn) key_error >> pure tt
      | some r ↦ do to_delete ← examine_vm r wn; if to_delete then move_to_deleting r else pure tt
    ]

  unfoldable pub check_existing_worker_nodes : Action Center Unit
  unfolding examine
  check_existing_worker_nodes = do
    nodes ← gets (λ s. s.worker_nodes)
    for_each nodes examine
    update_available_cores
