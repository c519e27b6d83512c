-- ===== src/Center/Cleanup.antt =====
-- `check_cleanup`: what became of the VMs that are being deleted.
use Prim.Native.Nat.{◌%◌}
use dynamictorque.Base.{
  ℕ, ◌+◌, ◌-◌, String, Bool, true, not, ◌&&◌, ◌||◌, Option, none, some, List, [], ◌∷◌, ◌++◌, ltb,
  ◌==◌, map, str_eq, opt_str_eq, length, if◌then◌else◌,
}
use dynamictorque.Base.Dict.{Dict, lookup, has_key}
use dynamictorque.Base.Action.{
  Action, ok, err, key_error, index_error, attribute_error, pure, raise, gets, or_raise, for_each,
  fold_each, modify, ◌>>=◌, ◌>>◌,
}
use dynamictorque.CloudTools.{CloudResource, new_provision}
use dynamictorque.CloudTools.Static.{add_static_req}
use dynamictorque.Config.{with_resource}
use dynamictorque.World.{World, closed_port, log_event}
use dynamictorque.Commands.{
  Node, get_wn_in_torque, release_res_for_node, remove_node_from_torque, post_vm_destroy_action,
  post_remove_node_action, release_node_in_torque, dump_nodes_to_persistent_file,
}
use dynamictorque.Cloud.{Cloud}
use dynamictorque.Center.State.{
  Center, lift, on_config, config, get_vm, change_vm, vm_check, vm_destroy, append_existing,
  remove_deleting,
}
use dynamictorque.Center.Cores.{update_available_cores}
use dynamictorque.Center.Launch.{launch_instances}

-- `(a - b).seconds` of two times in seconds: a timedelta keeps whole days apart.
abbrev pub seconds_between : ℕ → ℕ → ℕ
seconds_between a b = (a % 86400 + 86400 - b % 86400) % 86400

-- `config.cloud_security_groups[0]`
abbrev pub first_group : List String → Option String
first_group [] = none
first_group (g ∷ gs) = some g

-- The VMs that are gone, and those that run jobs again.
pub record Outcome : Type 0 where
  pub vm_deleted : List ℕ
  pub vm_executing : List ℕ

abbrev pub add_deleted : ℕ → Outcome → Outcome
add_deleted r o = record o { vm_deleted = o.vm_deleted ++ (r ∷ []) }

abbrev pub add_executing : ℕ → Outcome → Outcome
add_executing r o = record o { vm_executing = o.vm_executing ++ (r ∷ []) }

-- `vm.delete_time is None or (vm.delete_time - now).seconds > max_delete_retry_time`
unfoldable pub is_delete_due : ℕ → Option ℕ → ℕ → Bool
is_delete_due limit none now = true
is_delete_due limit (some deleted) now = ltb limit (seconds_between deleted now)

-- `loc for loc in location_properties if location_properties[loc] == zone`, the first one
abbrev pub zone_location : Dict String → Option String → Option String
zone_location [] az = none
zone_location ((loc, z) ∷ ps) az = if opt_str_eq (some z) az then some loc else zone_location ps az

-- `dump_nodes_to_persistent_file(self.existing_instances)`, if there is news
abbrev pub dump_if : World → Bool → Action Center Unit
dump_if w news =
    if news
    then (do
      existing ← gets (λ s. map s.heap s.existing_instances)
      lift (dump_nodes_to_persistent_file w existing))
    else pure tt

module _ (w : World) (cloud : Cloud) where
  abbrev pub retry_destroy : ℕ → Action Center Unit
  retry_destroy r = do
    c ← config
    vm ← get_vm r
    now ← gets (λ s. w.now s.shell.trace)
    if is_delete_due c.max_delete_retry_time vm.delete_time now then vm_destroy cloud r else pure tt

  -- A node that TORQUE does not know.
  abbrev pub not_in_torque : ℕ → ℕ → Outcome → Action Center Outcome
  not_in_torque r state o = if state == 3 then pure (add_deleted r o) else retry_destroy r >> pure o

  -- A node that TORQUE knows, in a cloud that still has the VM.
  abbrev pub in_torque_and_cloud : ℕ → Node → Outcome → Action Center Outcome
  in_torque_and_cloud r node o = do
    vm ← get_vm r
    state ← or_raise (lookup "state" node) key_error
    if has_key "jobs" node then pure (if vm.force_off then o else add_executing r o) else do
      lift (release_res_for_node w vm)
      lift (remove_node_from_torque w vm)
      vm_destroy cloud r
      now ← gets (λ s. w.now s.shell.trace)
      change_vm r (λ v. record v { delete_time = some now })
      pure o

  abbrev pub in_torque : ℕ → ℕ → Node → Outcome → Action Center Outcome
  in_torque r state node o =
      if state == 3
      then (do
        vm ← get_vm r
        lift (release_res_for_node w vm)
        lift (remove_node_from_torque w vm)
        pure o)
      else in_torque_and_cloud r node o

  abbrev pub by_node : ℕ → ℕ → Option Node → Outcome → Action Center Outcome
  by_node r state none o = pure o
  by_node r state (some []) o = not_in_torque r state o
  by_node r state (some (e ∷ es)) o = in_torque r state (e ∷ es) o

  -- The body of the first loop.
  unfoldable pub check_deleting : Outcome → ℕ → Action Center Outcome
  check_deleting o r = do
    state ← vm_check cloud r
    vm ← get_vm r
    if str_eq vm.hostname ""
        then pure (if state == 3 then add_deleted r o else o)
        else do node ← lift (get_wn_in_torque w vm); by_node r state node o

  -- The firewall of every other resource with a volume.
  abbrev pub close_port : Option String → String × CloudResource → Action Center Unit
  close_port ip (res, resource) = elim ip [
    | none ↦ pure tt
    | some address ↦
        if not (str_eq res "default") && resource.has_volume
        then (do
          c ← config
          or_raise (first_group c.cloud_security_groups) index_error
          lift (log_event (closed_port res address)))
        else pure tt
  ]

  abbrev pub close_ports : ℕ → Action Center Unit
  close_ports r = do
    vm ← get_vm r
    c ← config
    if str_eq vm.cloud_resource_name "default"
        then for_each c.cloud_resources (close_port vm.ip)
        else pure tt

  -- A static VM that is gone is wanted again. The branch of a VM without a flavor reads
  -- `self.flavors`, which a `ResourceCenter` does not have.
  abbrev pub add_static : String → Action CloudResource Unit
  add_static location resource = elim resource.static_vms_to_start [
    | none ↦ (err attribute_error, resource)
    | some reqs ↦
        (ok tt, record resource { static_vms_to_start = some (add_static_req location 1 reqs) })
  ]

  abbrev pub request_again : ℕ → Action Center Unit
  request_again r = do
    vm ← get_vm r
    elim vm.flavor [
      | none ↦ raise attribute_error
      | some flavor ↦ modify (λ s. record s {
        provision_waiting_list =
            s.provision_waiting_list
            ++ (new_provision flavor vm.availability_zone vm.cloud_resource_name (not vm.dynamic)
                ∷ []);
      })
    ]

  unfoldable pub replace_static : ℕ → Action Center Unit
  replace_static r = do
    vm ← get_vm r
    c ← config
    elim (zone_location c.location_properties vm.availability_zone) [
      | none ↦ pure tt
      | some location ↦ do
        lift (on_config (with_resource vm.cloud_resource_name (add_static location)))
        request_again r
    ]

  -- The body of the loop on `vm_deleted`.
  unfoldable pub finish_deleted : ℕ → Action Center Unit
  unfolding replace_static
  finish_deleted r = do
    remove_deleting r
    vm ← get_vm r
    lift (post_vm_destroy_action w vm)
    lift (post_remove_node_action w vm)
    close_ports r
    if vm.dynamic then pure tt else replace_static r

  -- The body of the loop on `vm_executing`.
  unfoldable pub resume : ℕ → Action Center Unit
  resume r = do
    append_existing r
    remove_deleting r
    vm ← get_vm r
    lift (release_node_in_torque w vm)

  abbrev pub launch_waiting : Action Center Unit
  launch_waiting = do
    waiting ← gets (λ s. s.provision_waiting_list)
    provisioning ← gets (λ s. s.provisioning)
    if ltb 0 (length waiting) && not provisioning then launch_instances cloud else pure tt

  -- The part of `check_cleanup` that moves VMs between the lists.
  unfoldable pub settle : Outcome → Action Center Unit
  unfolding finish_deleted resume
  settle o = for_each o.vm_deleted finish_deleted >> for_each o.vm_executing resume

  -- `check_cleanup` for the VMs that are being deleted.
  unfoldable pub clean : List ℕ → Action Center Unit
  unfolding check_deleting settle
  clean [] = pure tt
  clean (r ∷ rs) = do
    o ← fold_each (r ∷ rs) (record { vm_deleted = []; vm_executing = [] }) check_deleting
    settle o
    update_available_cores
    dump_if w (ltb 0 (length o.vm_deleted) || ltb 0 (length o.vm_executing))
    launch_waiting

  unfoldable pub check_cleanup : Action Center Unit
  unfolding clean
  check_cleanup = gets (λ s. s.deleting_instances) >>= clean
