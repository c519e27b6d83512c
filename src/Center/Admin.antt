-- ===== src/Center/Admin.antt =====
-- The methods that an administrator calls through dynamictorque/info_server.py.
use Prim.Native.String.{◌++◌ as ◌<>◌}
use dynamictorque.Base.{
  ℕ, String, Bool, true, not, ◌&&◌, Option, [], ◌++◌, str_eq, find, if◌then◌else◌,
}
use dynamictorque.Base.Dict.{lookup, has_key}
use dynamictorque.Base.Action.{
  Action, ok, exception, key_error, pure, raise, gets, or_raise, modify, for_each, ◌>>=◌, ◌>>◌,
}
use dynamictorque.World.{World}
use dynamictorque.Commands.{
  Node, check_node, hold_node_in_torque, remove_node_from_torque, remove_node_from_hosts_file,
  remove_node_from_known_hosts_file,
}
use dynamictorque.Cloud.{Cloud}
use dynamictorque.Center.State.{
  Center, lift, get_vm, change_vm, append_deleting, remove_existing, vm_destroy, find_wn_from_vm,
}

unfoldable pub toggle_sleep_mode : Action Center Unit
toggle_sleep_mode s = (ok tt, record s { sleep_mode = not s.sleep_mode })

abbrev pub find_vm : String → Center → Option ℕ
find_vm name s = find (λ r. str_eq (s.heap r).hostname name) s.existing_instances

-- `get_detail`, and the first part of `kill_vm`: the VM and its worker node.
unfoldable pub get_detail : String → Action Center (ℕ × Node)
get_detail vm_name = do
  found ← gets (find_vm vm_name)
  r ← or_raise found (exception (vm_name <> " not found in vm list"))
  vm ← get_vm r
  wn ← find_wn_from_vm vm
  node ← or_raise wn (exception (vm_name <> " is not a worker node"))
  pure (r, node)

module _ (w : World) where
  -- The last part of `kill_vm`.
  unfoldable pub hold_and_delete : ℕ → Bool → Action Center Unit
  hold_and_delete r forceoff = do
    change_vm r (λ vm. record vm { force_off = forceoff })
    vm ← get_vm r
    lift (hold_node_in_torque w vm)
    append_deleting r
    remove_existing r

  unfoldable pub kill_vm : String → Bool → Action Center Unit
  unfolding get_detail hold_and_delete
  kill_vm vm_name forceoff = do
    (r, node) ← get_detail vm_name
    name ← or_raise (lookup "name" node) key_error
    lift (check_node w name)
    if has_key "jobs" node && not forceoff
        then raise (exception (vm_name <> " is busy, can't be killed"))
        else hold_and_delete r forceoff

  module _ (cloud : Cloud) where
    -- What `forceoff` and `check_existing_worker_nodes` do to a node that they shut down.
    unfoldable pub shut_down : ℕ → Action Center Unit
    shut_down r = do
      change_vm r (λ vm. record vm { force_off = true })
      vm ← get_vm r
      lift (remove_node_from_torque w vm)
      lift (remove_node_from_hosts_file w vm)
      lift (remove_node_from_known_hosts_file w vm)
      vm_destroy cloud r

    unfoldable pub forceoff : Action Center Unit
    unfolding shut_down
    forceoff = do
      existing ← gets (λ s. s.existing_instances)
      for_each existing shut_down
      modify (λ s. record s {
        deleting_instances = s.deleting_instances ++ s.existing_instances;
        existing_instances = [];
      })
      starting ← gets (λ s. s.starting_instances)
      for_each starting (vm_destroy cloud)
      modify (λ s. record s {
        deleting_instances = s.deleting_instances ++ s.starting_instances;
        starting_instances = [];
      })
