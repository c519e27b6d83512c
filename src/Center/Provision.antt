-- ===== src/Center/Provision.antt =====
-- `update_provision_status`: from the VMs that are starting to those that work. The pauses
-- between the attempts are left out.
use dynamictorque.Base.{
  ℕ, zero, suc, String, Bool, true, false, not, ◌&&◌, ◌||◌, Option, none, some, List, [], ◌∷◌, ◌++◌,
  ltb, ◌==◌, str_eq, opt_str_eq, length, if◌then◌else◌,
}
use dynamictorque.Base.Dict.{Dict, lookup}
use dynamictorque.Base.Action.{
  Action, ok, err, key_error, index_error, type_error, attribute_error, pure, gets, or_raise,
  for_each, when_some, fold_each, modify, ◌>>=◌, ◌>>◌,
}
use dynamictorque.CloudTools.{Vm, CloudResource, new_provision}
use dynamictorque.CloudTools.Static.{need_vm}
use dynamictorque.Config.{with_resource}
use dynamictorque.World.{World, opened_port, log_event}
use dynamictorque.Commands.{
  Node, add_node_to_torque, check_node, remove_node_from_torque, wn_query, set_res_for_node,
  post_add_node_action, set_node_property, add_node_property, set_np, set_node_online,
  post_vm_provision_action, get_wn_in_torque,
}
use dynamictorque.Cloud.{Cloud}
use dynamictorque.Center.State.{
  Center, lift, on_config, config, get_vm, change_vm, vm_check, vm_destroy, append_existing,
  append_deleting, remove_starting, set_provisioning,
}
use dynamictorque.Center.Cores.{update_available_cores}
use dynamictorque.Center.Launch.{launch_instances}
use dynamictorque.Center.Cleanup.{seconds_between, dump_if, first_group}

pub record Progress : Type 0 where
  pub to_delete : List ℕ
  pub ready_to_use : List ℕ

abbrev pub add_failed : ℕ → Progress → Progress
add_failed r p = record p { to_delete = p.to_delete ++ (r ∷ []) }

abbrev pub add_ready : ℕ → Progress → Progress
add_ready r p = record p { ready_to_use = p.ready_to_use ++ (r ∷ []) }

-- A text that is neither `None` nor empty.
abbrev pub given : Option String → Bool
given none = false
given (some s) = not (str_eq s "")

module _ (w : World) (cloud : Cloud) where
  -- The two loops of attempts, with the attempts that are left.
  unfoldable pub retry_add : ℕ → Vm → Action Center Bool
  retry_add zero vm = pure false
  retry_add (suc n) vm = do
    ret ← lift (add_node_to_torque w vm)
    elim ret [ true ↦ pure true | false ↦ retry_add n vm ]

  unfoldable pub retry_check : ℕ → Vm → Action Center Bool
  retry_check zero vm = pure false
  retry_check (suc n) vm = do
    node_state ← lift (check_node w vm.hostname)
    elim node_state [ some _ ↦ pure true | none ↦ retry_check n vm ]

  abbrev pub reserve : Vm → CloudResource → Action Center Unit
  reserve vm res = when_some res.account_string (λ account.
      if given (some account) && given (some res.reservation_type)
      then lift (set_res_for_node w vm res.reservation_type account)
      else pure tt)

  abbrev pub add_account : Vm → CloudResource → Action Center Unit
  add_account vm res =
      when_some res.account_string
        (λ account. if given (some account) then lift (add_node_property w vm account) else pure tt)

  abbrev pub add_location : Vm → String × String → Action Center Unit
  add_location vm (loc, zone) =
      if opt_str_eq (some zone) vm.availability_zone
      then lift (add_node_property w vm loc)
      else pure tt

  -- A node that TORQUE and Maui know is configured and put online.
  unfoldable pub configure_node : ℕ → Action Center Unit
  configure_node r = do
    vm ← get_vm r
    nodes ← lift (wn_query w)
    modify (λ s. record s { pbs_server_up = nodes.0; worker_nodes = nodes.1 })
    c ← config
    res ← or_raise (lookup vm.cloud_resource_name c.cloud_resources) key_error
    reserve vm res
    lift (post_add_node_action w vm)
    if str_eq c.node_property "" then pure tt else lift (set_node_property w vm c.node_property)
    add_account vm res
    for_each c.location_properties (add_location vm)
    lift (set_np w vm vm.vcpu_number)
    lift (set_node_online w vm)

  -- A node that TORQUE knows is configured if Maui shows it.
  abbrev pub show_in_maui : ℕ → Vm → Progress → Action Center Progress
  show_in_maui r vm p = do
    seen ← retry_check 60 vm
    if seen
        then configure_node r >> pure p
        else lift (remove_node_from_torque w vm) >> pure (add_failed r p)

  -- Cloud state 0
  unfoldable pub join_cluster : ℕ → Progress → Action Center Progress
  unfolding retry_add retry_check configure_node
  join_cluster r p = do
    change_vm r (λ vm. record vm { cloud_ready = true })
    vm ← get_vm r
    added ← retry_add 5 vm
    if added then show_in_maui r vm p else pure (add_failed r p)

  -- `(now - creation_time).seconds > config.max_inaccessible_time`
  abbrev pub fail_if_late : ℕ → ℕ → Progress → Action Center Progress
  fail_if_late r creation_time p = do
    c ← config
    now ← gets (λ s. w.now s.shell.trace)
    pure (
        if ltb c.max_inaccessible_time (seconds_between now creation_time)
        then add_failed r p
        else p)

  abbrev pub open_port : Option String → String × CloudResource → Action Center Unit
  open_port ip (res, resource) =
      if not (str_eq res "default") && resource.has_volume
      then (do
        c ← config
        or_raise (first_group c.cloud_security_groups) index_error
        address ← or_raise ip type_error
        lift (log_event (opened_port res address)))
      else pure tt

  -- Cloud state 1, the first time
  unfoldable pub run_post_provision : ℕ → Action Center Unit
  run_post_provision r = do
    vm ← get_vm r
    lift (post_vm_provision_action w vm)
    c ← config
    if str_eq vm.cloud_resource_name "default"
        then for_each c.cloud_resources (open_port vm.ip)
        else pure tt
    change_vm r (λ v. record v { post_provision_command_executed = true })

  abbrev pub by_cloud_state : ℕ → ℕ → ℕ → Progress → Action Center Progress
  by_cloud_state r state creation_time p =
      if state == 0
      then join_cluster r p
      else if state == 1
      then (do
        vm ← get_vm r
        if vm.post_provision_command_executed then pure tt else run_post_provision r
        fail_if_late r creation_time p)
      else if state == 2
      then fail_if_late r creation_time p
      else if state == 3
      then pure (add_failed r p)
      else if state == 4
      then pure (add_failed r p)
      else pure p

  -- `vm.state_time > config.max_inaccessible_time`, where `None` is less than any number.
  abbrev pub is_late : Option ℕ → ℕ → Bool
  is_late none limit = false
  is_late (some n) limit = ltb limit n

  -- What becomes of a VM that TORQUE knows in this state.
  abbrev pub judge : ℕ → String → Option ℕ → ℕ → Progress → Progress
  judge r state state_time limit p =
      if str_eq state "free" || str_eq state "job-exclusive"
      then add_ready r p
      else if is_late state_time limit
      then add_failed r p
      else p

  abbrev pub by_torque_state : ℕ → Option Node → Progress → Action Center Progress
  by_torque_state r none p = pure p
  by_torque_state r (some []) p = pure p
  by_torque_state r (some (e ∷ es)) p = do
    vm ← get_vm r
    c ← config
    state ← or_raise (lookup "state" (e ∷ es)) key_error
    pure (judge r state vm.state_time c.max_inaccessible_time p)

  -- The body of the loop on the starting VMs.
  unfoldable pub check_starting : Progress → ℕ → Action Center Progress
  unfolding join_cluster run_post_provision
  check_starting p r = do
    vm ← get_vm r
    if vm.cloud_ready
        then (do node ← lift (get_wn_in_torque w vm); by_torque_state r node p)
        else (do
          state ← vm_check cloud r
          vm' ← get_vm r
          creation_time ← or_raise vm'.start_time type_error
          by_cloud_state r state creation_time p)

  abbrev pub take_static : Option String → Dict String → Action CloudResource Bool
  take_static zone properties resource = elim resource.static_vms_to_start [
    | none ↦ (err attribute_error, resource)
    | some reqs ↦ elim (need_vm zone properties reqs) [
      | err e ↦ (err e, resource)
      | ok (found, reqs') ↦ (ok found, record resource { static_vms_to_start = some reqs' })
    ]
  ]

  -- The body of the loop on `ready_to_use`.
  unfoldable pub admit : ℕ → Action Center Unit
  admit r = do
    remove_starting r
    vm ← get_vm r
    c ← config
    needed ← lift (
        on_config (
          with_resource vm.cloud_resource_name
            (take_static vm.availability_zone c.location_properties)))
    now ← gets (λ s. w.now s.shell.trace)
    change_vm r
        (λ v. record v { dynamic = if needed then false else v.dynamic; ready_time = some now })
    append_existing r

  -- A failed VM is asked for again if its flavor and its zone are known.
  abbrev pub ask_again : Vm → Action Center Unit
  ask_again vm s = elim vm.flavor [
    | none ↦ (ok tt, s)
    | some flavor ↦ elim vm.availability_zone [
      | none ↦ (ok tt, s)
      | some zone ↦ (
        ok tt,
        record s {
          provision_waiting_list =
              s.provision_waiting_list
              ++ (new_provision flavor (some zone) vm.cloud_resource_name (not vm.dynamic) ∷ []);
        },
      )
    ]
  ]

  -- The body of the loop on `to_delete`.
  unfoldable pub give_up : ℕ → Action Center Unit
  give_up r = do
    vm ← get_vm r
    ask_again vm
    vm_destroy cloud r
    remove_starting r
    append_deleting r

  -- The part of `update_provision_status` that moves VMs between the lists.
  unfoldable pub promote : Progress → Action Center Unit
  unfolding admit give_up
  promote p = for_each p.ready_to_use admit >> for_each p.to_delete give_up

  abbrev pub finish_provision : Action Center Unit
  finish_provision = do
    starting ← gets (λ s. s.starting_instances)
    waiting ← gets (λ s. s.provision_waiting_list)
    if length starting == 0 && length waiting == 0
        then set_provisioning false
        else launch_instances cloud

  unfoldable pub update_provision_status : Action Center Unit
  unfolding check_starting promote
  update_provision_status = do
    starting ← gets (λ s. s.starting_instances)
    p ← fold_each starting (record { to_delete = []; ready_to_use = [] }) check_starting
    promote p
    update_available_cores
    dump_if w (ltb 0 (length p.ready_to_use))
    finish_provision
