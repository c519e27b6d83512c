-- ===== src/Commands.antt =====
-- dynamictorque/local_commands.py: the calls of TORQUE, Maui and the shell. A command line is a
-- `Tool` with its arguments. Log lines are left out.
mod Parse
pub mod Queue
pub mod Ordered
unfoldable pub use Parse.*
use dynamictorque.Base.{
  ℕ, zero, String, Bool, true, false, Option, none, some, List, [], ◌∷◌, map, str_eq, find,
  if◌then◌else◌,
}
use dynamictorque.Base.Int.{ℤ, pos}
use dynamictorque.Base.Dict.{Dict, lookup}
use dynamictorque.Base.Action.{
  Action, Result, ok, err, key_error, pure, gets, or_raise, from_result, ◌>>=◌, ◌>>◌,
}
use dynamictorque.CloudTools.{Vm, CloudResource}
use dynamictorque.Config.{Config}
use dynamictorque.JobScheduler.{Job}
use dynamictorque.World.{
  World, Shell, Process, Tool, pbsnodes, qstat, diagnose, checknode, add_node, remove_node,
  set_node, setres, releaseres, post_add_node, post_remove_node, post_vm_provision, post_vm_destroy,
  sed_hosts, ssh_keygen, Arg, text, number, wrote_hosts, dumped_nodes, popen, log_event,
}

-- `returncode == 0`
abbrev succeeded : Process → Bool
succeeded p = elim p.returncode [ pos n ↦ elim n [ zero ↦ true | _ ↦ false ] | _ ↦ false ]

-- The answer of a query that runs a process: `failed` if it cannot be started.
abbrev answer : {A : Type 0} → Option Process → A → (Process → A) → A
answer none failed f = failed
answer (some p) failed f = f p

-- `str(ip)` where the address may be `None`
abbrev shown : Option String → Arg
shown none = text "None"
shown (some ip) = text ip

module _ (w : World) where
  unfoldable pub wn_query : Action Shell (Bool × List Node)
  wn_query = do
    r ← popen w pbsnodes (text "-x" ∷ text "" ∷ [])
    pure (
        answer r (false, [])
          (λ p.
            if succeeded p
            then (true, pbsnodes_to_node_list w p.out)
            else (contains_text "No nodes found" p.err, [])))

  -- `none` stands for `None`, and the node without keys for `{}`.
  unfoldable pub get_wn_in_torque : Vm → Action Shell (Option Node)
  get_wn_in_torque vm = do
    r ← popen w pbsnodes (text "-x" ∷ text vm.hostname ∷ [])
    from_result (
        answer r (ok none) (λ p.
          if succeeded p
          then node_named vm.hostname (pbsnodes_to_node_list w p.out)
          else if contains_text "cannot locate specified node" p.err
          then ok (some [])
          else ok none))

  unfoldable pub job_query : Action Shell (Bool × Jobs)
  job_query = do
    r ← popen w qstat []
    c ← gets (λ s. s.config)
    pure (
        answer r (false, no_jobs)
          (λ p.
            if succeeded p
            then if is_blank p.out then (true, no_jobs) else (true, qstat_to_job_list w c p.out)
            else (false, no_jobs)))

  unfoldable pub query_job_priorities : Action Shell (Bool × List JobPriority)
  query_job_priorities = do
    r ← popen w diagnose []
    from_result (
        answer r (ok (false, []))
          (λ p. if succeeded p then with_maui_up (get_job_priorities w p.out) else ok (false, [])))

  unfoldable pub check_node : String → Action Shell (Option String)
  check_node name = do
    r ← popen w checknode (text name ∷ [])
    pure (answer r none (λ p. if succeeded p then some (state_of p.out) else none))

  unfoldable pub add_node_to_torque : Vm → Action Shell Bool
  add_node_to_torque vm = do
    log_event (wrote_hosts vm.ip vm.hostname)
    r ← popen w add_node (text vm.hostname ∷ [])
    pure (answer r false succeeded)

  -- A process whose answer only goes to the log.
  abbrev run_and_log : Tool → List Arg → Action Shell Unit
  run_and_log tool args = popen w tool args >> pure tt

  -- A command that is empty is not run.
  abbrev run_unless_empty : String → Tool → List Arg → Action Shell Unit
  run_unless_empty command tool args = if str_eq command "" then pure tt else run_and_log tool args

  unfoldable pub post_vm_provision_action : Vm → Action Shell Unit
  post_vm_provision_action vm = do
    c ← gets (λ s. s.config)
    run_unless_empty c.post_vm_provision_command post_vm_provision
        (text vm.hostname ∷ shown vm.ip ∷ text vm.name ∷ [])

  unfoldable pub post_vm_destroy_action : Vm → Action Shell Unit
  post_vm_destroy_action vm = do
    c ← gets (λ s. s.config)
    run_unless_empty c.post_vm_destroy_command post_vm_destroy
        (text vm.hostname ∷ shown vm.ip ∷ text vm.name ∷ [])

  unfoldable pub post_add_node_action : Vm → Action Shell Unit
  post_add_node_action vm = do
    c ← gets (λ s. s.config)
    run_unless_empty c.post_add_node_command post_add_node (text vm.hostname ∷ shown vm.ip ∷ [])

  unfoldable pub post_remove_node_action : Vm → Action Shell Unit
  post_remove_node_action vm = do
    c ← gets (λ s. s.config)
    run_unless_empty c.post_remove_node_command post_remove_node
        (text vm.hostname ∷ shown vm.ip ∷ [])

  unfoldable pub set_np : Vm → ℕ → Action Shell Unit
  set_np vm np = run_and_log set_node (text vm.hostname ∷ text "np" ∷ text "=" ∷ number np ∷ [])

  unfoldable pub set_node_property : Vm → String → Action Shell Unit
  set_node_property vm property =
      run_and_log set_node (text vm.hostname ∷ text "properties" ∷ text "=" ∷ text property ∷ [])

  unfoldable pub add_node_property : Vm → String → Action Shell Unit
  add_node_property vm property =
      run_and_log set_node (text vm.hostname ∷ text "properties" ∷ text "+=" ∷ text property ∷ [])

  unfoldable pub set_node_online : Vm → Action Shell Unit
  set_node_online vm =
      run_and_log set_node (text vm.hostname ∷ text "state" ∷ text "=" ∷ text "free" ∷ [])

  unfoldable pub hold_node_in_torque : Vm → Action Shell Unit
  hold_node_in_torque vm = run_and_log pbsnodes (text "-o" ∷ text vm.hostname ∷ [])

  unfoldable pub release_node_in_torque : Vm → Action Shell Unit
  release_node_in_torque vm = run_and_log pbsnodes (text "-c" ∷ text vm.hostname ∷ [])

  unfoldable pub remove_node_from_torque : Vm → Action Shell Unit
  remove_node_from_torque vm = run_and_log remove_node (text vm.hostname ∷ [])

  unfoldable pub remove_node_from_hosts_file : Vm → Action Shell Unit
  remove_node_from_hosts_file vm = run_and_log sed_hosts (text vm.hostname ∷ [])

  unfoldable pub remove_node_from_known_hosts_file : Vm → Action Shell Unit
  remove_node_from_known_hosts_file vm = run_and_log ssh_keygen (text vm.hostname ∷ [])

  -- A type that is neither `account` nor `queue` is only logged.
  abbrev res_opt : String → Option String
  res_opt res_type =
      if str_eq res_type "account"
      then some "-a"
      else if str_eq res_type "queue"
      then some "-q"
      else none

  unfoldable pub set_res_for_node : Vm → String → String → Action Shell Unit
  set_res_for_node vm res_type account_string = elim (res_opt res_type) [
    | none ↦ pure tt
    | some opt ↦ run_and_log setres (text opt ∷ text account_string ∷ text vm.hostname ∷ [])
  ]

  unfoldable pub release_res_for_node : Vm → Action Shell Unit
  release_res_for_node vm = do
    c ← gets (λ s. s.config)
    res ← or_raise (lookup vm.cloud_resource_name c.cloud_resources) key_error
    elim res.account_string [
      | none ↦ pure tt
      | some account ↦ run_and_log releaseres (text vm.hostname ∷ [])
    ]

  unfoldable pub dump_nodes_to_persistent_file : List Vm → Action Shell Unit
  dump_nodes_to_persistent_file existing_instances = do
    c ← gets (λ s. s.config)
    log_event (
        dumped_nodes
          (map (λ vm. (vm.hostname, vm.vcpu_number, c.node_property)) existing_instances))

  -- The first word of each line of the file, none if there is no file.
  unfoldable pub read_nodes_from_persistent_file : Action Shell (List String)
  read_nodes_from_persistent_file s = (ok (map first_word (w.nodes_file s.trace)), s)
