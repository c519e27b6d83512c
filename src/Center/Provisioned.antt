-- ===== src/Center/Provisioned.antt =====
-- A whole `update_provision_status`: its looks at the starting VMs move none of them.
use dynamictorque.Base.{
  ℕ, ◌≡◌, refl, arith, String, true, false, not, ◌&&◌, ◌==◌, Option, none, some, [], ◌∷◌, str_eq,
  length, ltb,
}
use dynamictorque.Base.Dict.{lookup}
use dynamictorque.Base.Action.{
  ◌>>◌, Post, Post-imp, and_then-Post, if-Post, key_error, index_error, type_error, fold_each,
}
use dynamictorque.CloudTools.{CloudResource}
use dynamictorque.World.{World, opened_port, log_event}
use dynamictorque.Commands.{Node, post_vm_provision_action, get_wn_in_torque}
use dynamictorque.Cloud.{Cloud}
use dynamictorque.Center.State.{Center, set_provisioning}
use dynamictorque.Center.Cores.{update_available_cores}
use dynamictorque.Center.Launch.{launch_instances}
use dynamictorque.Center.Cleanup.{first_group, dump_if}
use dynamictorque.Center.Provision.{
  Progress, add_failed, fail_if_late, open_port, run_post_provision, by_cloud_state,
  by_torque_state, judge, check_starting, promote, finish_provision, update_provision_status,
}
use dynamictorque.Center.Tracking.{lists}
use dynamictorque.Center.Fixed.{
  IsFixed, bind-IsFixed, then-IsFixed, lift-IsFixed, if-IsFixed, pure-IsFixed, or_raise-IsFixed,
  for_each-IsFixed, fold_each-IsFixed,
}
use dynamictorque.Center.Joining.{
  get_vm-IsFixed, config-IsFixed, change_vm-IsFixed, vm_check-IsFixed, join_cluster-IsFixed,
}
use dynamictorque.Center.Promoted.{
  Same, AllButOne, Same-AllButOne, Same-AllButOne-trans, promote-Same,
}
use dynamictorque.Center.Settled.{tracked-lists}
use dynamictorque.Center.Cleaned.{KeepsAll, Keeps-all, dump_if-Keeps, launch_instances-Keeps}

KeepsAll-trans : (s t u : Center) → KeepsAll s t → KeepsAll t u → KeepsAll s u
KeepsAll-trans s t u h k v = omega (arith, h v, k v)

pub KeepsAll-AllButOne : (s t : Center) → KeepsAll s t → AllButOne s t
KeepsAll-AllButOne s t h = (0, λ v. omega (arith, h v))

module _ (w : World) (cloud : Cloud) where
  fail_if_late-IsFixed :
      (r creation_time : ℕ) (p : Progress) → IsFixed (fail_if_late w cloud r creation_time p)
  fail_if_late-IsFixed r creation_time p = record { keeps = λ l s e. e }

  open_port-IsFixed :
      (ip : Option String) (entry : String × CloudResource) → IsFixed (open_port w cloud ip entry)
  open_port-IsFixed ip (res, resource) =
      if-IsFixed (not (str_eq res "default") && resource.has_volume)
        (bind-IsFixed config-IsFixed (λ c.
          then-IsFixed (or_raise-IsFixed (first_group c.cloud_security_groups) index_error) (
            bind-IsFixed (or_raise-IsFixed ip type_error)
              (λ address. lift-IsFixed (log_event (opened_port res address))))))
        (pure-IsFixed tt)

  run_post_provision-IsFixed : (r : ℕ) → IsFixed (run_post_provision w cloud r)
  unfolding run_post_provision
  run_post_provision-IsFixed r = bind-IsFixed (get_vm-IsFixed r) (λ vm.
      then-IsFixed (lift-IsFixed (post_vm_provision_action w vm)) (
        bind-IsFixed config-IsFixed (λ c.
          then-IsFixed
            (if-IsFixed (str_eq vm.cloud_resource_name "default")
              (for_each-IsFixed c.cloud_resources (open_port-IsFixed vm.ip)) (pure-IsFixed tt))
            (change_vm-IsFixed r (λ v. record v { post_provision_command_executed = true })))))

  by_cloud_state-IsFixed :
      (r state creation_time : ℕ) (p : Progress)
      → IsFixed (by_cloud_state w cloud r state creation_time p)
  by_cloud_state-IsFixed r state creation_time p =
      if-IsFixed (state == 0) (join_cluster-IsFixed w cloud r p) (
        if-IsFixed (state == 1)
          (bind-IsFixed (get_vm-IsFixed r) (λ vm.
            then-IsFixed
              (if-IsFixed vm.post_provision_command_executed (pure-IsFixed tt)
                (run_post_provision-IsFixed r))
              (fail_if_late-IsFixed r creation_time p)))
          (if-IsFixed (state == 2) (fail_if_late-IsFixed r creation_time p) (
            if-IsFixed (state == 3) (pure-IsFixed (add_failed r p))
              (if-IsFixed (state == 4) (pure-IsFixed (add_failed r p)) (pure-IsFixed p)))))

  by_torque_state-IsFixed :
      (r : ℕ) (node : Option Node) (p : Progress) → IsFixed (by_torque_state w cloud r node p)
  by_torque_state-IsFixed r none p = pure-IsFixed p
  by_torque_state-IsFixed r (some []) p = pure-IsFixed p
  by_torque_state-IsFixed r (some (e ∷ es)) p = bind-IsFixed (get_vm-IsFixed r) (λ vm.
      bind-IsFixed config-IsFixed (λ c.
        bind-IsFixed (or_raise-IsFixed (lookup "state" (e ∷ es)) key_error)
          (λ state. pure-IsFixed (judge w cloud r state vm.state_time c.max_inaccessible_time p))))

  check_starting-IsFixed : (p : Progress) (r : ℕ) → IsFixed (check_starting w cloud p r)
  unfolding check_starting
  check_starting-IsFixed p r = bind-IsFixed (get_vm-IsFixed r) (λ vm.
      if-IsFixed vm.cloud_ready
        (bind-IsFixed (lift-IsFixed (get_wn_in_torque w vm))
          (λ node. by_torque_state-IsFixed r node p))
        (bind-IsFixed (vm_check-IsFixed w cloud r) (λ state. bind-IsFixed (get_vm-IsFixed r) (λ vm'.
          bind-IsFixed (or_raise-IsFixed vm'.start_time type_error)
            (λ creation_time. by_cloud_state-IsFixed r state creation_time p)))))

  module _ (s : Center) where
    finish_provision-Keeps :
        (t : Center)
        → KeepsAll s t
        → Post (λ _. KeepsAll s) (AllButOne s) (finish_provision w cloud t)
    finish_provision-Keeps t h =
        if-Post (λ _. KeepsAll s) (AllButOne s)
          (length t.starting_instances == 0 && length t.provision_waiting_list == 0)
          (set_provisioning false) (launch_instances cloud) t (λ _. h)
          (λ _.
            Post-imp (λ _. KeepsAll t) (λ _. KeepsAll s) (KeepsAll t) (AllButOne s) _
              (λ _ u k. KeepsAll-trans s t u h k)
              (λ u k. KeepsAll-AllButOne s u (KeepsAll-trans s t u h k))
              (Keeps-all t _ (λ v. launch_instances-Keeps cloud v t)))

    after_checks-Keeps :
        (p : Progress) (t : Center)
        → lists t ≡ lists s
        → Post
            (λ _. KeepsAll s)
            (AllButOne s)
            ((promote w cloud p
                >> (update_available_cores
                    >> (dump_if w (ltb 0 (length p.ready_to_use)) >> finish_provision w cloud)))
              t)
    unfolding update_available_cores
    after_checks-Keeps p t h =
        let before : Same s t = λ v. tracked-lists v s t h in
        let news = ltb 0 (length p.ready_to_use) in
        and_then-Post (λ _. KeepsAll s) (λ _. KeepsAll s) (AllButOne s) (promote w cloud p t) _
          (Post-imp (λ _. Same t) (λ _. KeepsAll s) (AllButOne t) (AllButOne s) _
            (λ _ u k v. omega (arith, k v, before v)) (λ u k. Same-AllButOne-trans s t u before k)
            (promote-Same w cloud p t))
          (λ _ u k.
            let counted = (update_available_cores u).1 in
            and_then-Post (λ _. KeepsAll s) (λ _. KeepsAll s) (AllButOne s) (dump_if w news counted)
              _
              (Post-imp (λ _. KeepsAll s) (λ _. KeepsAll s) (KeepsAll s) (AllButOne s) _
                (λ _ _ m. m) (λ x m. KeepsAll-AllButOne s x m)
                (Keeps-all s _ (λ v. dump_if-Keeps w v s news counted (k v))))
              (λ _ x m. finish_provision-Keeps x m))

-- Whatever the cloud and TORQUE answer, a whole `update_provision_status` forgets no VM: each is
-- held by the lists at least as often as before. If a step raises, at most one VM is held less
-- often, by one.
pub update_provision_status-Keeps :
    (w : World) (cloud : Cloud) (s : Center)
    → Post (λ _. KeepsAll s) (AllButOne s) (update_provision_status w cloud s)
unfolding update_provision_status
update_provision_status-Keeps w cloud s =
    let start : Progress = record { to_delete = []; ready_to_use = [] } in
    and_then-Post (λ _ t. lists t ≡ lists s) (λ _. KeepsAll s) (AllButOne s)
      (fold_each s.starting_instances start (check_starting w cloud) s) _
      (Post-imp (λ _ t. lists t ≡ lists s) (λ _ t. lists t ≡ lists s) (λ t. lists t ≡ lists s)
        (AllButOne s) _ (λ _ _ h. h) (λ t h. Same-AllButOne s t (λ v. tracked-lists v s t h))
        ((fold_each-IsFixed s.starting_instances start (check_starting-IsFixed w cloud)).keeps
          (lists s) s refl))
      (λ p t h. after_checks-Keeps w cloud s p t h)
