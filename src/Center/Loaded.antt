-- ===== src/Center/Loaded.antt =====
-- The start of the center takes VMs from list to list and forgets none.
use dynamictorque.Base.{
  ℕ, ◌-◌, ◌≡◌, refl, arith, String, true, not, ◌||◌, Option, none, some, List, [], ◌∷◌, inl, inr,
  Option-cases, remove, count-append, count-remove, length, ltb,
}
use dynamictorque.Base.Dict.{lookup, has_key}
use dynamictorque.Base.Maintained.{
  Maintains, bind-Maintains, then-Maintains, if-Maintains, for_each-Maintains,
}
use dynamictorque.Base.Action.{Action, ok, err, key_error, attribute_error, index_error, ◌>>◌}
use dynamictorque.CloudTools.{Vm, CloudResource, StaticVms}
use dynamictorque.CloudTools.Static.{need_more, get_provision_list}
use dynamictorque.Config.{keys, with_resource}
use dynamictorque.World.{World}
use dynamictorque.Commands.{
  Node, node_named, wn_query, read_nodes_from_persistent_file, remove_node_from_torque,
}
use dynamictorque.Cloud.{Cloud}
use dynamictorque.Center.State.{
  Center, remove_existing, append_deleting, vm_destroy, on_config, vm_named,
}
use dynamictorque.Center.Tracking.{lists, answer-Post}
use dynamictorque.Center.Load.{
  Fates, classify, judge_node, is_outdated, is_out, remove_worker_node, remove_orphan,
  take_as_starting, destroy, mark_static, has_jobs, by_wn, by_ip, by_vm, remove_node, set_nodes,
  add_requests, no_fates, of_resource, num_dynamic, reverse_onto, trim, set_left, request_static,
  balance, sort_out, after_load,
}
use dynamictorque.Center.Fixed.{
  IsFixed, bind-IsFixed, then-IsFixed, lift-IsFixed, if-IsFixed, pure-IsFixed, or_raise-IsFixed,
  modify-IsFixed, for_each-IsFixed, fold_each-IsFixed,
}
use dynamictorque.Center.Joining.{get_vm-IsFixed, config-IsFixed, gets-IsFixed}
use dynamictorque.Center.Holding.{
  Held, IsFixed-Maintains, answer-IsFixed, launch_instances-Maintains,
}

is_outdated-IsFixed : (vm : Vm) → IsFixed (is_outdated vm)
is_outdated-IsFixed vm = bind-IsFixed config-IsFixed (λ c.
    bind-IsFixed (or_raise-IsFixed (lookup vm.cloud_resource_name c.cloud_resources) key_error)
      (λ res. pure-IsFixed _))

judge_node-IsFixed : (r : ℕ) (vm : Vm) (wn : Node) (o : Fates) → IsFixed (judge_node r vm wn o)
judge_node-IsFixed r vm wn o =
    bind-IsFixed (if-IsFixed (has_key "jobs" wn) (pure-IsFixed _) (is_outdated-IsFixed vm))
      (λ outdated.
        if-IsFixed outdated (pure-IsFixed _)
          (bind-IsFixed (or_raise-IsFixed (lookup "state" wn) key_error) (λ state. pure-IsFixed _)))

by_wn-IsFixed :
    (persistent_nodes : List String) (r : ℕ) (vm : Vm) (o : Fates) (the_wn : Option Node)
    → IsFixed (by_wn persistent_nodes r vm o the_wn)
by_wn-IsFixed persistent_nodes r vm o none = pure-IsFixed _
by_wn-IsFixed persistent_nodes r vm o (some wn) = judge_node-IsFixed r vm wn o

by_ip-IsFixed :
    (ip : Option String) (r : ℕ) (o : Fates) {m : Action Center Fates}
    → IsFixed m
    → IsFixed (by_ip ip r o m)
by_ip-IsFixed none r o h = pure-IsFixed _
by_ip-IsFixed (some ip) r o h = h

classify-IsFixed :
    (persistent_nodes : List String) (o : Fates) (r : ℕ) → IsFixed (classify persistent_nodes o r)
unfolding classify
classify-IsFixed persistent_nodes o r = bind-IsFixed (get_vm-IsFixed r) (λ vm.
    by_ip-IsFixed vm.ip r o (
      bind-IsFixed (answer-IsFixed (λ t. node_named vm.hostname t.worker_nodes))
        (λ the_wn. by_wn-IsFixed persistent_nodes r vm o the_wn)))

remove_worker_node-IsFixed : (wn : Node) → IsFixed (remove_worker_node wn)
unfolding remove_worker_node
remove_worker_node-IsFixed wn = record {
  keeps = λ l s e. elim (Option-cases (remove_node wn s.worker_nodes)) [
    | inl f ↦ rw (f, remove_worker_node) e
    | inr (k, f) ↦ rw (f, remove_worker_node) e
  ];
}

module _ (w : World) (cloud : Cloud) where
  by_vm-IsFixed :
      (vm : Option ℕ) (wn_to_delete : List Node) (wn : Node)
      → IsFixed (by_vm w cloud vm wn_to_delete wn)
  by_vm-IsFixed none wn_to_delete wn =
      bind-IsFixed (or_raise-IsFixed (lookup "state" wn) key_error) (λ state.
        if-IsFixed (is_out state)
          (bind-IsFixed (or_raise-IsFixed (lookup "name" wn) key_error)
            (λ name. then-IsFixed (lift-IsFixed (remove_node_from_torque w _)) (pure-IsFixed _)))
          (pure-IsFixed _))
  by_vm-IsFixed (some r) wn_to_delete wn = pure-IsFixed _

  remove_orphan-IsFixed :
      (wn_to_delete : List Node) (wn : Node) → IsFixed (remove_orphan w cloud wn_to_delete wn)
  unfolding remove_orphan
  remove_orphan-IsFixed wn_to_delete wn =
      bind-IsFixed (answer-IsFixed (λ t. vm_named (lookup "name" wn) t.existing_instances t.heap))
        (λ vm. by_vm-IsFixed vm wn_to_delete wn)

  sort_out-IsFixed : IsFixed (sort_out w cloud)
  unfolding sort_out
  sort_out-IsFixed = bind-IsFixed (lift-IsFixed (read_nodes_from_persistent_file w)) (λ persistent.
      bind-IsFixed (lift-IsFixed (wn_query w)) (λ nodes.
        then-IsFixed (modify-IsFixed (set_nodes nodes) (λ s. refl)) (
          bind-IsFixed (gets-IsFixed (λ s. s.existing_instances)) (λ existing.
            bind-IsFixed (fold_each-IsFixed existing no_fates (classify-IsFixed persistent))
              (λ fates.
                bind-IsFixed (fold_each-IsFixed (nodes.1) [] remove_orphan-IsFixed) (λ wn_to_delete.
                  then-IsFixed (for_each-IsFixed wn_to_delete remove_worker_node-IsFixed)
                    (pure-IsFixed fates)))))))

  -- The steps that take a VM from one list to another.
  move_to_deleting-Maintains :
      (v r : ℕ) → Maintains (Held v) (remove_existing r >> append_deleting r)
  unfolding remove_existing
  move_to_deleting-Maintains v r = record {
    keeps = λ s h. elim (Option-cases (remove r s.existing_instances)) [
      | inl gone ↦ rw (gone, remove_existing) h
      | inr (l, e) ↦
          rw (e, remove_existing)
            (omega (
              arith,
              h,
              count-remove r s.existing_instances l e v,
              count-append v s.deleting_instances (r ∷ []),
            ))
    ];
  }

  vm_destroy-IsFixed : (r : ℕ) → IsFixed (vm_destroy cloud r)
  vm_destroy-IsFixed r = record {
    keeps =
        λ l s e. answer-Post (λ t. lists t ≡ l) (cloud.vm_destroy s.shell.trace (s.heap r)).0 _ e;
  }

  destroy-Maintains : (v r : ℕ) → Maintains (Held v) (destroy w cloud r)
  destroy-Maintains v r =
      then-Maintains (IsFixed-Maintains v (vm_destroy-IsFixed r)) (move_to_deleting-Maintains v r)

  take_as_starting-Maintains : (v r : ℕ) → Maintains (Held v) (take_as_starting r)
  unfolding remove_existing
  take_as_starting-Maintains v r = record {
    keeps = λ s h. elim (Option-cases (remove r s.existing_instances)) [
      | inl gone ↦ rw (gone, remove_existing) h
      | inr (l, e) ↦
          rw (e, remove_existing)
            (omega (
              arith,
              h,
              count-remove r s.existing_instances l e v,
              count-append v s.starting_instances (r ∷ []),
            ))
    ];
  }

  trim-Maintains : (v limit n : ℕ) (vms : List ℕ) → Maintains (Held v) (trim w cloud limit n vms)
  unfolding trim
  trim-Maintains v limit n [] =
      IsFixed-Maintains v
        (if-IsFixed (ltb limit n) (answer-IsFixed (λ _. err index_error)) (pure-IsFixed n))
  trim-Maintains v limit n (r ∷ vms) =
      if-Maintains (ltb limit n)
        (bind-Maintains (IsFixed-Maintains v (get_vm-IsFixed r)) (λ vm.
          bind-Maintains
            (IsFixed-Maintains v (answer-IsFixed (λ t. node_named vm.hostname t.worker_nodes)))
            (λ wn.
              if-Maintains (not vm.dynamic || has_jobs wn) (trim-Maintains v limit n vms)
                (then-Maintains (destroy-Maintains v r) (trim-Maintains v limit (n - 1) vms)))))
        (IsFixed-Maintains v (pure-IsFixed n))

  mark_static-IsFixed : (vms : List ℕ) → IsFixed (mark_static vms)
  mark_static-IsFixed [] = pure-IsFixed tt
  mark_static-IsFixed (r ∷ vms) = record { keeps = λ l s e. e }

  request_static-IsFixed :
      (name : String) (res : CloudResource) (statics : StaticVms)
      → IsFixed (request_static name res statics)
  request_static-IsFixed name res statics = bind-IsFixed (or_raise-IsFixed _ index_error) (λ flavor.
      bind-IsFixed config-IsFixed (λ c.
        bind-IsFixed
          (answer-IsFixed (λ _. get_provision_list flavor name c.location_properties statics))
          (λ ps. modify-IsFixed (add_requests ps) (λ s. refl))))

  balance-Maintains : (v : ℕ) (name : String) → Maintains (Held v) (balance w cloud name)
  unfolding balance
  balance-Maintains v name =
      bind-Maintains (IsFixed-Maintains v (gets-IsFixed (of_resource name))) (λ vms.
        bind-Maintains (IsFixed-Maintains v config-IsFixed) (λ c.
          bind-Maintains
            (IsFixed-Maintains v (or_raise-IsFixed (lookup name c.cloud_resources) key_error))
            (λ res.
              bind-Maintains
                (IsFixed-Maintains v (or_raise-IsFixed res.static_vms_to_start attribute_error))
                (λ statics.
                  then-Maintains
                    (IsFixed-Maintains v
                      (if-IsFixed (need_more statics) (mark_static-IsFixed vms) (pure-IsFixed tt)))
                    (bind-Maintains (IsFixed-Maintains v (gets-IsFixed (num_dynamic vms))) (λ n.
                      bind-Maintains
                        (trim-Maintains v res.number_of_dynamic_worker_nodes n
                          (reverse_onto [] vms))
                        (λ left.
                          then-Maintains
                            (IsFixed-Maintains v (
                              lift-IsFixed
                                (on_config (with_resource name (λ r. (ok tt, set_left left r))))))
                            (IsFixed-Maintains v (
                              if-IsFixed (need_more statics)
                                (request_static-IsFixed name res statics) (pure-IsFixed tt))))))))))

  -- What comes after the VMs are listed.
  pub after_load-Maintains : (v : ℕ) → Maintains (Held v) (after_load w cloud)
  unfolding after_load
  after_load-Maintains v = bind-Maintains (IsFixed-Maintains v sort_out-IsFixed) (λ fates.
      then-Maintains (for_each-Maintains fates.to_starting (take_as_starting-Maintains v)) (
        then-Maintains (for_each-Maintains fates.to_delete (destroy-Maintains v)) (
          bind-Maintains (IsFixed-Maintains v config-IsFixed) (λ c.
            then-Maintains (for_each-Maintains (keys c.cloud_resources) (balance-Maintains v)) (
              bind-Maintains (IsFixed-Maintains v (gets-IsFixed (λ s. s.starting_instances)))
                (λ starting.
                  then-Maintains
                    (IsFixed-Maintains v (
                      if-IsFixed (ltb 0 (length starting))
                        (modify-IsFixed (λ s. record s { provisioning = true }) (λ s. refl))
                        (pure-IsFixed tt)))
                    (bind-Maintains
                      (IsFixed-Maintains v (gets-IsFixed (λ s. s.provision_waiting_list)))
                      (λ waiting.
                        if-Maintains (ltb 0 (length waiting)) (launch_instances-Maintains cloud v)
                          (IsFixed-Maintains v (pure-IsFixed tt))))))))))
