-- ===== src/Center/Joining.antt =====
-- The steps that take a VM into the cluster move no VM from list to list.
use dynamictorque.Base.{
  ℕ, zero, suc, ◌≡◌, refl, String, true, false, ◌&&◌, some, inl, inr, Bool-cases, Option-cases,
  str_eq, opt_str_eq,
}
use dynamictorque.Base.Dict.{lookup}
use dynamictorque.Base.Action.{gets, key_error}
use dynamictorque.CloudTools.{Vm, CloudResource}
use dynamictorque.World.{World}
use dynamictorque.Commands.{
  add_node_to_torque, check_node, wn_query, set_res_for_node, post_add_node_action,
  set_node_property, add_node_property, set_np, set_node_online, remove_node_from_torque,
}
use dynamictorque.Cloud.{Cloud}
use dynamictorque.Center.State.{Center, config, get_vm, change_vm, vm_check}
use dynamictorque.Center.Provision.{
  Progress, add_failed, retry_add, retry_check, reserve, add_account, add_location, configure_node,
  show_in_maui, join_cluster, given,
}
use dynamictorque.Center.Tracking.{lists, lift_then-Post, answer-Post}
use dynamictorque.Center.Fixed.{
  IsFixed, bind-IsFixed, then-IsFixed, lift-IsFixed, if-IsFixed, pure-IsFixed, or_raise-IsFixed,
  when_some-IsFixed, modify-IsFixed, for_each-IsFixed,
}

-- The actions that only read, or change what is not a list of VMs.
pub get_vm-IsFixed : (r : ℕ) → IsFixed (get_vm r)
get_vm-IsFixed r = record { keeps = λ l s e. e }

pub config-IsFixed : IsFixed config
config-IsFixed = record { keeps = λ l s e. e }

pub gets-IsFixed : {A : Type 0} (f : Center → A) → IsFixed (gets f)
gets-IsFixed f = record { keeps = λ l s e. e }

pub change_vm-IsFixed : (r : ℕ) (f : Vm → Vm) → IsFixed (change_vm r f)
change_vm-IsFixed r f = record { keeps = λ l s e. e }

module _ (w : World) (cloud : Cloud) where
  pub vm_check-IsFixed : (r : ℕ) → IsFixed (vm_check cloud r)
  vm_check-IsFixed r = record {
    keeps = λ l s e. answer-Post (λ t. lists t ≡ l) (cloud.vm_check s.shell.trace (s.heap r)).0 _ e;
  }

  retry_add-IsFixed : (n : ℕ) (vm : Vm) → IsFixed (retry_add w cloud n vm)
  unfolding retry_add
  retry_add-IsFixed zero vm = pure-IsFixed false
  retry_add-IsFixed (suc n) vm = record {
    keeps = λ l s e.
        lift_then-Post (λ _ t. lists t ≡ l) (λ t. lists t ≡ l) (add_node_to_torque w vm) _ s
          (λ ret sh. elim (Bool-cases ret) [
            | inl f ↦ rw f e
            | inr f ↦ rw f ((retry_add-IsFixed n vm).keeps l (record s { shell = sh }) e)
          ])
          (λ _. e);
  }

  retry_check-IsFixed : (n : ℕ) (vm : Vm) → IsFixed (retry_check w cloud n vm)
  unfolding retry_check
  retry_check-IsFixed zero vm = pure-IsFixed false
  retry_check-IsFixed (suc n) vm = record {
    keeps = λ l s e.
        lift_then-Post (λ _ t. lists t ≡ l) (λ t. lists t ≡ l) (check_node w vm.hostname) _ s
          (λ state sh. elim (Option-cases state) [
            | inl f ↦ rw f ((retry_check-IsFixed n vm).keeps l (record s { shell = sh }) e)
            | inr (x, f) ↦ rw f e
          ])
          (λ _. e);
  }

  reserve-IsFixed : (vm : Vm) (res : CloudResource) → IsFixed (reserve w cloud vm res)
  reserve-IsFixed vm res = when_some-IsFixed res.account_string (λ account.
      if-IsFixed (given (some account) && given (some res.reservation_type))
        (lift-IsFixed (set_res_for_node w vm res.reservation_type account)) (pure-IsFixed tt))

  add_account-IsFixed : (vm : Vm) (res : CloudResource) → IsFixed (add_account w cloud vm res)
  add_account-IsFixed vm res = when_some-IsFixed res.account_string (λ account.
      if-IsFixed (given (some account)) (lift-IsFixed (add_node_property w vm account))
        (pure-IsFixed tt))

  add_location-IsFixed :
      (vm : Vm) (entry : String × String) → IsFixed (add_location w cloud vm entry)
  add_location-IsFixed vm (loc, zone) =
      if-IsFixed (opt_str_eq (some zone) vm.availability_zone)
        (lift-IsFixed (add_node_property w vm loc)) (pure-IsFixed tt)

  configure_node-IsFixed : (r : ℕ) → IsFixed (configure_node w cloud r)
  unfolding configure_node
  configure_node-IsFixed r = bind-IsFixed (get_vm-IsFixed r) (λ vm.
      bind-IsFixed (lift-IsFixed (wn_query w)) (λ nodes.
        then-IsFixed
          (modify-IsFixed (λ s. record s { pbs_server_up = nodes.0; worker_nodes = nodes.1 })
            (λ s. refl))
          (bind-IsFixed config-IsFixed (λ c.
            bind-IsFixed
              (or_raise-IsFixed (lookup vm.cloud_resource_name c.cloud_resources) key_error)
              (λ res. then-IsFixed (reserve-IsFixed vm res) (
                then-IsFixed (lift-IsFixed (post_add_node_action w vm)) (
                  then-IsFixed
                    (if-IsFixed (str_eq c.node_property "") (pure-IsFixed tt)
                      (lift-IsFixed (set_node_property w vm c.node_property)))
                    (then-IsFixed (add_account-IsFixed vm res) (
                      then-IsFixed
                        (for_each-IsFixed c.location_properties (add_location-IsFixed vm))
                        (then-IsFixed (lift-IsFixed (set_np w vm vm.vcpu_number))
                          (lift-IsFixed (set_node_online w vm))))))))))))

  show_in_maui-IsFixed : (r : ℕ) (vm : Vm) (p : Progress) → IsFixed (show_in_maui w cloud r vm p)
  show_in_maui-IsFixed r vm p = bind-IsFixed (retry_check-IsFixed 60 vm) (λ seen.
      if-IsFixed seen (then-IsFixed (configure_node-IsFixed r) (pure-IsFixed p)) (
        then-IsFixed (lift-IsFixed (remove_node_from_torque w vm)) (pure-IsFixed (add_failed r p))))

  pub join_cluster-IsFixed : (r : ℕ) (p : Progress) → IsFixed (join_cluster w cloud r p)
  unfolding join_cluster
  join_cluster-IsFixed r p =
      then-IsFixed (change_vm-IsFixed r (λ vm. record vm { cloud_ready = true })) (
        bind-IsFixed (get_vm-IsFixed r) (λ vm. bind-IsFixed (retry_add-IsFixed 5 vm) (λ added.
          if-IsFixed added (show_in_maui-IsFixed r vm p) (pure-IsFixed (add_failed r p)))))
