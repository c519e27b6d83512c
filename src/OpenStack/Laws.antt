-- ===== src/OpenStack/Laws.antt =====
-- What the resource center can rely on: the calls of a cloud keep what identifies a VM.
use dynamictorque.Base.{
  ℕ, ◌≤◌, ◌≡◌, refl, ◌∙◌, String, Bool, true, false, not, Option, none, some, ◌==◌, if◌then◌else◌,
}
use dynamictorque.Base.Dict.{lookup}
use dynamictorque.Base.Maintained.{
  Maintains, bind-Maintains, then-Maintains, if-Maintains, or_raise-Maintains, pure-Maintains,
  gets-Maintains,
}
use dynamictorque.Base.Action.{Action, Result, ok, err, key_error}
use dynamictorque.CloudTools.{Vm, flavor_object}
use dynamictorque.World.{Trace}
use dynamictorque.Cloud.{Cloud}
use dynamictorque.OpenStack.{
  OpenStackCloud, Session, Calls, on_calls, set_vm, is_active, is_failed, is_deleted, first_address,
  check_address, by_address, by_server, open_connection, find_server, delete_found, call,
  fill_vcpus, flavor_of, to_vm_flavor, vm_destroy, vm_check,
}
use dynamictorque.OpenStack.Client.{
  Nova, Machine, Server, Answer, found, not_found, failed, reached,
}
use dynamictorque.OpenStack.States.{vm_check_bound}
use dynamictorque.OpenStack.Backend.{open_stack, start_session}

-- What a VM is to the cluster, whatever becomes of it in the cloud.
pub record Identity : Type 0 where
  pub id : String
  pub name : String
  pub hostname : String
  pub cloud_resource_name : String
  pub dynamic : Bool
  pub force_off : Bool
  pub cloud_ready : Bool

abbrev pub identity : Vm → Identity
identity vm = record {
  id = vm.id;
  name = vm.name;
  hostname = vm.hostname;
  cloud_resource_name = vm.cloud_resource_name;
  dynamic = vm.dynamic;
  force_off = vm.force_off;
  cloud_ready = vm.cloud_ready;
}

-- One of the five states, or a raise.
abbrev pub IsState : Result ℕ → Type 0
IsState (ok state) = state ≤ 4
IsState (err e) = Unit

IsState_lem : (x : Result ℕ) → ((n : ℕ) → x ≡ ok n → n ≤ 4) → IsState x
IsState_lem (ok n) h = h n refl
IsState_lem (err e) h = tt

-- The laws of `ICloud`: a look at a VM and its destruction keep what identifies it, and a look
-- answers one of the five states.
pub record IsCloud (cloud : Cloud) : Type 0 where
  pub destroy_same : (t : Trace) (vm : Vm) → identity (cloud.vm_destroy t vm).1 ≡ identity vm
  pub check_same : (t : Trace) (vm : Vm) → identity (cloud.vm_check t vm).1 ≡ identity vm
  pub check_state : (t : Trace) (vm : Vm) → IsState (cloud.vm_check t vm).0

-- The session is still about the VM.
abbrev About : Vm → Session → Type 0
About v s = identity s.vm ≡ identity v

on_calls-Maintains : {A : Type 0} (v : Vm) (m : Action Calls A) → Maintains (About v) (on_calls m)
on_calls-Maintains v m = record { keeps = λ s h. h }

-- A change of other fields.
set_vm-Maintains :
    (v : Vm) (f : Vm → Vm)
    → ((u : Vm) → identity (f u) ≡ identity u)
    → Maintains (About v) (set_vm f)
set_vm-Maintains v f k = record { keeps = λ s h. k s.vm ∙ h }

module _ (v : Vm) (nova : Nova) (self : OpenStackCloud) (host : Machine) where
  connect-Maintains :
      (vm : Vm)
      → Maintains (About v) (on_calls (open_connection nova self (some vm.cloud_resource_name)))
  connect-Maintains vm =
      on_calls-Maintains v (open_connection nova self (some vm.cloud_resource_name))

  find-Maintains : (vm : Vm) → Maintains (About v) (on_calls (find_server nova vm.id))
  find-Maintains vm = on_calls-Maintains v (find_server nova vm.id)

  vm_destroy-Maintains : Maintains (About v) (vm_destroy nova self host)
  unfolding vm_destroy
  vm_destroy-Maintains = bind-Maintains (gets-Maintains (λ s. s.vm)) (λ vm.
      then-Maintains (connect-Maintains vm) (
        bind-Maintains (find-Maintains vm) (λ server.
          bind-Maintains (on_calls-Maintains v (delete_found nova self server)) (λ deleted.
            if-Maintains (not (is_deleted nova self deleted)) (pure-Maintains false) (
              bind-Maintains (gets-Maintains (λ s. host.utcnow s.calls)) (λ now.
                then-Maintains
                  (set_vm-Maintains v (λ u. record u { delete_time = some now }) (λ u. refl))
                  (then-Maintains (find-Maintains vm) (pure-Maintains true))))))))

  flavor_of-Maintains : (server : Server) → Maintains (About v) (on_calls (flavor_of nova server))
  flavor_of-Maintains server = on_calls-Maintains v (flavor_of nova server)

  check_address-Maintains :
      (server : Server) (ip : String) → Maintains (About v) (check_address nova self host server ip)
  check_address-Maintains server ip =
      then-Maintains
        (set_vm-Maintains v
          (λ u. record u { availability_zone = some self.default_availability_zone }) (λ u. refl))
        (bind-Maintains (or_raise-Maintains (lookup "id" server.image) key_error) (λ image.
          then-Maintains
            (set_vm-Maintains v (λ u. record u { image_id = some image; ip = some ip }) (λ u. refl))
            (bind-Maintains (flavor_of-Maintains server) (λ f.
              then-Maintains
                (set_vm-Maintains v
                  (λ u. record u { flavor = some (flavor_object (to_vm_flavor f)) }) (λ u. refl))
                (bind-Maintains
                  (on_calls-Maintains v
                    (call (reached ip 15002) (λ calls. host.reachable calls ip 15002)))
                  (λ ready. pure-Maintains (if ready then 0 else 1)))))))

  by_address-Maintains :
      (server : Server) (ip : Option String)
      → Maintains (About v) (by_address nova self host server ip)
  by_address-Maintains server none = pure-Maintains 2
  by_address-Maintains server (some ip) = check_address-Maintains server ip

  fill_vcpus-Maintains : (server : Server) → Maintains (About v) (fill_vcpus nova self host server)
  fill_vcpus-Maintains server = bind-Maintains (gets-Maintains (λ s. s.vm)) (λ vm.
      if-Maintains (vm.vcpu_number == 0)
        (bind-Maintains (flavor_of-Maintains server)
          (λ f. set_vm-Maintains v (λ u. record u { vcpu_number = f.vcpus }) (λ u. refl)))
        (pure-Maintains tt))

  by_server-Maintains :
      (answer : Answer Server) → Maintains (About v) (by_server nova self host answer)
  by_server-Maintains (found server) =
      then-Maintains
        (set_vm-Maintains v
          (λ u. record u { state = some server.status; start_time = some server.created })
          (λ u. refl))
        (then-Maintains (fill_vcpus-Maintains server) (
          if-Maintains (is_failed server) (pure-Maintains 4) (
            if-Maintains (not (is_active server)) (pure-Maintains 2)
              (by_address-Maintains server (first_address server.addresses)))))
  by_server-Maintains not_found = pure-Maintains 3
  by_server-Maintains failed = pure-Maintains 3

  vm_check-Maintains : Maintains (About v) (vm_check nova self host)
  unfolding vm_check
  vm_check-Maintains = bind-Maintains (gets-Maintains (λ s. s.vm)) (λ vm.
      then-Maintains (connect-Maintains vm)
        (bind-Maintains (find-Maintains vm) (λ server. by_server-Maintains server)))

-- `OpenStackCloud` keeps the laws of `ICloud`: `vm_check` and `vm_destroy` change nothing of a VM
-- that identifies it in the cluster, its name, resource, kind and flags, also when they raise, and
-- `vm_check` answers one of the five states.
pub open_stack-IsCloud :
    (self : OpenStackCloud) (nova : Trace → Nova) (host : Trace → Machine)
    → IsCloud (open_stack self nova host)
open_stack-IsCloud self nova host = record {
  destroy_same =
      λ t vm. (vm_destroy-Maintains vm (nova t) self (host t)).keeps (start_session vm) refl;
  check_same = λ t vm. (vm_check-Maintains vm (nova t) self (host t)).keeps (start_session vm) refl;
  check_state = λ t vm.
      IsState_lem ((open_stack self nova host).vm_check t vm).0
        (vm_check_bound (nova t) self (host t) (start_session vm));
}
