-- ===== src/OpenStack/Backend.antt =====
-- `OpenStackCloud` as the `ICloud` that the resource center uses. `nova` and `host` answer after
-- what the program did before. `vm_list` would raise only on a resource that is not configured, which
-- the center does not ask about; it lists nothing then.
use dynamictorque.Base.{List, []}
use dynamictorque.Base.Action.{Result, ok, err}
use dynamictorque.CloudTools.{Vm}
use dynamictorque.World.{Trace}
use dynamictorque.Cloud.{Cloud}
use dynamictorque.OpenStack.{OpenStackCloud, Session, vm_start, vm_destroy, vm_check, vm_list}
use dynamictorque.OpenStack.Client.{Nova, Machine}

abbrev pub start_session : Vm → Session
start_session vm = record { calls = []; vm = vm }

abbrev listed : Result (List Vm) → List Vm
listed (ok vms) = vms
listed (err e) = []

-- The answer of `vm_destroy` is not read.
abbrev unread : {A : Type 0} → Result A → Result Unit
unread (ok a) = ok tt
unread (err e) = err e

module _ (self : OpenStackCloud) (nova : Trace → Nova) (host : Trace → Machine) where
  abbrev pub open_stack : Cloud
  open_stack = record {
    vm_start = λ t flavor zone res. (vm_start (nova t) self (host t) flavor zone res []).0;
    vm_destroy = λ t vm.
        let (r, s) = vm_destroy (nova t) self (host t) (start_session vm) in (unread r, s.vm);
    vm_check = λ t vm. let (r, s) = vm_check (nova t) self (host t) (start_session vm) in (r, s.vm);
    vm_list = λ t res. listed (vm_list (nova t) self (host t) res []).0;
  }
