-- ===== src/Center/State.antt =====
-- The state of a `ResourceCenter`, and the actions on it that its methods are made of. A VM is an
-- object that several lists may hold: the lists hold references, and `heap` says what each is.
use dynamictorque.Base.{
  ℕ, zero, suc, ◌+◌, length, String, Bool, Option, none, some, List, [], ◌∷◌, ◌++◌, ◌==◌, str_eq,
  find, remove, if◌then◌else◌,
}
use dynamictorque.Base.Dict.{lookup}
use dynamictorque.Base.Action.{Action, Result, ok, err, key_error, value_error}
use dynamictorque.CloudTools.{Vm, Flavor, ProvisionVm}
use dynamictorque.Config.{Config}
use dynamictorque.JobScheduler.{Job}
use dynamictorque.World.{Shell, checked, destroyed, started, start_failed, listed}
use dynamictorque.Commands.{Node, node_named}
use dynamictorque.Cloud.{Cloud}

-- `config` and `trace` are those of the shell. `next` is the reference of the next new VM.
pub record Center : Type 0 where
  pub shell : Shell
  pub open shell use *
  pub heap : ℕ → Vm
  pub next : ℕ
  pub sleep_mode : Bool
  pub idle_jobs : List Job
  pub total_number_of_idle_jobs : ℕ
  pub running_jobs : List Job
  pub number_of_wn : ℕ
  pub worker_nodes : List Node
  pub provisioning : Bool
  pub pbs_server_up : Bool
  pub maui_server_up : Bool
  pub existing_instances : List ℕ
  pub starting_instances : List ℕ
  pub deleting_instances : List ℕ
  pub provision_waiting_list : List ProvisionVm

-- A function of local_commands.py, called from a method.
abbrev pub lift : {A : Type 0} → Action Shell A → Action Center A
lift m s = let (r, shell) = m s.shell in (r, record s { shell = shell })

-- A function that only reads and changes the configuration.
abbrev pub on_config : {A : Type 0} → Action Config A → Action Shell A
on_config m s = let (r, c) = m s.config in (r, record s { config = c })

abbrev pub update : (ℕ → Vm) → ℕ → Vm → ℕ → Vm
update heap r v r' = if r' == r then v else heap r'

abbrev pub get_vm : ℕ → Action Center Vm
get_vm r s = (ok (s.heap r), s)

abbrev pub change_vm : ℕ → (Vm → Vm) → Action Center Unit
change_vm r f s = (ok tt, record s { heap = update s.heap r (f (s.heap r)) })

abbrev pub config : Action Center Config
config s = (ok s.shell.config, s)

-- `self.existing_instances.remove(vm)`, and so for the other lists
unfoldable pub remove_existing : ℕ → Action Center Unit
remove_existing r s = elim (remove r s.existing_instances) [
  | none ↦ (err value_error, s)
  | some l ↦ (ok tt, record s { existing_instances = l })
]

unfoldable pub remove_starting : ℕ → Action Center Unit
remove_starting r s = elim (remove r s.starting_instances) [
  | none ↦ (err value_error, s)
  | some l ↦ (ok tt, record s { starting_instances = l })
]

unfoldable pub remove_deleting : ℕ → Action Center Unit
remove_deleting r s = elim (remove r s.deleting_instances) [
  | none ↦ (err value_error, s)
  | some l ↦ (ok tt, record s { deleting_instances = l })
]

abbrev pub append_existing : ℕ → Action Center Unit
append_existing r s = (ok tt, record s { existing_instances = s.existing_instances ++ (r ∷ []) })

abbrev pub append_starting : ℕ → Action Center Unit
append_starting r s = (ok tt, record s { starting_instances = s.starting_instances ++ (r ∷ []) })

abbrev pub append_deleting : ℕ → Action Center Unit
append_deleting r s = (ok tt, record s { deleting_instances = s.deleting_instances ++ (r ∷ []) })

abbrev pub set_provisioning : Bool → Action Center Unit
set_provisioning b s = (ok tt, record s { provisioning = b })

-- The references of `n` new objects.
abbrev pub fresh : ℕ → ℕ → List ℕ
fresh from zero = []
fresh from (suc n) = from ∷ fresh (suc from) n

-- The objects of `vms` stand at the references from `n` on.
abbrev pub allocate : (ℕ → Vm) → ℕ → List Vm → ℕ → Vm
allocate heap n [] = heap
allocate heap n (vm ∷ vms) = allocate (update heap n vm) (suc n) vms

module _ (cloud : Cloud) where
  abbrev pub vm_check : ℕ → Action Center ℕ
  vm_check r s =
      let (answer, vm) = cloud.vm_check s.shell.trace (s.heap r) in
      (
        answer,
        record s {
          heap = update s.heap r vm;
          shell = record (s.shell) { trace = checked r answer ∷ s.shell.trace };
        },
      )

  abbrev pub vm_destroy : ℕ → Action Center Unit
  vm_destroy r s =
      let (answer, vm) = cloud.vm_destroy s.shell.trace (s.heap r) in
      (
        answer,
        record s {
          heap = update s.heap r vm;
          shell = record (s.shell) { trace = destroyed r ∷ s.shell.trace };
        },
      )

  abbrev start_fails : Center → Center
  start_fails s = record s { shell = record (s.shell) { trace = start_failed ∷ s.shell.trace } }

  -- A VM that was created becomes a new object.
  abbrev created : Center → Result (Option Vm) → Result (Option ℕ) × Center
  created s (err e) = (err e, start_fails s)
  created s (ok none) = (ok none, start_fails s)
  created s (ok (some vm)) = (
    ok (some s.next),
    record s {
      heap = update s.heap s.next vm;
      next = suc s.next;
      shell = record (s.shell) { trace = started s.next ∷ s.shell.trace };
    },
  )

  abbrev pub vm_start : Flavor → Option String → String → Action Center (Option ℕ)
  vm_start flavor zone res s = created s (cloud.vm_start s.shell.trace flavor zone res)

  -- The VMs of a resource, as new objects.
  abbrev pub vm_list : String → Action Center (List ℕ)
  vm_list res s =
      let vms = cloud.vm_list s.shell.trace res in
      (
        ok (fresh s.next (length vms)),
        record s {
          heap = allocate s.heap s.next vms;
          next = s.next + length vms;
          shell = record (s.shell) { trace = listed res ∷ s.shell.trace };
        },
      )

abbrev pub find_wn_from_vm : Vm → Action Center (Option Node)
find_wn_from_vm vm s = (node_named vm.hostname s.worker_nodes, s)

-- The node's name is read only if there is a VM to compare it with.
abbrev pub vm_named : Option String → List ℕ → (ℕ → Vm) → Result (Option ℕ)
vm_named name [] heap = ok none
vm_named name (r ∷ rs) heap = elim name [
  | none ↦ err key_error
  | some n ↦ ok (find (λ r. str_eq (heap r).hostname n) (r ∷ rs))
]

abbrev pub find_vm_from_wn : Node → Action Center (Option ℕ)
find_vm_from_wn wn s = (vm_named (lookup "name" wn) s.existing_instances s.heap, s)
