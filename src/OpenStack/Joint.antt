-- ===== src/OpenStack/Joint.antt =====
-- The resource center on OpenStack.
use dynamictorque.Base.{ℕ, ◌≡◌, ap, String}
use dynamictorque.Base.Action.{Post}
use dynamictorque.World.{World, Trace}
use dynamictorque.Center.State.{Center}
use dynamictorque.Center.Cleanup.{check_cleanup}
use dynamictorque.Center.Cleaned.{Keeps, check_cleanup-Keeps}
use dynamictorque.Center.Trimmed.{KeepsKind}
use dynamictorque.OpenStack.{OpenStackCloud, Calls}
use dynamictorque.OpenStack.Client.{Nova, Machine, Server, found}
use dynamictorque.OpenStack.Backend.{open_stack, start_session}
use dynamictorque.OpenStack.Laws.{open_stack-IsCloud}
use dynamictorque.OpenStack.States.{vm_check_found}

module _ (self : OpenStackCloud) (nova : Trace → Nova) (host : Trace → Machine) where
  pub open_stack-KeepsKind : KeepsKind (open_stack self nova host)
  open_stack-KeepsKind t vm =
      let same = (open_stack-IsCloud self nova host).destroy_same t vm in
      (ap (λ i. i.dynamic) same, ap (λ i. i.hostname) same, ap (λ i. i.cloud_resource_name) same)

  -- As long as OpenStack finds a server for every VM it is asked about, a whole `check_cleanup` on
  -- OpenStack forgets no VM, also if a step raises.
  pub check_cleanup_found :
      ((t : Trace) (c : Calls) (id : String)
        → (server : Server) × ((nova t).get_server c id ≡ found server))
      → (w : World) (v : ℕ) (s : Center)
      → Post (λ _. Keeps v s) (Keeps v s) (check_cleanup w (open_stack self nova host) s)
  check_cleanup_found there w v s =
      check_cleanup-Keeps w (open_stack self nova host) v s
        (λ t vm. vm_check_found (nova t) self (host t) (start_session vm) (λ c. there t c vm.id))
