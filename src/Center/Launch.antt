-- ===== src/Center/Launch.antt =====
-- `launch_instances`: starts VMs from the waiting list, a batch at a time.
use dynamictorque.Base.{
  ℕ, zero, suc, ◌-◌, Bool, true, false, not, ◌&&◌, Option, none, some, List, [], ◌∷◌, ◌++◌, ltb,
  ◌==◌, str_eq, opt_str_eq, length, if◌then◌else◌,
}
use dynamictorque.Base.Action.{Action, ok, err, value_error, pure, gets, for_each, ◌>>=◌, ◌>>◌}
use dynamictorque.CloudTools.{Flavor, flavor_id, flavor_object, ProvisionVm}
use dynamictorque.Cloud.{Cloud}
use dynamictorque.Center.State.{Center, config, vm_start, append_starting, set_provisioning}

unfoldable pub flavor_eq : Flavor → Flavor → Bool
flavor_eq (flavor_id a) (flavor_id b) = str_eq a b
flavor_eq (flavor_object a) (flavor_object b) =
    str_eq a.id b.id && (str_eq a.name b.name && (a.vcpus == b.vcpus && a.ram == b.ram))
flavor_eq _ _ = false

abbrev pub bool_eq : Bool → Bool → Bool
bool_eq true b = b
bool_eq false b = not b

-- Two requests that say the same. `remove` of the source looks for the object itself; the objects
-- never change, so that the list holds the same values after either removal of those that
-- `launch_instances` takes out.
unfoldable pub same_request : ProvisionVm → ProvisionVm → Bool
same_request a b =
    bool_eq a.static b.static
    && (flavor_eq a.flavor b.flavor
        && (opt_str_eq a.zone b.zone && str_eq a.resource_name b.resource_name))

abbrev push_request : ProvisionVm → Option (List ProvisionVm) → Option (List ProvisionVm)
push_request p none = none
push_request p (some l) = some (p ∷ l)

unfoldable pub remove_request : ProvisionVm → List ProvisionVm → Option (List ProvisionVm)
remove_request p [] = none
remove_request p (q ∷ qs) =
    if same_request p q then some qs else push_request q (remove_request p qs)

unfoldable pub remove_waiting : ProvisionVm → Action Center Unit
remove_waiting p s = elim (remove_request p s.provision_waiting_list) [
  | none ↦ (err value_error, s)
  | some l ↦ (ok tt, record s { provision_waiting_list = l })
]

-- The requests that are dropped for this time once the batch is full: the dynamic ones.
abbrev pub dynamic_of : List ProvisionVm → List ProvisionVm
dynamic_of [] = []
dynamic_of (p ∷ ps) = let rest = dynamic_of ps in if p.static then rest else p ∷ rest

module _ (cloud : Cloud) where
  -- The loop, with `vm_number` VMs left to start. It answers `to_remove_from_list`, and ends early
  -- at the first VM that cannot be created.
  unfoldable pub launch_loop :
      List ProvisionVm → ℕ → List ProvisionVm → Action Center (List ProvisionVm)
  launch_loop [] vm_number to_remove = pure to_remove
  launch_loop (p ∷ ps) zero to_remove =
      launch_loop ps zero (if p.static then to_remove else to_remove ++ (p ∷ []))
  launch_loop (p ∷ ps) (suc vm_number) to_remove = do
    new_vm ← vm_start cloud p.flavor p.zone p.resource_name
    elim new_vm [
      | none ↦ pure to_remove
      | some r ↦ do append_starting r; launch_loop ps vm_number (to_remove ++ (p ∷ []))
    ]

  abbrev pub launch_batch : ℕ → Action Center Unit
  launch_batch batch = do
    set_provisioning true
    starting ← gets (λ s. s.starting_instances)
    waiting ← gets (λ s. s.provision_waiting_list)
    to_remove ← launch_loop waiting (batch - length starting) []
    for_each to_remove remove_waiting

  unfoldable pub launch_instances : Action Center Unit
  unfolding launch_loop remove_waiting
  launch_instances = do
    c ← config
    starting ← gets (λ s. s.starting_instances)
    waiting ← gets (λ s. s.provision_waiting_list)
    if ltb 0 (length waiting) && ltb (length starting) c.vm_creation_batch_number
        then launch_batch c.vm_creation_batch_number
        else pure tt
