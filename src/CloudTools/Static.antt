-- ===== src/CloudTools/Static.antt =====
-- The class `StaticVMs` of dynamictorque/cloud_tools.py: how many static VMs each location still
-- wants. `location_properties` maps a location to its availability zone.
pub mod Count
use dynamictorque.Base.{
  ℕ, ◌+◌, ◌-◌, String, Bool, true, false, ◌||◌, ◌&&◌, Option, none, some, List, [], ◌∷◌, ◌++◌, ltb,
  str_eq, opt_str_eq, replicate, any, if◌then◌else◌,
}
use dynamictorque.CloudTools.{
  StaticReq, StaticVms, ProvisionVm, new_provision, Flavor, VmFlavor, flavor_id,
}
use dynamictorque.Base.Dict.{Dict, lookup}
use dynamictorque.Base.Action.{Result, ok, err, key_error}

-- The first request of the location grows, or a new one goes to the end.
unfoldable pub add_static_req : String → ℕ → StaticVms → StaticVms
add_static_req location n [] = record { location = location; num_of_vm = n } ∷ []
add_static_req location n (req ∷ reqs) =
    if str_eq req.location location
    then record req { num_of_vm = req.num_of_vm + n } ∷ reqs
    else req ∷ add_static_req location n reqs

unfoldable pub need_more : StaticVms → Bool
need_more [] = false
need_more (req ∷ reqs) = ltb 0 req.num_of_vm || need_more reqs

-- `location_properties[location]`, with the mapping's emptiness tested by the callers.
abbrev zone_of : Dict String → String → Result String
zone_of properties location = elim (lookup location properties) [
  | none ↦ err key_error
  | some zone ↦ ok zone
]

-- `not location_properties or location_properties[location] == zone`
abbrev in_zone : Dict String → String → Option String → Result Bool
in_zone [] location az = ok true
in_zone (p ∷ ps) location az = elim (zone_of (p ∷ ps) location) [
  | err e ↦ err e
  | ok z ↦ ok (opt_str_eq (some z) az)
]

abbrev put_back : StaticReq → Result (Bool × StaticVms) → Result (Bool × StaticVms)
put_back req (err e) = err e
put_back req (ok (found, reqs)) = ok (found, req ∷ reqs)

-- The body of the loop, by whether the request's zone is met; `rest` is the loop on the others.
take_from :
    StaticReq → StaticVms → Result Bool → Result (Bool × StaticVms) → Result (Bool × StaticVms)
take_from req reqs (err e) rest = err e
take_from req reqs (ok meets) rest =
    if meets && ltb 0 req.num_of_vm
    then ok (true, record req { num_of_vm = req.num_of_vm - 1 } ∷ reqs)
    else rest

-- Takes one VM from the first request that the VM's zone meets. A raise leaves all as it was.
unfoldable pub need_vm : Option String → Dict String → StaticVms → Result (Bool × StaticVms)
unfolding take_from
need_vm az properties [] = ok (false, [])
need_vm az properties (req ∷ reqs) =
    take_from req reqs (in_zone properties req.location az)
      (put_back req (need_vm az properties reqs))

abbrev requests : Dict String → StaticReq → VmFlavor → String → Result (List ProvisionVm)
requests [] req flavor res =
    ok (replicate req.num_of_vm (new_provision (flavor_id flavor.id) none res true))
requests (p ∷ ps) req flavor res = elim (zone_of (p ∷ ps) req.location) [
  | err e ↦ err e
  | ok z ↦ ok (replicate req.num_of_vm (new_provision (flavor_id flavor.id) (some z) res true))
]

abbrev join : {A : Type 0} → Result (List A) → Result (List A) → Result (List A)
join (err e) rest = err e
join (ok xs) (err e) = err e
join (ok xs) (ok ys) = ok (xs ++ ys)

-- One request for each VM that is still wanted.
unfoldable pub get_provision_list :
    VmFlavor → String → Dict String → StaticVms → Result (List ProvisionVm)
get_provision_list flavor res properties [] = ok []
get_provision_list flavor res properties (req ∷ reqs) =
    join (requests properties req flavor res) (get_provision_list flavor res properties reqs)
