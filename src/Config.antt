-- ===== src/Config.antt =====
-- The module dynamictorque/config.py: its settings as one record, since the program changes some
-- of them while it runs (`cloud_resources`), and its functions on locations. `random.choice`
-- draws an index: `draw n k` is the n-th draw among `k` items.
pub mod File
pub mod Resources
pub mod Setup
pub mod Refused
use dynamictorque.Base.{
  ℕ, zero, suc, ◌+◌, String, Option, none, some, List, [], ◌∷◌, ◌==◌, str_eq, length, to_number,
  split, map, if◌then◌else◌,
}
use dynamictorque.Base.Int.{ℤ}
use dynamictorque.Base.Dict.{Dict, lookup, insert}
use dynamictorque.Base.Action.{Action, ok, err, key_error, index_error, pure, ◌>>=◌}
use dynamictorque.CloudTools.{CloudResource, StaticVms}
use dynamictorque.CloudTools.Static.{add_static_req}

-- Times are in seconds. `max_number_of_jobs` is -1 for no limit.
pub record Config : Type 0 where
  pub max_inaccessible_time : ℕ
  pub max_idle_time : ℕ
  pub max_down_time : ℕ
  pub max_delete_retry_time : ℕ
  pub vm_creation_batch_number : ℕ
  pub job_poller_interval : ℕ
  pub cloud_availability_zone : String
  pub cloud_security_groups : List String
  pub node_property : String
  pub torque_queue_to_monitor : List String
  pub max_number_of_jobs : ℤ
  pub location_properties : Dict String
  pub default_location : ℕ
  pub post_add_node_command : String
  pub post_remove_node_command : String
  pub post_vm_provision_command : String
  pub post_vm_destroy_command : String
  pub cloud_resources : Dict CloudResource
  pub draws : ℕ

abbrev pub keys : {V : Type 0} → Dict V → List String
keys d = map (λ e. e.0) d

abbrev pub get_elem? : List String → ℕ → Option String
get_elem? [] i = none
get_elem? (x ∷ xs) zero = some x
get_elem? (x ∷ xs) (suc i) = get_elem? xs i

-- The first location of the zone, in the dict's order.
abbrev location_of : String → Dict String → Option String
location_of zone [] = none
location_of zone ((loc, z) ∷ ps) = if str_eq z zone then some loc else location_of zone ps

-- The last location of the zone.
abbrev last_location_of : String → Option String → Dict String → Option String
last_location_of zone found [] = found
last_location_of zone found ((loc, z) ∷ ps) =
    last_location_of zone (if str_eq z zone then some loc else found) ps

-- `config.cloud_resources[name]`, where `m` reads and changes the resource.
unfoldable pub with_resource : {A : Type 0} → String → Action CloudResource A → Action Config A
with_resource name m c = elim (lookup name c.cloud_resources) [
  | none ↦ (err key_error, c)
  | some r ↦
      let (x, r') = m r in (x, record c { cloud_resources = insert name r' c.cloud_resources })
]

abbrev known_zone : Option String → Dict String → Option String
known_zone none properties = none
known_zone (some loc) properties = lookup loc properties

module _ (draw : ℕ → ℕ → ℕ) where
  -- `random.choice(items)`
  unfoldable pub choice : List String → Action Config String
  choice items c = elim (get_elem? items (draw c.draws (length items))) [
    | none ↦ (err index_error, c)
    | some x ↦ (ok x, record c { draws = c.draws + 1 })
  ]

  unfoldable pub get_default_node_location : Action Config (Option String)
  unfolding choice
  get_default_node_location c =
      if c.default_location == 1
      then (choice (keys c.location_properties) >>= λ loc. pure (some loc)) c
      else (ok (location_of c.cloud_availability_zone c.location_properties), c)

  -- With `default_location` 1 the fallback draws a location, not a zone.
  unfoldable pub convert_location_property_to_availability_zone :
      Option String → Action Config String
  unfolding choice
  convert_location_property_to_availability_zone location c =
      elim (known_zone location c.location_properties) [
        | some zone ↦ (ok zone, c)
        | none ↦
            if c.default_location == 1
            then choice (keys c.location_properties) c
            else (ok c.cloud_availability_zone, c)
      ]

abbrev add_number : Option ℕ → String → StaticVms → StaticVms
add_number none location reqs = reqs
add_number (some n) location reqs = add_static_req location n reqs

-- One part of `x[:location]+...`; a part that does not begin with a number is skipped.
abbrev add_part : String → List String → StaticVms → StaticVms
add_part default [] reqs = reqs
add_part default (n ∷ []) reqs = add_number (to_number n) default reqs
add_part default (n ∷ location ∷ rest) reqs = add_number (to_number n) location reqs

abbrev add_parts : String → List String → StaticVms → StaticVms
add_parts default [] reqs = reqs
add_parts default (part ∷ parts) reqs =
    add_parts default parts (add_part default (split b':' part) reqs)

abbrev parse_requests : String → String → StaticVms
parse_requests default nodes = elim (to_number nodes) [
  | some n ↦ add_static_req default n []
  | none ↦ add_parts default (split b'+' nodes) []
]

-- `None` if no location belongs to the default zone.
unfoldable pub parse_static_worker_nodes : Dict String → String → String → Option StaticVms
parse_static_worker_nodes properties zone nodes = elim (last_location_of zone none properties) [
  | none ↦ none
  | some default ↦ some (parse_requests default nodes)
]
