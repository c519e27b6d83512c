-- ===== src/Center/Cores.antt =====
-- How many nodes each resource has left.
use dynamictorque.Base.{ℕ, ◌+◌, String, Bool, ◌&&◌, map, str_eq, sum_of, any, if◌then◌else◌}
use dynamictorque.Base.Int.{pos, sub_ℕ, ltb_ℤ}
use dynamictorque.Base.Dict.{Dict}
use dynamictorque.Base.Action.{Action, ok}
use dynamictorque.CloudTools.{Vm, CloudResource}
use dynamictorque.Config.{Config}
use dynamictorque.Center.State.{Center}

-- 1 for a dynamic VM of the resource, and 0 for any other.
abbrev pub counts : String → Vm → ℕ
counts res vm = if vm.dynamic && str_eq vm.cloud_resource_name res then 1 else 0

-- `num_used`: the dynamic VMs of the resource that exist or are being deleted.
abbrev pub num_used : String → Center → ℕ
num_used res s =
    sum_of (λ r. counts res (s.heap r)) s.existing_instances
    + sum_of (λ r. counts res (s.heap r)) s.deleting_instances

abbrev pub set_available : (String → ℕ) → Dict CloudResource → Dict CloudResource
set_available used = map (λ entry. (
  entry.0,
  record (entry.1) {
    available_number_of_nodes = sub_ℕ (entry.1).number_of_dynamic_worker_nodes (used entry.0);
  },
))

unfoldable pub update_available_cores : Action Center Unit
update_available_cores s =
    let c = s.shell.config in
    let c' = record c {
      cloud_resources = set_available (λ res. num_used res s) c.cloud_resources;
    } in
    (ok tt, record s { shell = record (s.shell) { config = c' } })

unfoldable pub has_available_cores : Config → Bool
has_available_cores c =
    any (λ entry. ltb_ℤ (pos 0) (entry.1).available_number_of_nodes) c.cloud_resources
