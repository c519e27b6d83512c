-- ===== src/CloudTools.antt =====
-- The model classes of dynamictorque/cloud_tools.py: VMs, flavors, cloud resources, allocations
-- of cores to a planned node, and requests for a VM.
pub mod Static
pub mod Capacity
use dynamictorque.Base.{
  ℕ, ◌+◌, String, Bool, true, false, Option, none, some, List, [], ◌∷◌, leb, sum_of,
}
use dynamictorque.Base.Int.{ℤ, pos, ◌*ℤ◌}
use dynamictorque.Base.Sort.{sort_by}
use dynamictorque.Base.Action.{Action, ok, err, index_error}

pub record VmFlavor : Type 0 where
  pub id : String
  pub name : String
  pub vcpus : ℕ
  pub ram : ℕ

-- What `VM.flavor` holds: the id that the VM was started with, or the object that `vm_check` and
-- `vm_list` put there.
pub data Flavor : Type 0 where
  flavor_id : String → Flavor
  flavor_object : VmFlavor → Flavor

-- Times are in seconds.
pub record Vm : Type 0 where
  pub id : String
  pub name : String
  pub ip : Option String
  pub jobid : Option String
  pub inaccessible_time : ℕ
  pub idle_time : ℕ
  pub vcpu_number : ℕ
  pub hostname : String
  pub flavor : Option Flavor
  pub cloud_ready : Bool
  pub start_time : Option ℕ
  pub state : Option String
  pub state_time : Option ℕ
  pub delete_time : Option ℕ
  pub force_off : Bool
  pub dynamic : Bool
  pub ready_time : Option ℕ
  pub availability_zone : Option String
  pub image_id : Option String
  pub cloud_resource_name : String
  pub post_provision_command_executed : Bool

-- `VM.__init__`. The zone that it is given is not kept.
unfoldable pub new_vm :
    (id name : String) (ip jobid : Option String) (vcpu_number : ℕ) (flavor : Option Flavor)
    (created : Option ℕ) (availability_zone image_id : Option String) (cloud_resource_name : String)
    → Vm
new_vm id name ip jobid vcpu_number flavor created availability_zone image_id res = record {
  id = id;
  name = name;
  ip = ip;
  jobid = jobid;
  inaccessible_time = 0;
  idle_time = 0;
  vcpu_number = vcpu_number;
  hostname = name;
  flavor = flavor;
  cloud_ready = false;
  start_time = created;
  state = some "N/A";
  state_time = none;
  delete_time = none;
  force_off = false;
  dynamic = true;
  ready_time = none;
  availability_zone = none;
  image_id = image_id;
  cloud_resource_name = res;
  post_provision_command_executed = false;
}

pub record StaticReq : Type 0 where
  pub location : String
  pub num_of_vm : ℕ

-- `StaticVMs`: how many static VMs each location still wants.
abbrev pub StaticVms : Type 0
StaticVms = List StaticReq

-- `ProvisionVM`: a request for a VM, by flavor and zone. These objects are never changed.
pub record ProvisionVm : Type 0 where
  pub flavor : Flavor
  pub zone : Option String
  pub resource_name : String
  pub static : Bool

abbrev pub new_provision : Flavor → Option String → String → Bool → ProvisionVm
new_provision flavor zone res static = record {
  flavor = flavor;
  zone = zone;
  resource_name = res;
  static = static;
}

-- `worker_node_flavors`: a list for the default resource, and one text for the resources of the
-- second configuration file.
pub data FlavorNames : Type 0 where
  names : List String → FlavorNames
  text : String → FlavorNames

-- `static_vms_to_start` is `None` if the configuration names no location of the default zone.
pub record CloudResource : Type 0 where
  pub username : String
  pub password : String
  pub tenant_name : String
  pub image_uuid : String
  pub user_data_file : String
  pub worker_node_flavors : FlavorNames
  pub static_worker_nodes : String
  pub number_of_dynamic_worker_nodes : ℕ
  pub flavor_objects : List VmFlavor
  pub static_vms_to_start : Option StaticVms
  pub available_number_of_nodes : ℤ
  pub account_string : Option String
  pub has_volume : Bool
  pub reservation_type : String

-- The keys of the two sorts of flavors, the larger and the smaller first.
abbrev pub larger_first : VmFlavor → VmFlavor → Bool
larger_first a b = leb b.vcpus a.vcpus

abbrev pub smaller_first : VmFlavor → VmFlavor → Bool
smaller_first a b = leb a.vcpus b.vcpus

-- `flavor_objects[0].vcpus`
abbrev pub first_vcpus : List VmFlavor → Option ℕ
first_vcpus [] = none
first_vcpus (f ∷ fs) = some f.vcpus

-- `CloudResource.available_cores`: sorts the flavors in place, then multiplies.
unfoldable pub available_cores : Action CloudResource ℤ
available_cores r =
    let sorted = sort_by larger_first r.flavor_objects in
    let r' = record r { flavor_objects = sorted } in
    elim (first_vcpus sorted) [
      | none ↦ (err index_error, r')
      | some vcpus ↦ (ok (r.available_number_of_nodes *ℤ pos vcpus), r')
    ]

-- The cores that jobs are given on one planned node.
pub record ResAllocation : Type 0 where
  pub vcpu_list : List ℕ
  pub location_property : Option String

abbrev pub new_allocation : ℕ → Option String → ResAllocation
new_allocation v location = record { vcpu_list = v ∷ []; location_property = location }

abbrev pub get_total_num_cores : ResAllocation → ℕ
get_total_num_cores res = sum_of (λ v. v) res.vcpu_list
