-- ===== src/Tests/Fixtures.antt =====
-- A small installation: two resources, three VMs, and a world and a cloud that answer alike.
use dynamictorque.Base.{
  ℕ, String, none, some, true, false, [], ◌∷◌, length, ◌==◌, str_eq, if◌then◌else◌,
}
use dynamictorque.Base.Int.{pos, negsuc}
use dynamictorque.Base.Action.{ok}
use dynamictorque.CloudTools.{
  VmFlavor, Vm, CloudResource, FlavorNames, flavor_id, new_vm, new_provision, ProvisionVm,
  StaticReq, ResAllocation,
}
use dynamictorque.Config.{Config}
use dynamictorque.JobScheduler.{Job}
use dynamictorque.World.{Item, World}
use dynamictorque.Commands.{Node}
use dynamictorque.Cloud.{Cloud}
use dynamictorque.Center.State.{Center}

abbrev pub small : VmFlavor
small = record { id = "1"; name = "small"; vcpus = 2; ram = 4096 }

abbrev pub large : VmFlavor
large = record { id = "2"; name = "large"; vcpus = 8; ram = 16384 }

abbrev pub static_req : StaticReq
static_req = record { location = "north"; num_of_vm = 2 }

abbrev pub resource : CloudResource
resource = record {
  username = "user";
  password = "secret";
  tenant_name = "tenant";
  image_uuid = "image";
  user_data_file = "";
  worker_node_flavors = FlavorNames.names ("small" ∷ "large" ∷ []);
  static_worker_nodes = "2";
  number_of_dynamic_worker_nodes = 4;
  flavor_objects = small ∷ large ∷ [];
  static_vms_to_start = some (static_req ∷ []);
  available_number_of_nodes = pos 4;
  account_string = none;
  has_volume = false;
  reservation_type = "";
}

abbrev pub installation : Config
installation = record {
  max_inaccessible_time = 600;
  max_idle_time = 600;
  max_down_time = 600;
  max_delete_retry_time = 600;
  vm_creation_batch_number = 2;
  job_poller_interval = 10;
  cloud_availability_zone = "zone-a";
  cloud_security_groups = "default" ∷ [];
  node_property = "";
  torque_queue_to_monitor = [];
  max_number_of_jobs = negsuc 0;
  location_properties = ("north", "zone-a") ∷ ("south", "zone-b") ∷ [];
  default_location = 0;
  post_add_node_command = "";
  post_remove_node_command = "";
  post_vm_provision_command = "";
  post_vm_destroy_command = "";
  cloud_resources = ("default", resource) ∷ ("physics", resource) ∷ [];
  draws = 0;
}

abbrev pub two_nodes_job : Job
two_nodes_job = record {
  attrs =
      ("Job_Id", "7.server")
      ∷ ("Account_Name", "physics")
      ∷ ("Resource_List.neednodes", "2")
      ∷ ("Resource_List.ncpus", "3")
      ∷ [];
  priority = none;
  job_priority = some (pos 100);
}

abbrev pub one_core_job : Job
one_core_job = record {
  attrs = ("Job_Id", "9[3].server") ∷ ("queue", "batch") ∷ [];
  priority = none;
  job_priority = some (pos 50);
}

abbrev pub first_item : ℕ → ℕ → ℕ
first_item n k = 0

abbrev pub world : World
world = record {
  run = λ t tool args. some (record { returncode = pos 0; out = ""; err = "" });
  parse_xml = λ s. none;
  now = λ t. length t;
  draw = first_item;
  nodes_file = λ t. [];
}

abbrev pub named_vm : String → Vm
named_vm name =
    new_vm name name (some "10.0.0.1") none 8 (some (flavor_id "2")) (some 0) (some "zone-a")
      (some "image") "physics"

-- Every VM is gone when it is looked at.
abbrev pub cloud : Cloud
cloud = record {
  vm_start = λ t flavor zone res. ok (some (named_vm "new"));
  vm_destroy = λ t v. (ok tt, v);
  vm_check = λ t v. (ok 3, v);
  vm_list = λ t res. if str_eq res "physics" then named_vm "wn0" ∷ named_vm "wn7" ∷ [] else [];
}

abbrev pub node_of : String → Node
node_of name = ("name", name) ∷ ("state", "free") ∷ []

abbrev pub request : ProvisionVm
request = new_provision (flavor_id "2") (some "zone-a") "physics" false

abbrev pub static_request : ProvisionVm
static_request = new_provision (flavor_id "1") none "default" true

-- VM 0 exists, VM 1 starts and VM 2 is being deleted.
abbrev pub center : Center
center = record {
  shell = record { config = installation; trace = [] };
  heap = λ r. if r == 0 then named_vm "wn0" else if r == 1 then named_vm "wn1" else named_vm "";
  next = 3;
  sleep_mode = false;
  idle_jobs = two_nodes_job ∷ one_core_job ∷ [];
  total_number_of_idle_jobs = 2;
  running_jobs = [];
  number_of_wn = 1;
  worker_nodes = node_of "wn0" ∷ [];
  provisioning = true;
  pbs_server_up = true;
  maui_server_up = true;
  existing_instances = 0 ∷ [];
  starting_instances = 1 ∷ [];
  deleting_instances = 2 ∷ [];
  provision_waiting_list = static_request ∷ request ∷ static_request ∷ [];
}

abbrev pub node : ResAllocation
node = record { vcpu_list = 2 ∷ 3 ∷ []; location_property = some "north" }

abbrev pub job_item : String → String → Item
job_item id state = record {
  tag = "Job";
  children =
      record { tag = "Job_Id"; text = some id; grandchildren = [] }
      ∷ record { tag = "job_state"; text = some state; grandchildren = [] }
      ∷ record { tag = "queue"; text = some "batch"; grandchildren = [] }
      ∷ record { tag = "Resource_List"; text = none; grandchildren = ("ncpus", "3") ∷ [] }
      ∷ [];
}

-- The world while two jobs wait and one runs.
abbrev pub busy_world : World
busy_world = record world {
  parse_xml = λ s.
      some (job_item "9.server" "Q" ∷ job_item "8.server" "R" ∷ job_item "7[2].server" "Q" ∷ []);
}

-- Every VM is ready.
abbrev pub ready_cloud : Cloud
ready_cloud = record cloud { vm_check = λ t v. (ok 0, v) }
