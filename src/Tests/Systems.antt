-- ===== src/Tests/Systems.antt =====
-- The start of the center, the cloud behind it, the threads, and the configuration.
use mathlib.Core.Option.{some-injective}
use dynamictorque.Base.{
  ℕ, ◌≡◌, refl, true, false, none, some, List, [], ◌∷◌, ap, arith, inl, inr, Bool-cases, str_eq,
  any,
}
use dynamictorque.Base.Dict.{lookup}
use dynamictorque.Base.Int.{pos}
use dynamictorque.Base.Sort.{sort_by}
use dynamictorque.Base.Action.{Result, fold_each, ok, Post, ok-injective}
use dynamictorque.CloudTools.{new_vm, smaller_first}
use dynamictorque.World.{number}
use dynamictorque.Cloud.{Cloud}
use dynamictorque.Center.State.{Center}
use dynamictorque.Center.Cleanup.{check_cleanup}
use dynamictorque.Center.Load.{load_all_existing_worker_nodes, load_existing_worker_nodes}
use dynamictorque.Center.Cleaned.{Keeps}
use dynamictorque.Center.Holding.{Held}
use dynamictorque.Center.Listed.{load_existing_worker_nodes-Held}
use dynamictorque.Center.Trimmed.{AllNamed, Destroys, TrimEnds, trimmed, trim-busy}
use dynamictorque.OpenStack.{
  OpenStackCloud, Calls, vm_check, vm_destroy, open_connection, connect, credentials,
}
use dynamictorque.OpenStack.Client.{OsFlavor, Server, SecurityGroup, found, Nova, Machine}
use dynamictorque.OpenStack.Backend.{open_stack, start_session}
use dynamictorque.OpenStack.Laws.{IsCloud, open_stack-IsCloud}
use dynamictorque.OpenStack.States.{Explains, vm_check-Explains}
use dynamictorque.OpenStack.Joint.{open_stack-KeepsKind, check_cleanup_found}
use dynamictorque.OpenStack.Rules.{
  ListsRules, after, remove_security_group_rule-add_security_group_rule,
}
use dynamictorque.OpenStack.Firewall.{
  is_rule, group_named, add_security_group_rule, remove_security_group_rule,
}
use dynamictorque.CloudManager.{init_cloud_resources}
use dynamictorque.CloudManager.Flavors.{named_of, init_cloud_resources-named_of}
use dynamictorque.Config.{Config}
use dynamictorque.Config.File.{Parser}
use dynamictorque.Config.Setup.{Settings, setup}
use dynamictorque.Config.Refused.{Refused, setup-Refused}
use dynamictorque.Daemon.{System, new_poller, step, job_turn, cloud_turn}
use dynamictorque.Daemon.Turns.{turns, live, turns_poll_once}
use dynamictorque.Daemon.Kept.{here, next, Left, Quiet-Left}
use dynamictorque.Info.{get_info, Data, fetch_info, tally, configure_callback}
use dynamictorque.Info.Sums.{AddsUp, fetch_info-AddsUp, configure_callback_host}
use dynamictorque.Tests.Fixtures.{
  world, cloud, ready_cloud, center, resource, installation, small, large, named_vm, node_of,
}

-- A center that starts.
abbrev empty : Center
empty = record center {
  existing_instances = [];
  starting_instances = [];
  deleting_instances = [];
  provision_waiting_list = [];
}

load_existing_worker_nodes-Held_example : Held 4 (load_existing_worker_nodes world cloud empty).1
unfolding load_all_existing_worker_nodes fold_each
load_existing_worker_nodes-Held_example =
    load_existing_worker_nodes-Held world cloud empty 4 (omega arith) (omega arith)

abbrev os_small : OsFlavor
os_small = record { id = "1"; name = "small"; vcpus = 2; ram = 4096 }

abbrev server : Server
server = record {
  id = "s";
  name = "wn0";
  status = "ACTIVE";
  created = 0;
  vm_state = "active";
  task_state = none;
  addresses = ((("addr", "10.0.0.1") ∷ []) ∷ []) ∷ [];
  zone = "zone-a";
  image = ("id", "image") ∷ [];
  flavor = ("id", "1") ∷ [];
}

abbrev group : SecurityGroup
group = record {
  id = "g";
  name = "default";
  rules =
      record { id = "old"; from_port = 22; to_port = 22; ip_range = ("cidr", "10.0.0.2/32") ∷ [] }
      ∷ [];
}

abbrev groups_after : Calls → List SecurityGroup
groups_after [] = group ∷ []
groups_after (c ∷ calls) = after "new" c (groups_after calls)

abbrev nova : Nova
nova = record {
  failures = λ calls c. 2;
  get_server = λ calls id. found server;
  delete_server = λ calls id. found tt;
  get_flavor = λ calls id. some os_small;
  list_servers = λ calls name. some (server ∷ []);
  list_flavors = λ calls. some (os_small ∷ []);
  create_server = λ calls name image flavor userdata zone. some server;
  list_groups = λ calls. some (groups_after calls);
}

abbrev host : Machine
host = record {
  is_file = λ s. true;
  render = λ s name. some name;
  random_index = λ calls k. k;
  reachable = λ calls ip port. true;
  utcnow = λ calls. 5;
}

abbrev backend : OpenStackCloud
backend = record {
  vm_prefix = "wn";
  default_availability_zone = "zone-a";
  username = "user";
  password = "secret";
  tenant_name = "tenant";
  cloud_resources = ("default", resource) ∷ ("physics", resource) ∷ [];
}

open_stack-IsCloud_example : IsCloud (open_stack backend (λ t. nova) (λ t. host))
open_stack-IsCloud_example = open_stack-IsCloud backend (λ t. nova) (λ t. host)

vm_check-Explains_example :
    Post
      (λ n t. (c : Calls) × Explains (nova.get_server c "wn0") n t.vm)
      (λ t. Unit)
      (vm_check nova backend host (start_session (named_vm "wn0")))
vm_check-Explains_example = vm_check-Explains nova backend host (start_session (named_vm "wn0"))

check_cleanup_found_example :
    Post
      (λ _. Keeps 2 center)
      (Keeps 2 center)
      (check_cleanup world (open_stack backend (λ t. nova) (λ t. host)) center)
check_cleanup_found_example =
    check_cleanup_found backend (λ t. nova) (λ t. host) (λ t c id. (server, refl)) world 2 center

turns_poll_once_example : turns 10 10 (live 7, 3) ≡ (live 7, 4)
turns_poll_once_example = turns_poll_once 10 7 3 (omega arith)

abbrev system : System
system = record {
  center = center;
  job_poller = new_poller;
  cloud_poller = new_poller;
  running = true;
}

zero_not_gone : ¬ (◌≡◌ {A = Result ℕ} (ok 0) (ok 3))
zero_not_gone e = omega (arith, ok-injective e)

-- A turn of each poller, while a VM is being provisioned.
abbrev two_turns : System
two_turns = step world ready_cloud 10 20 cloud_turn (step world ready_cloud 10 20 job_turn system)

Quiet-Left_example : Left center two_turns
Quiet-Left_example =
    Quiet-Left world ready_cloud 10 20 (λ t vm e. zero_not_gone e) refl
      (next cloud_turn (next job_turn here refl) tt)

init_cloud_resources-named_of_example :
    (c' : Config) × (init_cloud_resources (large ∷ small ∷ []) installation ≡ (ok tt, c'))
    × (lookup "physics" c'.cloud_resources
        ≡ some (record resource {
          flavor_objects =
              small ∷ large ∷ named_of resource (sort_by smaller_first (large ∷ small ∷ []));
        }))
unfolding lookup
init_cloud_resources-named_of_example =
    init_cloud_resources-named_of (large ∷ small ∷ []) installation "physics" resource
      ((refl, tt), (tt, tt)) refl

abbrev parser : Parser
parser = record {
  home = "/root";
  exists = λ s. true;
  expand_user = λ s. s;
  parse = λ s. ok (("global", ("max_idle_time", "60") ∷ []) ∷ ("cloud", []) ∷ []);
  to_nat = λ s. some 60;
  to_int = λ s. some (pos 60);
  to_bool = λ s. none;
}

abbrev fresh_settings : Settings
fresh_settings = record {
  config = record installation { cloud_resources = [] };
  pool_min_num = none;
  pool_max_num = none;
  cloud_poller_interval = 20;
  persistent_file_location = "";
  qstat_command = "";
  pbsnodes_command = "";
  add_node_command = "";
  check_node_command = "";
  remove_node_command = "";
  set_node_command = "";
  diagnose_p_command = "";
  setres_command = "";
  releaseres_command = "";
  cloud_username = "";
  cloud_password = "";
  cloud_tenant_name = "";
  cloud_auth_url = "";
  cloud_key_name = "";
  cloud_private_key_location = "";
  cloud_vm_init_file = "";
  cloud_vm_userdata_file = "";
  cloud_image_uuid = "";
  cloud_vm_prefix = "";
  cloud_vm_init_finish_file = "";
  number_of_dynamic_worker_nodes = 2;
  cloud_shell_user = "";
  log_level = "";
  log_format = "";
  worker_node_flavors = none;
  static_worker_nodes = "";
  static_vm_list = none;
  log_location = none;
  log_stdout = false;
  log_max_size = none;
}

setup-Refused_example : Refused [] (setup parser none fresh_settings)
unfolding lookup
setup-Refused_example =
    setup-Refused parser none "/root/.dynamictorque/dynamic_torque.conf"
      (("global", ("max_idle_time", "60") ∷ []) ∷ ("cloud", []) ∷ []) fresh_settings refl refl
      (λ v e. cc) refl

abbrev lists : ListsRules nova
lists = record {
  new_id = λ calls. "new";
  follows = λ c calls groups h. ap (λ g. some (after "new" c g)) (some-injective _ groups h);
}

abbrev open_rule : Calls
open_rule =
    (add_security_group_rule nova backend "physics" "default" "tcp" "10.0.0.1/32" 2049 2049 []).1

remove_security_group_rule-add_security_group_rule_example :
    ((groups' : List SecurityGroup) × (sg' : SecurityGroup) × (nova.list_groups open_rule
        ≡ some groups')
      × (group_named "default" groups' ≡ some sg')
      × (any (is_rule "10.0.0.1/32" 2049 2049) sg'.rules ≡ true))
    × (nova.list_groups
          (remove_security_group_rule nova backend "physics" "default" "tcp" "10.0.0.1/32" 2049 2049
            open_rule).1
        ≡ some (group ∷ []))
unfolding lookup credentials
remove_security_group_rule-add_security_group_rule_example =
    remove_security_group_rule-add_security_group_rule nova lists backend "physics" "default" "tcp"
      "10.0.0.1/32" 2049 2049 [] (group ∷ []) group (_, refl) (λ calls h. ((refl, tt), tt)) refl
      refl refl

-- A VM whose node runs a job, and one that is idle, with no room for the second.
abbrev two_existing : Center
two_existing = record center {
  existing_instances = 0 ∷ 1 ∷ [];
  worker_nodes = (("name", "wn0") ∷ ("jobs", "0/7.server") ∷ []) ∷ node_of "wn1" ∷ [];
}

both_named : AllNamed two_existing.worker_nodes
unfolding lookup
both_named vm = elim (Bool-cases (str_eq "wn0" vm.hostname)) [
  | inl e ↦ (some (("name", "wn0") ∷ ("jobs", "0/7.server") ∷ []), rw e refl)
  | inr e ↦ elim (Bool-cases (str_eq "wn1" vm.hostname)) [
    | inl f ↦ (some (node_of "wn1"), rw (e, f) refl)
    | inr f ↦ (none, rw (e, f) refl)
  ]
]

abbrev backed : Cloud
backed = open_stack backend (λ t. nova) (λ t. host)

physics_is_destroyed : Destroys backed "physics"
unfolding vm_destroy open_connection credentials connect lookup
physics_is_destroyed t vm e = rw e refl

trim-busy_example :
    TrimEnds "physics" 1 two_existing (trimmed world backed "physics" 1 two_existing)
trim-busy_example =
    trim-busy world backed (open_stack-KeepsKind backend (λ t. nova) (λ t. host)) "physics"
      physics_is_destroyed 1 two_existing both_named

abbrev some_data : Data
some_data = record {
  total_pbs_cores = 0;
  idle_jobs_num = 2;
  running_cores = 0;
  active_cores = 8;
  active_dynamic_cores = 8;
  active_static_cores = 0;
  deleting_cores = 8;
  starting_cores = 8;
  total_cloud_cores = 24;
  total_cloud_vms = 3;
  zone_stat = (none, 8) ∷ [];
  tenant_stat = (some "physics", 8) ∷ [];
}

fetch_info-AddsUp_example : AddsUp some_data
unfolding fetch_info lookup tally get_info new_vm
fetch_info-AddsUp_example =
    fetch_info-AddsUp (some (record (get_info center) { worker_nodes = [] })) some_data refl

configure_callback_host_example :
    (configure_callback
      (("Host", "torque") ∷ ("Port", "8113") ∷ [])
      (record { hostname = "localhost"; port = number 8113; verbose = false })).1.hostname
    ≡ "localhost"
configure_callback_host_example =
    configure_callback_host (("Host", "torque") ∷ ("Port", "8113") ∷ [])
      (record { hostname = "localhost"; port = number 8113; verbose = false })
