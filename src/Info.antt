-- ===== src/Info.antt =====
-- The statistics that dt_info.py, a plugin of collectd, makes of what `get_info` of
-- dynamictorque/res_management.py answers. An exception answers nothing.
pub mod Sums
use dynamictorque.Base.{
  ℕ, ◌+◌, String, Bool, true, false, not, Option, none, some, List, [], ◌∷◌, ◌++◌, map, sum_of,
  length, opt_str_eq, str_eq, split, to_number, if◌then◌else◌,
}
use dynamictorque.Base.Dict.{Dict, lookup}
use dynamictorque.Base.Action.{Action, ok, value_error, pure, modify, or_raise, for_each, ◌>>=◌}
use dynamictorque.CloudTools.{Vm, CloudResource, ProvisionVm}
use dynamictorque.JobScheduler.{Job}
use dynamictorque.World.{Arg, text, number}
use dynamictorque.Commands.{Node}
use dynamictorque.Center.State.{Center}

-- The dict that `get_info` answers.
pub record CenterInfo : Type 0 where
  pub existing_instances : List Vm
  pub starting_instances : List Vm
  pub deleting_instances : List Vm
  pub provision_waiting_list : List ProvisionVm
  pub worker_nodes : List Node
  pub provisioning : Bool
  pub sleep_mode : Bool
  pub pbs_server_up : Bool
  pub maui_server_up : Bool
  pub idle_jobs : List Job
  pub total_number_of_idle_jobs : ℕ
  pub cloud_resources : Dict CloudResource
  pub running_jobs : List Job

unfoldable pub get_info : Center → CenterInfo
get_info s = record {
  existing_instances = map s.heap s.existing_instances;
  starting_instances = map s.heap s.starting_instances;
  deleting_instances = map s.heap s.deleting_instances;
  provision_waiting_list = s.provision_waiting_list;
  worker_nodes = s.worker_nodes;
  provisioning = s.provisioning;
  sleep_mode = s.sleep_mode;
  pbs_server_up = s.pbs_server_up;
  maui_server_up = s.maui_server_up;
  idle_jobs = s.idle_jobs;
  total_number_of_idle_jobs = s.total_number_of_idle_jobs;
  cloud_resources = s.shell.config.cloud_resources;
  running_jobs = s.running_jobs;
}

-- A dict of cores by the zone or the resource; a zone may be `None`.
abbrev pub Stat : Type 0
Stat = List (Option String × ℕ)

-- `if key in stat: stat[key] += n`, and `stat[key] = n` if not
abbrev pub add_cores : Option String → ℕ → Stat → Stat
add_cores key n [] = (key, n) ∷ []
add_cores key n ((k, m) ∷ stat) =
    if opt_str_eq k key then (k, m + n) ∷ stat else (k, m) ∷ add_cores key n stat

unfoldable pub tally : (Vm → Option String) → List Vm → Stat → Stat
tally key [] stat = stat
tally key (vm ∷ vms) stat = tally key vms (add_cores (key vm) vm.vcpu_number stat)

abbrev pub cores : List Vm → ℕ
cores vms = sum_of (λ vm. vm.vcpu_number) vms

abbrev pub cores_if : (Vm → Bool) → List Vm → ℕ
cores_if p vms = sum_of (λ vm. if p vm then vm.vcpu_number else 0) vms

-- `int(vm['np'])` of every node, none where that raises.
abbrev pub add_np : Option ℕ → Option ℕ → Option ℕ
add_np none rest = none
add_np (some n) none = none
add_np (some n) (some m) = some (n + m)

abbrev pub np_of : Option String → Option ℕ
np_of none = none
np_of (some s) = to_number s

abbrev pub pbs_cores : List Node → Option ℕ
pbs_cores [] = some 0
pbs_cores (node ∷ nodes) = add_np (np_of (lookup "np" node)) (pbs_cores nodes)

-- `len(job['exec_host'].split('+'))`, where the job has that key
abbrev hosts_of : Option String → ℕ
hosts_of none = 0
hosts_of (some hosts) = length (split b'+' hosts)

abbrev pub running_cores : List Job → ℕ
running_cores jobs = sum_of (λ job. hosts_of (lookup "exec_host" job.attrs)) jobs

pub record Data : Type 0 where
  pub total_pbs_cores : ℕ
  pub idle_jobs_num : ℕ
  pub running_cores : ℕ
  pub active_cores : ℕ
  pub active_dynamic_cores : ℕ
  pub active_static_cores : ℕ
  pub deleting_cores : ℕ
  pub starting_cores : ℕ
  pub total_cloud_cores : ℕ
  pub total_cloud_vms : ℕ
  pub zone_stat : Stat
  pub tenant_stat : Stat

abbrev pub data_of : CenterInfo → ℕ → Data
data_of info np = record {
  total_pbs_cores = np;
  idle_jobs_num = info.total_number_of_idle_jobs;
  running_cores = running_cores info.running_jobs;
  active_cores = cores info.existing_instances;
  active_dynamic_cores = cores_if (λ vm. vm.dynamic) info.existing_instances;
  active_static_cores = cores_if (λ vm. not vm.dynamic) info.existing_instances;
  deleting_cores = cores info.deleting_instances;
  starting_cores = cores info.starting_instances;
  total_cloud_cores =
      cores info.existing_instances + cores info.deleting_instances + cores info.starting_instances;
  total_cloud_vms =
      length info.existing_instances
      + length info.deleting_instances
      + length info.starting_instances;
  zone_stat = tally (λ vm. vm.availability_zone) info.existing_instances [];
  tenant_stat = tally (λ vm. some vm.cloud_resource_name) info.existing_instances [];
}

-- `fetch_info`, on what the server answers; none if it cannot be reached.
unfoldable pub fetch_info : Option CenterInfo → Option Data
unfolding tally
fetch_info none = none
fetch_info (some info) = elim (pbs_cores info.worker_nodes) [
  | none ↦ none
  | some np ↦ some (data_of info np)
]

-- A value that is dispatched: the plugin's instance, the key and the number.
pub record Value : Type 0 where
  pub plugin_instance : String
  pub type_instance : Option String
  pub value : ℕ

abbrev value_of : String → Option String × ℕ → Value
value_of plugin_instance (key, n) = record {
  plugin_instance = plugin_instance;
  type_instance = key;
  value = n;
}

abbrev gauge : String → ℕ → Value
gauge key n = value_of "dynamic_torque" (some key, n)

-- The values that are not of a zone or a tenant.
abbrev pub gauges : Data → List Value
gauges data' =
    gauge "total_pbs_cores" data'.total_pbs_cores
    ∷ gauge "idle_jobs_num" data'.idle_jobs_num
    ∷ gauge "running_cores" data'.running_cores
    ∷ gauge "active_cores" data'.active_cores
    ∷ gauge "active_dynamic_cores" data'.active_dynamic_cores
    ∷ gauge "active_static_cores" data'.active_static_cores
    ∷ gauge "deleting_cores" data'.deleting_cores
    ∷ gauge "starting_cores" data'.starting_cores
    ∷ gauge "total_cloud_cores" data'.total_cloud_cores
    ∷ gauge "total_cloud_vms" data'.total_cloud_vms
    ∷ []

-- `read_callback`: what is dispatched, in order.
unfoldable pub read_callback : Option Data → List Value
read_callback none = []
read_callback (some data') =
    gauges data'
    ++ (map (value_of "zone") data'.zone_stat ++ map (value_of "tenant") data'.tenant_stat)

-- The settings of the plugin.
pub record Plugin : Type 0 where
  pub hostname : String
  pub port : Arg
  pub verbose : Bool

-- The body of the loop of `configure_callback`: the key `Host` sets the port. Every text but the
-- empty one is true to `bool`.
unfoldable pub configure : String × String → Action Plugin Unit
configure (key, value) =
    if str_eq key "Host"
    then modify (λ p. record p { port = text value })
    else if str_eq key "Port"
    then (do n ← or_raise (to_number value) value_error; modify (λ p. record p { port = number n }))
    else if str_eq key "Verbose"
    then modify (λ p. record p { verbose = not (str_eq value "") })
    else pure tt

unfoldable pub configure_callback : List (String × String) → Action Plugin Unit
unfolding configure
configure_callback conf = for_each conf configure
