-- ===== src/Config/Setup.antt =====
-- `setup` of dynamictorque/config.py: which settings the configuration file gives.
use Prim.Native.String.{◌++◌ as ◌<>◌}
use dynamictorque.Base.{
  ℕ, String, Bool, false, Option, none, some, List, [], ◌∷◌, str_eq, split, if◌then◌else◌,
}
use dynamictorque.Base.Dict.{Dict, insert}
use dynamictorque.Base.Action.{
  Action, Result, ok, err, name_error, system_exit, gets, or_raise, from_result, modify, when_some,
  ◌>>=◌, ◌>>◌,
}
use dynamictorque.CloudTools.{CloudResource, FlavorNames, StaticVms}
use dynamictorque.Config.{Config, parse_static_worker_nodes}
use dynamictorque.Config.File.{File, Parser, option, read_text, read_number}
use dynamictorque.Config.Resources.{Defaults, new_resource, parse_cloud_resources_config_file}

-- The module's settings: those that the modelled program reads while it runs are in `config`.
-- `worker_node_flavors`, `pool_min_num` and `pool_max_num` have no value to begin with.
pub record Settings : Type 0 where
  pub config : Config
  pub pool_min_num : Option ℕ
  pub pool_max_num : Option ℕ
  pub cloud_poller_interval : ℕ
  pub persistent_file_location : String
  pub qstat_command : String
  pub pbsnodes_command : String
  pub add_node_command : String
  pub check_node_command : String
  pub remove_node_command : String
  pub set_node_command : String
  pub diagnose_p_command : String
  pub setres_command : String
  pub releaseres_command : String
  pub cloud_username : String
  pub cloud_password : String
  pub cloud_tenant_name : String
  pub cloud_auth_url : String
  pub cloud_key_name : String
  pub cloud_private_key_location : String
  pub cloud_vm_init_file : String
  pub cloud_vm_userdata_file : String
  pub cloud_image_uuid : String
  pub cloud_vm_prefix : String
  pub cloud_vm_init_finish_file : String
  pub number_of_dynamic_worker_nodes : ℕ
  pub cloud_shell_user : String
  pub log_level : String
  pub log_format : String
  pub worker_node_flavors : Option (List String)
  pub static_worker_nodes : String
  pub static_vm_list : Option StaticVms
  pub log_location : Option String
  pub log_stdout : Bool
  pub log_max_size : Option ℕ

-- `v.split(",")`, unless the text is empty
abbrev pub split_list : String → List String
split_list v = if str_eq v "" then [] else split b',' v

abbrev pub set_flavors : String → Settings → Settings
set_flavors v s = if str_eq v "" then s else record s { worker_node_flavors = some (split b',' v) }

-- A part of the list that is not of the form `location:zone` is passed over.
abbrev add_location : List String → Dict String → Dict String
add_location (loc ∷ zone ∷ []) properties = insert loc zone properties
add_location _ properties = properties

abbrev add_locations : List String → Dict String → Dict String
add_locations [] properties = properties
add_locations (loc ∷ locs) properties =
    add_locations locs (add_location (split b':' loc) properties)

abbrev pub set_locations : String → Settings → Settings
set_locations v s = record s {
  config = record (s.config) {
    location_properties = add_locations (split_list v) s.config.location_properties;
  };
}

abbrev pub set_statics : Option String → Settings → Settings
set_statics none s = record s { static_vm_list = some [] }
set_statics (some nodes) s = record s {
  static_worker_nodes = nodes;
  static_vm_list =
      parse_static_worker_nodes s.config.location_properties s.config.cloud_availability_zone nodes;
}

-- `cloud_resources["default"]=...`: the name `worker_node_flavors` is read here.
abbrev pub default_resource : Settings → List String → CloudResource
default_resource s flavors =
    new_resource s.cloud_username s.cloud_password s.cloud_tenant_name s.cloud_image_uuid
      s.cloud_vm_userdata_file (FlavorNames.names flavors) s.static_worker_nodes
      s.number_of_dynamic_worker_nodes s.static_vm_list none false "account"

abbrev pub set_resources : Dict CloudResource → Settings → Settings
set_resources resources s = record s { config = record (s.config) { cloud_resources = resources } }

unfoldable pub add_default : Action Settings Unit
add_default = do
  flavors ← gets (λ s. s.worker_node_flavors)
  names ← or_raise flavors name_error
  modify
      (λ s. set_resources (insert "default" (default_resource s names) s.config.cloud_resources) s)

-- `cloud_resources.update(...)`
abbrev update_with : Dict CloudResource → Dict CloudResource → Dict CloudResource
update_with [] resources = resources
update_with ((name, r) ∷ more) resources = update_with more (insert name r resources)

abbrev defaults_of : Settings → Defaults
defaults_of s = record {
  cloud_image_uuid = s.cloud_image_uuid;
  cloud_vm_userdata_file = s.cloud_vm_userdata_file;
  location_properties = s.config.location_properties;
  cloud_availability_zone = s.config.cloud_availability_zone;
}

module _ (parser : Parser) (file : File) where
  abbrev stdout_of : Option Bool → Settings → Settings
  stdout_of none s = s
  stdout_of (some b) s = record s { log_stdout = b }

  abbrev pub set_stdout : String → Settings → Settings
  set_stdout v s = stdout_of (parser.to_bool v) s

  abbrev pub read_max_size : Action Settings Unit
  read_max_size = when_some (option file "logging" "log_max_size") (λ v. do
    n ← or_raise (parser.to_nat v) system_exit
    modify (λ s. record s { log_max_size = some n }))

  abbrev pub read_static : Action Settings Unit
  read_static = modify (set_statics (option file "cloud" "static_worker_nodes"))

  abbrev pub read_resources : Action Settings Unit
  read_resources = when_some (option file "cloud" "cloud_resources_config") (λ location. do
    defaults ← gets defaults_of
    resources ← from_result (parse_cloud_resources_config_file parser defaults location)
    modify (λ s. set_resources (update_with resources s.config.cloud_resources) s))

  -- The numbers of the section `global`.
  unfoldable pub read_global : Action Settings Unit
  read_global = do
    read_number file "global" "pool_min_num" parser.to_nat
        (λ v s. record s { pool_min_num = some v })
    read_number file "global" "pool_max_num" parser.to_nat
        (λ v s. record s { pool_max_num = some v })
    read_number file "global" "max_idle_time" parser.to_nat
        (λ v s. record s { config = record (s.config) { max_idle_time = v } })
    read_number file "global" "max_down_time" parser.to_nat
        (λ v s. record s { config = record (s.config) { max_down_time = v } })
    read_number file "global" "max_inaccessible_time" parser.to_nat
        (λ v s. record s { config = record (s.config) { max_inaccessible_time = v } })
    read_number file "global" "job_poller_interval" parser.to_nat
        (λ v s. record s { config = record (s.config) { job_poller_interval = v } })
    read_number file "global" "cloud_poller_interval" parser.to_nat
        (λ v s. record s { cloud_poller_interval = v })

  -- The texts of the section `global`.
  unfoldable pub read_commands : Action Settings Unit
  read_commands = do
    read_text file "global" "persistent_file_location"
        (λ v s. record s { persistent_file_location = v })
    read_text file "global" "post_add_node_command"
        (λ v s. record s { config = record (s.config) { post_add_node_command = v } })
    read_text file "global" "post_remove_node_command"
        (λ v s. record s { config = record (s.config) { post_remove_node_command = v } })
    read_text file "global" "post_vm_provision_command"
        (λ v s. record s { config = record (s.config) { post_vm_provision_command = v } })
    read_text file "global" "post_vm_destroy_command"
        (λ v s. record s { config = record (s.config) { post_vm_destroy_command = v } })
    read_text file "global" "qstat_command" (λ v s. record s { qstat_command = v })
    read_text file "global" "pbsnodes_command" (λ v s. record s { pbsnodes_command = v })
    read_text file "global" "add_node_command" (λ v s. record s { add_node_command = v })
    read_text file "global" "check_node_command" (λ v s. record s { check_node_command = v })
    read_text file "global" "remove_node_command" (λ v s. record s { remove_node_command = v })
    read_text file "global" "set_node_command" (λ v s. record s { set_node_command = v })
    read_text file "global" "diagnose_p_command" (λ v s. record s { diagnose_p_command = v })
    read_text file "global" "setres_command" (λ v s. record s { setres_command = v })
    read_text file "global" "releaseres_command" (λ v s. record s { releaseres_command = v })

  -- The section `cloud`.
  unfoldable pub read_cloud : Action Settings Unit
  read_cloud = do
    read_text file "cloud" "cloud_username" (λ v s. record s { cloud_username = v })
    read_text file "cloud" "cloud_password" (λ v s. record s { cloud_password = v })
    read_text file "cloud" "cloud_tenant_name" (λ v s. record s { cloud_tenant_name = v })
    read_text file "cloud" "cloud_auth_url" (λ v s. record s { cloud_auth_url = v })
    read_text file "cloud" "cloud_key_name" (λ v s. record s { cloud_key_name = v })
    read_text file "cloud" "cloud_security_groups"
        (λ v s. record s { config = record (s.config) { cloud_security_groups = split_list v } })
    read_text file "cloud" "cloud_private_key_location"
        (λ v s. record s { cloud_private_key_location = v })
    read_text file "cloud" "cloud_availability_zone"
        (λ v s. record s { config = record (s.config) { cloud_availability_zone = v } })
    read_text file "cloud" "cloud_vm_init_file" (λ v s. record s { cloud_vm_init_file = v })
    read_text file "cloud" "cloud_vm_userdata_file" (λ v s. record s { cloud_vm_userdata_file = v })
    read_text file "cloud" "cloud_image_uuid" (λ v s. record s { cloud_image_uuid = v })
    read_text file "cloud" "cloud_vm_prefix" (λ v s. record s { cloud_vm_prefix = v })
    read_text file "cloud" "worker_node_flavors" set_flavors
    read_text file "cloud" "cloud_vm_init_finish_file"
        (λ v s. record s { cloud_vm_init_finish_file = v })
    read_number file "cloud" "number_of_dynamic_worker_nodes" parser.to_nat
        (λ v s. record s { number_of_dynamic_worker_nodes = v })
    read_text file "cloud" "cloud_shell_user" (λ v s. record s { cloud_shell_user = v })

  -- The section `torque`, and the static VMs.
  unfoldable pub read_torque : Action Settings Unit
  read_torque = do
    read_text file "torque" "torque_queue_to_monitor"
        (λ v s. record s { config = record (s.config) { torque_queue_to_monitor = split_list v } })
    read_text file "torque" "node_property"
        (λ v s. record s { config = record (s.config) { node_property = v } })
    read_text file "torque" "node_location_property" set_locations
    read_number file "torque" "max_number_of_jobs" parser.to_int
        (λ v s. record s { config = record (s.config) { max_number_of_jobs = v } })
    read_static
    read_number file "torque" "default_location" parser.to_nat
        (λ v s. record s { config = record (s.config) { default_location = v } })

  -- The section `logging`.
  unfoldable pub read_logging : Action Settings Unit
  read_logging = do
    read_text file "logging" "log_level" (λ v s. record s { log_level = v })
    read_text file "logging" "log_location"
        (λ v s. record s { log_location = some (parser.expand_user v) })
    read_text file "logging" "log_stdout" set_stdout
    read_max_size
    read_text file "logging" "log_format" (λ v s. record s { log_format = v })

  unfoldable pub read_settings : Action Settings Unit
  unfolding read_global read_commands read_cloud read_torque read_logging add_default
  read_settings = do
    read_global
    read_commands
    read_cloud
    read_torque
    add_default
    read_resources
    read_logging

-- The configuration file: the one that is named, or the first of two that exists.
abbrev default_path : Parser → Result String
default_path parser =
    let path = parser.home <> "/.dynamictorque/dynamic_torque.conf" in
    if parser.exists path
    then ok path
    else if parser.exists "/etc/dynamictorque/dynamic_torque.conf"
    then ok "/etc/dynamictorque/dynamic_torque.conf"
    else err system_exit

abbrev pub find_path : Parser → Option String → Result String
find_path parser none = default_path parser
find_path parser (some path) = if str_eq path "" then default_path parser else ok path

unfoldable pub setup : Parser → Option String → Action Settings Unit
unfolding read_settings
setup parser path = do
  location ← from_result (find_path parser path)
  file ← from_result (parser.parse location)
  read_settings parser file
