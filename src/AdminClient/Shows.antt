-- ===== src/AdminClient/Shows.antt =====
-- What the commands of admin.py that ask about VMs, nodes and methods print.
use dynamictorque.Base.{
  ℕ, ◌+◌, String, Bool, false, not, Option, none, some, List, [], ◌∷◌, ◌++◌, length, str_eq,
  to_number, if◌then◌else◌,
}
use dynamictorque.Base.Dict.{Dict, lookup}
use dynamictorque.Base.Action.{
  Action, err, key_error, value_error, type_error, pure, gets, or_raise, from_result, fold_each,
  for_each, ◌>>=◌, ◌>>◌,
}
use dynamictorque.CloudTools.{Vm}
use dynamictorque.Commands.{Node, node_named}
use dynamictorque.Center.State.{Center, get_vm}
use dynamictorque.Center.Admin.{get_detail}
use dynamictorque.Info.{CenterInfo, get_info, tally, cores, cores_if, running_cores}
use dynamictorque.AdminClient.Console.{
  Cell, text, maybe, count, flag, instant, amounts, object, Terminal, print, rpc,
}

-- `listMethods`, `methodHelp` and `methodSignature` of the server.
pub record Introspection : Type 0 where
  pub methods : List String
  pub help : String → String
  pub signature : String → String

-- A `VM` over XML-RPC: the dict of its attributes.
abbrev pub vm_fields : Vm → Dict Cell
vm_fields vm =
    ("id", text vm.id)
    ∷ ("name", text vm.name)
    ∷ ("ip", maybe vm.ip)
    ∷ ("jobid", maybe vm.jobid)
    ∷ ("inaccessible_time", count vm.inaccessible_time)
    ∷ ("idle_time", count vm.idle_time)
    ∷ ("vcpu_number", count vm.vcpu_number)
    ∷ ("hostname", text vm.hostname)
    ∷ ("flavor", object)
    ∷ ("cloud_ready", flag vm.cloud_ready)
    ∷ ("start_time", instant vm.start_time)
    ∷ ("state", maybe vm.state)
    ∷ ("state_time", instant vm.state_time)
    ∷ ("delete_time", instant vm.delete_time)
    ∷ ("force_off", flag vm.force_off)
    ∷ ("dynamic", flag vm.dynamic)
    ∷ ("ready_time", instant vm.ready_time)
    ∷ ("availability_zone", maybe vm.availability_zone)
    ∷ ("image_id", maybe vm.image_id)
    ∷ ("cloud_resource_name", text vm.cloud_resource_name)
    ∷ ("post_provision_command_executed", flag vm.post_provision_command_executed)
    ∷ []

abbrev pub show_field : String × Cell → Action Terminal Unit
show_field (item, value) = print (text item ∷ value ∷ [])

abbrev pub show_attribute : String × String → Action Terminal Unit
show_attribute (item, value) = print (text item ∷ text value ∷ [])

abbrev pub vm_and_node : ℕ × Node → Action Center (Vm × Node)
vm_and_node (r, node) = do vm ← get_vm r; pure (vm, node)

abbrev pub detail_of : String → Action Center (Vm × Node)
detail_of name = get_detail name >>= vm_and_node

unfoldable pub show_detail : String → Action Terminal Unit
show_detail name = do
  (vm, wn) ← rpc (detail_of name)
  print (text "VM information:" ∷ [])
  for_each (vm_fields vm) show_field
  print (text "WN information:" ∷ [])
  for_each wn show_attribute

abbrev pub show_method : Introspection → String → Action Terminal Unit
show_method server method = do
  print (text (server.help method) ∷ [])
  print (text (server.signature method) ∷ [])

unfoldable pub show_methods : Introspection → Action Terminal Unit
show_methods server = do
  methods ← rpc (pure server.methods)
  print (Cell.words methods ∷ [])
  for_each methods (show_method server)

-- The line of a VM in TORQUE's file of nodes.
abbrev pub properties_of : Option Node → Action Terminal String
properties_of none = pure ""
properties_of (some node) = or_raise (lookup "properties" node) key_error

abbrev pub list_vm : List Node → Vm → Action Terminal Unit
list_vm worker_nodes vm = do
  worker_node ← from_result (node_named vm.hostname worker_nodes)
  wn_property ← properties_of worker_node
  print (text vm.hostname ∷ count vm.vcpu_number ∷ text wn_property ∷ [])

unfoldable pub show_list : Action Terminal Unit
show_list = do
  info ← rpc (gets get_info)
  for_each info.existing_instances (list_vm info.worker_nodes)

-- `tenant is not False and vm['cloud_resource_name'] != tenant`
abbrev pub is_other : Option String → Vm → Bool
is_other none vm = false
is_other (some tenant) vm = not (str_eq vm.cloud_resource_name tenant)

abbrev pub show_ip : Option String → Action Terminal Unit
show_ip none = pure tt
show_ip (some ip) = print (text ip ∷ [])

abbrev pub list_address : Option String → Vm → Action Terminal Unit
list_address tenant vm = if is_other tenant vm then pure tt else show_ip vm.ip

unfoldable pub show_listnew : Option String → Action Terminal Unit
show_listnew tenant = do
  info ← rpc (gets get_info)
  for_each info.existing_instances (list_address tenant)
  for_each info.starting_instances (list_address tenant)

abbrev pub add_np : ℕ → Node → Action Terminal ℕ
add_np n node = do
  np ← or_raise (lookup "np" node) key_error
  k ← or_raise (to_number np) value_error
  pure (n + k)

abbrev pub add_zone : List (String × ℕ) → Option String × ℕ → Action Terminal (List (String × ℕ))
add_zone zones (none, n) = from_result (err type_error)
add_zone zones (some zone, n) = pure (zones ++ ((zone, n) ∷ []))

abbrev pub metric : String × ℕ → Action Terminal Unit
metric (key, n) = print (text key ∷ count n ∷ [])

-- The lines with a number, in order.
abbrev pub metrics : CenterInfo → ℕ → List (String × ℕ)
metrics info np =
    ("total_pbs_cores", np)
    ∷ ("idle_jobs_num", info.total_number_of_idle_jobs)
    ∷ ("running_cores", running_cores info.running_jobs)
    ∷ ("active_cores", cores info.existing_instances)
    ∷ ("active_dynamic_cores", cores_if (λ vm. vm.dynamic) info.existing_instances)
    ∷ ("active_static_cores", cores_if (λ vm. not vm.dynamic) info.existing_instances)
    ∷ ("deleting_cores", cores info.deleting_instances)
    ∷ ("starting_cores", cores info.starting_instances)
    ∷ (
      "total_cloud_cores",
      cores info.existing_instances + cores info.deleting_instances + cores info.starting_instances,
    )
    ∷ (
      "total_cloud_vms",
      length info.existing_instances
          + length info.deleting_instances
          + length info.starting_instances,
    )
    ∷ []

-- A zone that is `None` cannot be put into the text of the line.
unfoldable pub show_zones : CenterInfo → Action Terminal Unit
unfolding tally
show_zones info = do
  zones ← fold_each (tally (λ vm. vm.availability_zone) info.existing_instances []) [] add_zone
  print (text "zone_stat" ∷ amounts zones ∷ [])

-- The metrics for Ganglia.
unfoldable pub show_ganglia : Action Terminal Unit
unfolding show_zones
show_ganglia = do
  info ← rpc (gets get_info)
  np ← fold_each info.worker_nodes 0 add_np
  for_each (metrics info np) metric
  show_zones info
