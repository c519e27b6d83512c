-- ===== src/AdminClient/Usage.antt =====
-- `print_info` of admin.py. Of the lines it prints, the headings of columns, rulers, empty lines and
-- the time of the query are left out.
use dynamictorque.Base.{
  String, not, ◌&&◌, ◌||◌, Option, none, some, List, [], ◌∷◌, ◌++◌, str_eq, any, split, split_first,
  if◌then◌else◌,
}
use dynamictorque.Base.Dict.{Dict, lookup, has_key}
use dynamictorque.Base.Action.{
  Action, key_error, index_error, name_error, pure, gets, or_raise, from_result, fold_each,
  for_each, ◌>>=◌, ◌>>◌,
}
use dynamictorque.CloudTools.{Vm, CloudResource, FlavorNames}
use dynamictorque.JobScheduler.{Job}
use dynamictorque.Commands.{Node, node_named, strip}
use dynamictorque.Center.Load.{node_eq}
use dynamictorque.Info.{CenterInfo, get_info}
use dynamictorque.AdminClient.Console.{
  Cell, text, maybe, count, integer, flag, timed, words, waiting, object, Line, Terminal, print,
  rpc,
}

abbrev pub flavors_cell : FlavorNames → Cell
flavors_cell (FlavorNames.names ns) = words ns
flavors_cell (FlavorNames.text t) = text t

-- A `CloudResource` over XML-RPC: the dict of its attributes.
abbrev pub resource_fields : CloudResource → Dict Cell
resource_fields r =
    ("username", text r.username)
    ∷ ("password", text r.password)
    ∷ ("tenant_name", text r.tenant_name)
    ∷ ("image_uuid", text r.image_uuid)
    ∷ ("user_data_file", text r.user_data_file)
    ∷ ("worker_node_flavors", flavors_cell r.worker_node_flavors)
    ∷ ("static_worker_nodes", text r.static_worker_nodes)
    ∷ ("number_of_dynamic_worker_nodes", count r.number_of_dynamic_worker_nodes)
    ∷ ("flavor_objects", object)
    ∷ ("static_vms_to_start", object)
    ∷ ("available_number_of_nodes", integer r.available_number_of_nodes)
    ∷ ("account_string", maybe r.account_string)
    ∷ ("has_volume", flag r.has_volume)
    ∷ ("reservation_type", text r.reservation_type)
    ∷ []

abbrev second : List String → Option String
second [] = none
second (a ∷ []) = none
second (a ∷ b ∷ more) = some b

-- `(j.strip().split(".")[0]).split("/")[1]`
abbrev pub job_number : String → Action Terminal String
job_number j = or_raise (second (split b'/' (split_first b'.' (strip j)))) index_error

abbrev add_number : List String → String → Action Terminal (List String)
add_number numbers j = do n ← job_number j; pure (numbers ++ (n ∷ []))

abbrev numbers_of : Option String → Action Terminal (List String)
numbers_of none = pure []
numbers_of (some jobs) = fold_each (split b',' jobs) [] add_number

abbrev dashes : Cell
dashes = text "---"

abbrev jobs_cell : List String → Cell
jobs_cell [] = dashes
jobs_cell (n ∷ ns) = words (n ∷ ns)

unfoldable pub running_jobs : Node → Action Terminal Cell
running_jobs wn = do numbers ← numbers_of (lookup "jobs" wn); pure (jobs_cell numbers)

-- The state of an existing VM's node, with the time in it if it is idle or down.
abbrev pub wn_state : Vm → Node → String → Cell
wn_state vm wn state = elim vm.state_time [
  | none ↦ text state
  | some n ↦
      if ((str_eq state "free" && not (has_key "jobs" wn)) || str_eq state "down") && vm.dynamic
      then timed state n
      else text state
]

abbrev pub vm_line : String → Vm → Cell → Cell → Line
vm_line kind vm state jobs =
    text kind
    ∷ text vm.name
    ∷ maybe vm.ip
    ∷ text vm.hostname
    ∷ count vm.vcpu_number
    ∷ maybe vm.state
    ∷ state
    ∷ jobs
    ∷ []

-- The columns of a VM that its worker node gives.
abbrev existing_cells : Vm → Option Node → Action Terminal (Cell × Cell)
existing_cells vm none = pure (dashes, dashes)
existing_cells vm (some wn) = do
  state ← or_raise (lookup "state" wn) key_error
  jobs ← running_jobs wn
  pure (wn_state vm wn state, jobs)

abbrev starting_cells : Vm → Option Node → Action Terminal (Cell × Cell)
starting_cells vm none = pure (dashes, dashes)
starting_cells vm (some wn) = do
  state ← or_raise (lookup "state" wn) key_error
  pure (text state, dashes)

-- The state with its time is overwritten by the plain one.
abbrev deleting_cells : Vm → Option Node → Action Terminal (Cell × Cell)
deleting_cells vm none = pure (dashes, dashes)
deleting_cells vm (some wn) = do
  state ← or_raise (lookup "state" wn) key_error
  jobs ← running_jobs wn
  pure (text state, jobs)

abbrev with_node : Option Node → List Node → List Node
with_node none internal = internal
with_node (some wn) internal = internal ++ (wn ∷ [])

-- The body of a loop on VMs, which collects the nodes of VMs.
unfoldable pub show_vm :
    (Vm → Option Node → Action Terminal (Cell × Cell))
    → (Vm → String)
    → String
    → List Node
    → List Node
    → Vm
    → Action Terminal (List Node)
unfolding running_jobs
show_vm cells kind res worker_nodes internal vm =
    if not (str_eq vm.cloud_resource_name res) then pure internal else (do
      worker_node ← from_result (node_named vm.hostname worker_nodes)
      (state, jobs) ← cells vm worker_node
      print (vm_line (kind vm) vm state jobs)
      pure (with_node worker_node internal))

abbrev node_type : Vm → String
node_type vm = if vm.dynamic then "Dynamic" else "Static"

-- The body of the loop on the resources, with `internal_worker_nodes`, and `worker_nodes`, which
-- has no value before it.
unfoldable pub show_resource :
    CenterInfo
    → List Node × Option (List Node)
    → String × CloudResource
    → Action Terminal (List Node × Option (List Node))
unfolding show_vm
show_resource info (internal, before) (res, r) = do
  print (text "Resource Information of Tenant" ∷ text res ∷ [])
  image_uuid ← or_raise (lookup "image_uuid" (resource_fields r)) key_error
  account_string ← or_raise (lookup "account_string" (resource_fields r)) key_error
  flavor ← or_raise (lookup "worker_node_flavor" (resource_fields r)) key_error
  available ← or_raise (lookup "available_number_of_nodes" (resource_fields r)) key_error
  print (image_uuid ∷ account_string ∷ flavor ∷ available ∷ [])
  existing ←
      fold_each info.existing_instances internal
        (show_vm existing_cells node_type res info.worker_nodes)
  starting ←
      fold_each info.starting_instances existing
        (show_vm starting_cells (λ _. "Starting") res info.worker_nodes)
  deleting ←
      fold_each info.deleting_instances starting
        (show_vm deleting_cells (λ _. "Deleting") res info.worker_nodes)
  pure (deleting, some info.worker_nodes)

abbrev physical_line : Node → Action Terminal Unit
physical_line wn = do
  running ← running_jobs wn
  name ← or_raise (lookup "name" wn) key_error
  np ← or_raise (lookup "np" wn) key_error
  state ← or_raise (lookup "state" wn) key_error
  print
      (text "Physical" ∷ dashes ∷ dashes ∷ text name ∷ text np ∷ dashes ∷ text state ∷ running ∷ [])

-- A worker node that no VM is.
unfoldable pub show_physical : List Node → Node → Action Terminal Unit
unfolding running_jobs
show_physical internal wn = if any (node_eq wn) internal then pure tt else physical_line wn

abbrev ncpus : Job → String
ncpus job = elim (lookup "Resource_List.ncpus" job.attrs) [
  | some n ↦ n
  | none ↦ elim (lookup "Resource_List.nodes" job.attrs) [ some n ↦ n | none ↦ "--" ]
]

abbrev walltime : Job → String
walltime job = elim (lookup "Resource_List.walltime" job.attrs) [ some t ↦ t | none ↦ "--" ]

abbrev attribute : String → Job → Action Terminal String
attribute key job = or_raise (lookup key job.attrs) key_error

unfoldable pub show_job : Job → Action Terminal Unit
show_job job = do
  id ← attribute "Job_Id" job
  name ← attribute "Job_Name" job
  user ← attribute "euser" job
  queue ← attribute "queue" job
  priority ← or_raise job.job_priority key_error
  print (
      text id
      ∷ text name
      ∷ text user
      ∷ text queue
      ∷ integer priority
      ∷ text (ncpus job)
      ∷ text (walltime job)
      ∷ [])

abbrev status_line : CenterInfo → Line
status_line info =
    flag info.sleep_mode
    ∷ flag info.pbs_server_up
    ∷ flag info.maui_server_up
    ∷ flag info.provisioning
    ∷ count info.total_number_of_idle_jobs
    ∷ waiting info.provision_waiting_list
    ∷ []

unfoldable pub print_info : Action Terminal Unit
unfolding show_resource show_physical show_job
print_info = do
  info ← rpc (gets get_info)
  print (status_line info)
  (internal, nodes) ← fold_each info.cloud_resources ([], none) (show_resource info)
  worker_nodes ← or_raise nodes name_error
  for_each worker_nodes (show_physical internal)
  print (text "Idle Job Information" ∷ [])
  for_each info.idle_jobs show_job
