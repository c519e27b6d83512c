-- ===== src/Center/Load.antt =====
-- `_load_existing_worker_nodes`: what the center takes over when it starts. Every VM that the cloud
-- lists becomes an object that exists, and is then kept, taken as starting, or destroyed.
use dynamictorque.Base.{
  ℕ, ◌-◌, String, Bool, true, false, not, ◌&&◌, ◌||◌, Option, none, some, List, [], ◌∷◌, ◌++◌, ltb,
  ◌==◌, any, filter, str_eq, opt_str_eq, length, if◌then◌else◌,
}
use dynamictorque.Base.Int.{sub_ℕ}
use dynamictorque.Base.Dict.{lookup, has_key}
use dynamictorque.Base.Action.{
  Action, ok, err, key_error, index_error, value_error, attribute_error, pure, raise, gets,
  or_raise, from_result, modify, fold_each, for_each, ◌>>=◌, ◌>>◌,
}
use dynamictorque.CloudTools.{Vm, VmFlavor, CloudResource, StaticVms, ProvisionVm, new_vm}
use dynamictorque.CloudTools.Static.{need_more, get_provision_list}
use dynamictorque.Config.{keys, with_resource}
use dynamictorque.World.{World}
use dynamictorque.Commands.{
  Node, wn_query, contains_text, read_nodes_from_persistent_file, remove_node_from_torque,
}
use dynamictorque.Cloud.{Cloud}
use dynamictorque.Center.State.{
  Center, lift, on_config, config, get_vm, vm_list, vm_destroy, remove_existing, append_starting,
  append_deleting, set_provisioning, find_wn_from_vm, find_vm_from_wn,
}
use dynamictorque.Center.Launch.{launch_instances}

-- `to_starting` and `to_delete`
pub record Fates : Type 0 where
  pub to_starting : List ℕ
  pub to_delete : List ℕ

abbrev pub starting_too : ℕ → Fates → Fates
starting_too r o = record o { to_starting = o.to_starting ++ (r ∷ []) }

abbrev pub delete_too : ℕ → Fates → Fates
delete_too r o = record o { to_delete = o.to_delete ++ (r ∷ []) }

abbrev pub no_fates : Fates
no_fates = record { to_starting = []; to_delete = [] }

abbrev has_entries : Node → Node → Bool
has_entries [] b = true
has_entries ((k, v) ∷ a) b = opt_str_eq (lookup k b) (some v) && has_entries a b

-- `==` on two dicts, whose keys are distinct
abbrev pub node_eq : Node → Node → Bool
node_eq a b = (length a == length b) && has_entries a b

abbrev push_node : Node → Option (List Node) → Option (List Node)
push_node wn none = none
push_node wn (some l) = some (wn ∷ l)

unfoldable pub remove_node : Node → List Node → Option (List Node)
remove_node wn [] = none
remove_node wn (other ∷ nodes) =
    if node_eq wn other then some nodes else push_node other (remove_node wn nodes)

-- `self.worker_nodes.remove(wn)`
unfoldable pub remove_worker_node : Node → Action Center Unit
unfolding remove_node
remove_worker_node wn s = elim (remove_node wn s.worker_nodes) [
  | none ↦ (err value_error, s)
  | some l ↦ (ok tt, record s { worker_nodes = l })
]

-- `"offline" in wn['state'] or "down" in wn['state']`
abbrev pub is_out : String → Bool
is_out state = contains_text "offline" state || contains_text "down" state

abbrev pub is_outdated : Vm → Action Center Bool
is_outdated vm = do
  c ← config
  res ← or_raise (lookup vm.cloud_resource_name c.cloud_resources) key_error
  pure (not (opt_str_eq vm.image_id (some res.image_uuid)))

abbrev pub judge_node : ℕ → Vm → Node → Fates → Action Center Fates
judge_node r vm wn o = do
  outdated ← if has_key "jobs" wn then pure false else is_outdated vm
  if outdated then pure (delete_too r o) else (do
    state ← or_raise (lookup "state" wn) key_error
    pure (if is_out state then delete_too r o else o))

-- A VM with an address, by the node of its name.
abbrev pub by_wn : List String → ℕ → Vm → Fates → Option Node → Action Center Fates
by_wn persistent_nodes r vm o none =
    pure (if any (str_eq vm.hostname) persistent_nodes then starting_too r o else delete_too r o)
by_wn persistent_nodes r vm o (some wn) = judge_node r vm wn o

abbrev pub by_ip : Option String → ℕ → Fates → Action Center Fates → Action Center Fates
by_ip none r o by_node = pure (delete_too r o)
by_ip (some ip) r o by_node = by_node

-- The body of the loop on the VMs.
unfoldable pub classify : List String → Fates → ℕ → Action Center Fates
classify persistent_nodes o r = do
  vm ← get_vm r
  by_ip vm.ip r o (do the_wn ← find_wn_from_vm vm; by_wn persistent_nodes r vm o the_wn)

-- `VM("0","dummy")` with the node's name
abbrev dummy_vm : String → Vm
dummy_vm name = record (new_vm "0" "dummy" none none 0 none none none none "default") {
  hostname = name;
}

abbrev pub take_as_starting : ℕ → Action Center Unit
take_as_starting r = remove_existing r >> append_starting r

-- The comparison of the flavors reads `worker_node_flavor`, which no `CloudResource` has.
abbrev pub mark_static : List ℕ → Action Center Unit
mark_static [] = pure tt
mark_static (r ∷ rs) = raise attribute_error

abbrev pub has_jobs : Option Node → Bool
has_jobs none = false
has_jobs (some wn) = has_key "jobs" wn

abbrev pub reverse_onto : List ℕ → List ℕ → List ℕ
reverse_onto acc [] = acc
reverse_onto acc (r ∷ rs) = reverse_onto (r ∷ acc) rs

abbrev pub first_flavor : List VmFlavor → Option VmFlavor
first_flavor [] = none
first_flavor (f ∷ fs) = some f

abbrev pub set_left : ℕ → CloudResource → CloudResource
set_left n res = record res {
  available_number_of_nodes = sub_ℕ res.number_of_dynamic_worker_nodes n;
}

abbrev pub add_requests : List ProvisionVm → Center → Center
add_requests ps s = record s { provision_waiting_list = s.provision_waiting_list ++ ps }

-- The requests for the static VMs that are missing.
abbrev pub request_static : String → CloudResource → StaticVms → Action Center Unit
request_static name res statics = do
  flavor ← or_raise (first_flavor res.flavor_objects) index_error
  c ← config
  ps ← from_result (get_provision_list flavor name c.location_properties statics)
  modify (add_requests ps)

abbrev pub of_resource : String → Center → List ℕ
of_resource name s = filter (λ r. str_eq (s.heap r).cloud_resource_name name) s.existing_instances

abbrev pub num_dynamic : List ℕ → Center → ℕ
num_dynamic vms s = length (filter (λ r. (s.heap r).dynamic) vms)

abbrev pub set_nodes : Bool × List Node → Center → Center
set_nodes nodes s = record s {
  pbs_server_up = nodes.0;
  worker_nodes = nodes.1;
  number_of_wn = length (nodes.1);
}

abbrev pub set_existing : List ℕ → Center → Center
set_existing existing s = record s { existing_instances = existing }

module _ (w : World) (cloud : Cloud) where
  unfoldable pub load_all_existing_worker_nodes : Action Center (List ℕ)
  load_all_existing_worker_nodes = do
    c ← config
    fold_each (keys c.cloud_resources) []
        (λ existing res. do vms ← vm_list cloud res; pure (existing ++ vms))

  -- A node without a VM.
  abbrev pub unless_up : List Node → Node → Action Center (List Node)
  unless_up wn_to_delete wn = do
    state ← or_raise (lookup "state" wn) key_error
    if is_out state
        then (do
          name ← or_raise (lookup "name" wn) key_error
          lift (remove_node_from_torque w (dummy_vm name))
          pure (wn_to_delete ++ (wn ∷ [])))
        else pure wn_to_delete

  abbrev pub by_vm : Option ℕ → List Node → Node → Action Center (List Node)
  by_vm none wn_to_delete wn = unless_up wn_to_delete wn
  by_vm (some r) wn_to_delete wn = pure wn_to_delete

  -- The body of the loop on the worker nodes, which answers `wn_to_delete`.
  unfoldable pub remove_orphan : List Node → Node → Action Center (List Node)
  remove_orphan wn_to_delete wn = do vm ← find_vm_from_wn wn; by_vm vm wn_to_delete wn

  abbrev pub destroy : ℕ → Action Center Unit
  destroy r = do vm_destroy cloud r; remove_existing r; append_deleting r

  -- The loop that destroys idle VMs above the limit. The last VM is the first to go: `vms` are
  -- those that are left, in reverse. The answer is `num_of_instances`.
  unfoldable pub trim : ℕ → ℕ → List ℕ → Action Center ℕ
  trim limit n [] = if ltb limit n then raise index_error else pure n
  trim limit n (r ∷ vms) =
      if ltb limit n
      then (do
        vm ← get_vm r
        wn ← find_wn_from_vm vm
        if not vm.dynamic || has_jobs wn
            then trim limit n vms
            else (do destroy r; trim limit (n - 1) vms))
      else pure n

  -- The body of the loop on the resources.
  unfoldable pub balance : String → Action Center Unit
  unfolding trim
  balance name = do
    vms ← gets (of_resource name)
    c ← config
    res ← or_raise (lookup name c.cloud_resources) key_error
    statics ← or_raise res.static_vms_to_start attribute_error
    if need_more statics then mark_static vms else pure tt
    num_of_instances ← gets (num_dynamic vms)
    left ← trim res.number_of_dynamic_worker_nodes num_of_instances (reverse_onto [] vms)
    lift (on_config (with_resource name (λ r. (ok tt, set_left left r))))
    if need_more statics then request_static name res statics else pure tt

  unfoldable pub sort_out : Action Center Fates
  unfolding classify remove_orphan remove_worker_node
  sort_out = do
    persistent_nodes ← lift (read_nodes_from_persistent_file w)
    nodes ← lift (wn_query w)
    modify (set_nodes nodes)
    existing ← gets (λ s. s.existing_instances)
    fates ← fold_each existing no_fates (classify persistent_nodes)
    wn_to_delete ← fold_each (nodes.1) [] remove_orphan
    for_each wn_to_delete remove_worker_node
    pure fates

  unfoldable pub after_load : Action Center Unit
  unfolding sort_out balance
  after_load = do
    fates ← sort_out
    for_each fates.to_starting take_as_starting
    for_each fates.to_delete destroy
    c ← config
    for_each (keys c.cloud_resources) balance
    starting ← gets (λ s. s.starting_instances)
    if ltb 0 (length starting) then set_provisioning true else pure tt
    waiting ← gets (λ s. s.provision_waiting_list)
    if ltb 0 (length waiting) then launch_instances cloud else pure tt

  unfoldable pub load_existing_worker_nodes : Action Center Unit
  unfolding load_all_existing_worker_nodes after_load
  load_existing_worker_nodes = do
    existing ← load_all_existing_worker_nodes
    modify (set_existing existing)
    after_load
