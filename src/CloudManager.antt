-- ===== src/CloudManager.antt =====
-- The class `CloudManager` of dynamictorque/cloud_management.py: the choice of the cloud, and the
-- flavors of each resource. Its `load_all_existing_worker_nodes` is in Center/Load.
pub mod Flavors
use dynamictorque.Base.{String, Bool, Option, List, [], ◌∷◌, ◌++◌, any, str_eq, if◌then◌else◌}
use dynamictorque.Base.Sort.{sort_by}
use dynamictorque.Base.Dict.{lookup}
use dynamictorque.Base.Action.{
  Action, ok, key_error, attribute_error, pure, raise, gets, or_raise, for_each, ◌>>=◌,
}
use dynamictorque.CloudTools.{VmFlavor, CloudResource, FlavorNames, smaller_first}
use dynamictorque.Config.{Config, keys, with_resource}
use dynamictorque.Commands.{contains_text}

-- `name in flavor_names`: of a text, whether it is a part of it.
abbrev pub is_named : FlavorNames → String → Bool
is_named (FlavorNames.names ns) name = any (str_eq name) ns
is_named (FlavorNames.text t) name = contains_text name t

abbrev pub append_flavor : VmFlavor → Action CloudResource Unit
append_flavor f r = (ok tt, record r { flavor_objects = r.flavor_objects ++ (f ∷ []) })

abbrev pub add_if_named : String → FlavorNames → VmFlavor → Action Config Unit
add_if_named resource flavor_names flavor =
    if is_named flavor_names flavor.name
    then with_resource resource (append_flavor flavor)
    else pure tt

-- The body of the loop on the resources.
unfoldable pub init_resource : List VmFlavor → String → Action Config Unit
init_resource flavors resource = do
  c ← gets (λ c. c)
  res ← or_raise (lookup resource c.cloud_resources) key_error
  for_each flavors (add_if_named resource res.worker_node_flavors)

-- `flavors` are those that the cloud answers.
unfoldable pub init_cloud_resources : List VmFlavor → Action Config Unit
unfolding init_resource
init_cloud_resources flavors = do
  c ← gets (λ c. c)
  for_each (keys c.cloud_resources) (init_resource (sort_by smaller_first flavors))

-- With another `cloud_type` there is no cloud to ask for its flavors.
unfoldable pub new_cloud_manager : (cloud_type : String) → List VmFlavor → Action Config Unit
unfolding init_cloud_resources
new_cloud_manager cloud_type flavors =
    if str_eq cloud_type "OpenStack" then init_cloud_resources flavors else raise attribute_error
