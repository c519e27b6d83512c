-- ===== src/Config/Resources.antt =====
-- `parse_cloud_resources_config_file` of dynamictorque/config.py.
use dynamictorque.Base.{ℕ, String, Bool, false, Option, none, some, []}
use dynamictorque.Base.Int.{pos}
use dynamictorque.Base.Dict.{Dict, lookup, insert}
use dynamictorque.Base.Action.{
  Action, Result, ok, err, name_error, system_exit, value_error, gets, or_raise, modify, for_each,
  when_some, ◌>>=◌, ◌>>◌,
}
use dynamictorque.CloudTools.{CloudResource, FlavorNames, StaticVms}
use dynamictorque.Config.{parse_static_worker_nodes}
use dynamictorque.Config.File.{File, Parser}

-- The function's variables: `account_string` and `static_worker_nodes` keep their values from one
-- section to the next, and have none before the first that sets them.
pub record Parsing : Type 0 where
  pub account_string : Option String
  pub static_worker_nodes : Option String
  pub cloud_resources : Dict CloudResource

-- The settings that are read before.
pub record Defaults : Type 0 where
  pub cloud_image_uuid : String
  pub cloud_vm_userdata_file : String
  pub location_properties : Dict String
  pub cloud_availability_zone : String

abbrev pub or_default : Option String → String → String
or_default none default = default
or_default (some s) default = s

abbrev boolean : Option Bool → Bool
boolean none = false
boolean (some b) = b

-- `CloudResource(...)`
abbrev pub new_resource :
    (username password tenant_name image_uuid user_data_file : String) (flavors : FlavorNames)
    (static_worker_nodes : String) (number : ℕ) (statics : Option StaticVms)
    (account_string : Option String) (has_volume : Bool) (reservation_type : String)
    → CloudResource
new_resource username password tenant_name image_uuid user_data_file flavors static_worker_nodes
      number statics account_string has_volume reservation_type =
    record {
      username = username;
      password = password;
      tenant_name = tenant_name;
      image_uuid = image_uuid;
      user_data_file = user_data_file;
      worker_node_flavors = flavors;
      static_worker_nodes = static_worker_nodes;
      number_of_dynamic_worker_nodes = number;
      flavor_objects = [];
      static_vms_to_start = statics;
      available_number_of_nodes = pos number;
      account_string = account_string;
      has_volume = has_volume;
      reservation_type = reservation_type;
    }

abbrev pub set_statics : Option String → Parsing → Parsing
set_statics none p = p
set_statics (some nodes) p = record p { static_worker_nodes = some nodes }

abbrev pub set_account : Option String → Parsing → Parsing
set_account none p = p
set_account (some account) p = record p { account_string = some account }

module _ (parser : Parser) (d : Defaults) where
  -- `getint`, or 1 if the option is not there
  abbrev number_of : Option String → Result ℕ
  number_of none = ok 1
  number_of (some s) = elim (parser.to_nat s) [ none ↦ err value_error | some n ↦ ok n ]

  abbrev statics_of : Option String → Option StaticVms
  statics_of none = some []
  statics_of (some nodes) =
      parse_static_worker_nodes d.location_properties d.cloud_availability_zone nodes

  -- `has_volume`: a text that is no Boolean is only reported.
  abbrev volume_of : Option String → Bool
  volume_of none = false
  volume_of (some s) = boolean (parser.to_bool s)

  abbrev pub add_resource : String → CloudResource → Parsing → Parsing
  add_resource resource r p = record p { cloud_resources = insert resource r p.cloud_resources }

  -- The resource of a section that has credentials.
  abbrev pub parse_resource :
      (resource username password tenant : String) → Dict String → Action Parsing Unit
  parse_resource resource username password tenant options = do
    number ← λ p. (number_of (lookup "number_of_dynamic_worker_nodes" options), p)
    modify (set_statics (lookup "static_worker_nodes" options))
    modify (set_account (lookup "account_string" options))
    statics ← gets (λ p. p.static_worker_nodes)
    static_worker_nodes ← or_raise statics name_error
    account ← gets (λ p. p.account_string)
    account_string ← or_raise account name_error
    modify (
        add_resource resource (
          new_resource username password tenant
            (or_default (lookup "cloud_image_uuid" options) d.cloud_image_uuid)
            (or_default (lookup "cloud_vm_userdata_file" options) d.cloud_vm_userdata_file)
            (FlavorNames.text (or_default (lookup "worker_node_flavor" options) "m1.small"))
            static_worker_nodes number (statics_of (lookup "static_worker_nodes" options))
            (some account_string) (volume_of (lookup "has_volume" options))
            (or_default (lookup "reservation_type" options) "account")))

  -- The body of the loop on the sections. A section without credentials is passed over.
  unfoldable pub parse_section : String × Dict String → Action Parsing Unit
  parse_section (resource, options) = when_some (lookup "cloud_username" options) (λ username.
      when_some (lookup "cloud_password" options) (λ password.
        when_some (lookup "cloud_tenant_name" options)
          (λ tenant. parse_resource resource username password tenant options)))

  abbrev pub no_resources : Parsing
  no_resources = record { account_string = none; static_worker_nodes = none; cloud_resources = [] }

  abbrev resources_of : Result Unit × Parsing → Result (Dict CloudResource)
  resources_of (ok u, p) = ok p.cloud_resources
  resources_of (err e, p) = err e

  abbrev pub parse_sections : Result File → Result (Dict CloudResource)
  parse_sections (err e) = err system_exit
  parse_sections (ok file) = resources_of (for_each file parse_section no_resources)

  unfoldable pub parse_cloud_resources_config_file : String → Result (Dict CloudResource)
  unfolding parse_section
  parse_cloud_resources_config_file location =
      parse_sections (parser.parse (parser.expand_user location))
