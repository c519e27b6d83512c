-- ===== src/OpenStack/Client.antt =====
-- What dynamictorque/openstack_cloud.py uses: novaclient, and the machine that the program runs on.
-- Each answers as a function of the calls that were made before.
use dynamictorque.Base.{ℕ, String, Bool, Option, List}
use dynamictorque.Base.Dict.{Dict}

-- novaclient's objects, as far as they are read.
pub record OsFlavor : Type 0 where
  pub id : String
  pub name : String
  pub vcpus : ℕ
  pub ram : ℕ

-- `vm_state`, `task_state` and `zone` stand for the extensions' attributes, and `addresses` for the
-- values of the dict of that name.
pub record Server : Type 0 where
  pub id : String
  pub name : String
  pub status : String
  pub created : ℕ
  pub vm_state : String
  pub task_state : Option String
  pub addresses : List (List (Dict String))
  pub zone : String
  pub image : Dict String
  pub flavor : Dict String

pub record Rule : Type 0 where
  pub id : String
  pub from_port : ℕ
  pub to_port : ℕ
  pub ip_range : Dict String

pub record SecurityGroup : Type 0 where
  pub id : String
  pub name : String
  pub rules : List Rule

pub record Credentials : Type 0 where
  pub username : String
  pub password : String
  pub tenant_name : String

pub data Call : Type 0 where
  slept : ℕ → Call
  connected : Credentials → Call
  got_server deleted_server got_flavor listed_servers deleted_rule : String → Call
  created_server : (name image flavor userdata zone : String) → Call
  listed_flavors listed_groups : Call
  created_rule : (group protocol : String) (from_port to_port : ℕ) (cidr : String) → Call
  reached : (address : String) (port : ℕ) → Call

-- The answer of a call, or the exception `NotFound`, or another one.
pub data Answer (A : Type 0) : Type 0 where
  found : A → Answer A
  not_found failed : Answer A

-- `failures` is how many attempts to authenticate fail before one succeeds. `none` stands for an
-- exception.
pub record Nova : Type 0 where
  pub failures : List Call → Credentials → ℕ
  pub get_server : List Call → String → Answer Server
  pub delete_server : List Call → String → Answer Unit
  pub get_flavor : List Call → String → Option OsFlavor
  pub list_servers : List Call → String → Option (List Server)
  pub list_flavors : List Call → Option (List OsFlavor)
  pub create_server : List Call → (name image flavor userdata zone : String) → Option Server
  pub list_groups : List Call → Option (List SecurityGroup)

-- `random_index k` is an index below 62, the k-th that is drawn. `render` fills a template in, or
-- raises, and `reachable` says whether a TCP connection can be made.
pub record Machine : Type 0 where
  pub is_file : String → Bool
  pub render : (location minion_id : String) → Option String
  pub random_index : List Call → ℕ → ℕ
  pub reachable : List Call → String → ℕ → Bool
  pub utcnow : List Call → ℕ
