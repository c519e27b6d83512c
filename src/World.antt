-- ===== src/World.antt =====
-- What the program talks to: other programs, the clock, the file system and the XML parser. Each
-- answers as a function of the calls that were made before, so that it may answer differently
-- every time.
use dynamictorque.Base.{ℕ, String, Option, List, ◌∷◌}
use dynamictorque.Base.Int.{ℤ}
use dynamictorque.Base.Dict.{Dict}
use dynamictorque.Base.Action.{Action, Result, ok}
use dynamictorque.Config.{Config}

-- The command lines of dynamictorque/config.py, which are filled in with arguments, and the two
-- that are written in local_commands.py.
pub data Tool : Type 0 where
  pbsnodes qstat diagnose checknode add_node remove_node set_node setres releaseres : Tool
  post_add_node post_remove_node post_vm_provision post_vm_destroy : Tool
  sed_hosts ssh_keygen : Tool

pub data Arg : Type 0 where
  text : String → Arg
  number : ℕ → Arg

pub record Process : Type 0 where
  pub returncode : ℤ
  pub out : String
  pub err : String

-- What has been done to the outside, with the answers. A VM is named by its reference.
pub data Event : Type 0 where
  ran : Tool → List Arg → Event
  wrote_hosts : Option String → String → Event
  dumped_nodes : List (String × ℕ × String) → Event
  checked : (vm : ℕ) (answer : Result ℕ) → Event
  destroyed : (vm : ℕ) → Event
  start_failed : Event
  started : (vm : ℕ) → Event
  opened_port closed_port : (resource ip : String) → Event
  listed : (resource : String) → Event

abbrev pub Trace : Type 0
Trace = List Event

-- A tree of XML, as deep as the program reads it.
pub record Child : Type 0 where
  pub tag : String
  pub text : Option String
  pub grandchildren : Dict String

pub record Item : Type 0 where
  pub tag : String
  pub children : List Child

-- `run` is `none` if the process cannot be started, and `parse_xml` if the text is no XML. `now`
-- is the clock in seconds.
pub record World : Type 0 where
  pub run : Trace → Tool → List Arg → Option Process
  pub parse_xml : String → Option (List Item)
  pub now : Trace → ℕ
  pub draw : ℕ → ℕ → ℕ
  pub nodes_file : Trace → List String

-- What the functions of local_commands.py read and change.
pub record Shell : Type 0 where
  pub config : Config
  pub trace : Trace

abbrev pub log_event : Event → Action Shell Unit
log_event e s = (ok tt, record s { trace = e ∷ s.trace })

-- A subprocess: it is recorded, and its answer is the world's.
unfoldable pub popen : World → Tool → List Arg → Action Shell (Option Process)
popen w tool args s = (ok (w.run s.trace tool args), record s { trace = ran tool args ∷ s.trace })
