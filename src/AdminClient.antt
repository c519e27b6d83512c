-- ===== src/AdminClient.antt =====
-- The command line client admin.py: which of its commands runs, what it prints and how it exits.
-- The connection to the info server and its introspection are parameters; the server's methods are
-- those of the resource center.
pub mod Console
pub mod Usage
pub mod Shows
pub mod Exits
pub mod Reads
pub mod Metrics
use dynamictorque.Base.{
  ℕ, zero, suc, ◌+◌, String, Bool, true, false, not, ◌&&◌, Option, none, some, List, [], ◌∷◌, ◌++◌,
  length, str_eq, to_number, if◌then◌else◌, ltb,
}
use dynamictorque.Base.Dict.{Dict, lookup}
use dynamictorque.Base.Action.{
  Action, Result, Error, ok, err, key_error, value_error, type_error, socket_error, pure, gets,
  or_raise, from_result, fold_each, for_each, ◌>>=◌, ◌>>◌,
}
use dynamictorque.CloudTools.{Vm}
use dynamictorque.World.{World}
use dynamictorque.Commands.{Node, node_named}
use dynamictorque.Cloud.{Cloud}
use dynamictorque.Center.State.{Center, get_vm}
use dynamictorque.Center.Admin.{get_detail, forceoff, toggle_sleep_mode}
use dynamictorque.Daemon.{kill}
use dynamictorque.Info.{CenterInfo, get_info, Stat, tally, cores, cores_if, running_cores}
use dynamictorque.AdminClient.Console.{
  Cell, text, maybe, count, flag, instant, amounts, raised, object, Line, Terminal, print, rpc,
}
use dynamictorque.AdminClient.Usage.{print_info}
use dynamictorque.AdminClient.Shows.{
  Introspection, show_detail, show_methods, show_list, show_listnew, show_ganglia,
}

-- The options of the command line. An option that takes a value is `none` if it is not given.
pub record Options : Type 0 where
  pub info : Bool
  pub continuous : Option String
  pub kill : Option String
  pub detail : Option String
  pub method : Bool
  pub list : Bool
  pub listnew : Bool
  pub tenant : Option String
  pub forceoff : Bool
  pub ganglia : Bool
  pub sleep : Bool

-- The value of an option as a condition: the empty text is false.
abbrev pub given : Option String → Bool
given none = false
given (some s) = not (str_eq s "")

-- `n` is how many rounds pass until the user interrupts them.
unfoldable pub watch_info : String → ℕ → Action Terminal ℕ
unfolding print_info
watch_info seconds zero = do print (text "Bye" ∷ []); pure 0
watch_info seconds (suc n) = do
  print_info
  or_raise (to_number seconds) value_error
  watch_info seconds n

abbrev pub show_info : Option String → ℕ → Action Terminal ℕ
unfolding watch_info print_info
show_info none n = do print_info; pure 0
show_info (some seconds) n =
    if str_eq seconds "" then (do print_info; pure 0) else watch_info seconds n

abbrev pub killed : ℕ × String → Action Terminal ℕ
killed (rt, msg) =
    if ltb 0 rt
    then (do print (text "ERROR" ∷ text msg ∷ []); pure 1)
    else (do print (text "Done" ∷ []); pure 0)

abbrev pub value : Option String → String
value none = ""
value (some s) = s

-- What is printed if anything raises.
abbrev pub complaint : Error → Line
complaint socket_error = text "couldn't connect to vm pool" ∷ []
complaint e = text "Unexpected error" ∷ raised e ∷ []

abbrev pub exit_code : Result ℕ × Terminal → ℕ × Terminal
exit_code (ok n, t) = (n, t)
exit_code (err e, t) = (
  1,
  record t {
    printed = t.printed ++ (complaint e ∷ []) ++ ((text "Is the vm pool running?" ∷ []) ∷ []);
  },
)

module _ (w : World) (cloud : Cloud) (str : Error → String) (server : Introspection)
    (interrupted : ℕ) where
  unfoldable pub kill_node : String → Action Terminal ℕ
  kill_node name = do
    print (text "killing" ∷ text name ∷ [])
    answer ← rpc (kill w cloud str name)
    killed answer

  -- The first option that is given decides.
  unfoldable pub command : Options → Action Terminal ℕ
  unfolding kill_node show_detail show_methods show_list show_listnew show_ganglia
  command o =
      if o.info
      then show_info o.continuous interrupted
      else if given o.kill
      then kill_node (value o.kill)
      else if given o.detail
      then show_detail (value o.detail) >> pure 0
      else if o.method
      then show_methods server >> pure 0
      else if o.list
      then show_list >> pure 0
      else if o.listnew
      then show_listnew o.tenant >> pure 0
      else if o.forceoff
      then (do
        print (text "Trying to shut down all worker nodes" ∷ [])
        rpc (forceoff w cloud)
        print (text "Done" ∷ [])
        pure 0)
      else if o.ganglia
      then show_ganglia >> pure 0
      else if o.sleep
      then (do rpc toggle_sleep_mode; print (text "Done" ∷ []); pure 0)
      else (do print (text "Run info.py -h for help." ∷ []); pure 0)

  -- The exit code.
  unfoldable pub main : Options → Terminal → ℕ × Terminal
  unfolding command
  main o t = exit_code (command o t)
