-- ===== src/AdminClient/Console.antt =====
-- What admin.py runs on: the info server, which calls the resource center, and the screen.
use dynamictorque.Base.{ℕ, String, Bool, Option, List, [], ◌∷◌, ◌++◌, if◌then◌else◌}
use dynamictorque.Base.Int.{ℤ}
use dynamictorque.Base.Action.{Action, Error, socket_error, raise, modify}
use dynamictorque.CloudTools.{ProvisionVm}
use dynamictorque.Center.State.{Center}

-- A part of a line; widths and capitals are left out. `timed` is a node's state with its seconds,
-- and `object` what is printed of an instance of a class.
pub data Cell : Type 0 where
  text : String → Cell
  maybe : Option String → Cell
  count : ℕ → Cell
  integer : ℤ → Cell
  flag : Bool → Cell
  timed : String → ℕ → Cell
  instant : Option ℕ → Cell
  words : List String → Cell
  amounts : List (String × ℕ) → Cell
  waiting : List ProvisionVm → Cell
  raised : Error → Cell
  object : Cell

abbrev pub Line : Type 0
Line = List Cell

-- `reached` is whether the server answers at all; what it answers arrives as it is.
pub record Terminal : Type 0 where
  pub center : Center
  pub reached : Bool
  pub printed : List Line

abbrev pub print : Line → Action Terminal Unit
print line = modify (λ t. record t { printed = t.printed ++ (line ∷ []) })

-- A call of a method of the server. An exception there is one here.
abbrev called : {A : Type 0} → Action Center A → Action Terminal A
called m t = let (r, s) = m t.center in (r, record t { center = s })

unfoldable pub rpc : {A : Type 0} → Action Center A → Action Terminal A
rpc m t = if t.reached then called m t else raise socket_error t
