-- ===== src/Config/File.antt =====
-- What dynamictorque/config.py reads its settings from: files that `ConfigParser` has parsed.
use dynamictorque.Base.{ℕ, String, Bool, Option, none, some}
use dynamictorque.Base.Int.{ℤ}
use dynamictorque.Base.Dict.{Dict, lookup}
use dynamictorque.Base.Action.{Action, Result, value_error, modify, or_raise, when_some, ◌>>=◌}

-- The sections with their options.
abbrev pub File : Type 0
File = Dict (Dict String)

-- `parse` reads and parses a file. `to_nat`, `to_int` and `to_bool` are the conversions of `getint`
-- and `getboolean`, none if they raise `ValueError`; a setting that counts or measures something is
-- not negative.
pub record Parser : Type 0 where
  pub home : String
  pub exists : String → Bool
  pub expand_user : String → String
  pub parse : String → Result File
  pub to_nat : String → Option ℕ
  pub to_int : String → Option ℤ
  pub to_bool : String → Option Bool

abbrev options_of : Option (Dict String) → String → Option String
options_of none name = none
options_of (some options) name = lookup name options

-- `get(section, name)`, none if `has_option` says no.
abbrev pub option : File → String → String → Option String
option file section name = options_of (lookup section file) name

module _ {S : Type 0} (file : File) (section name : String) where
  -- `if has_option(section, name): setting = get(section, name)`
  abbrev pub read_text : (String → S → S) → Action S Unit
  read_text put = when_some (option file section name) (λ v. modify (put v))

  -- The same with `getint`.
  abbrev pub read_number : {A : Type 0} → (String → Option A) → (A → S → S) → Action S Unit
  read_number convert put =
      when_some (option file section name)
        (λ v. do n ← or_raise (convert v) value_error; modify (put n))
