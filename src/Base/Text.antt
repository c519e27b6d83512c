-- ===== src/Base/Text.antt =====
-- The operations on texts that the program uses: `split`, `isdigit`, `int`.
use Prim.Native.Nat.{ℕ, ◌+◌, ◌*◌, ◌-◌}
use Prim.Native.Char.{Char, code}
use Prim.Native.String.{String}
use mathlib.Core.Bool.{Bool, true, false, ◌&&◌}
use mathlib.Core.List.{List, [], ◌∷◌}
use mathlib.Core.Option.{Option, none, some}
use dynamictorque.Base.Tests.{leb, ◌==◌, if◌then◌else◌}

-- `c.isdigit()` for one character of ASCII, by its code.
abbrev pub is_digit : ℕ → Bool
is_digit c = leb b'0' c && leb c b'9'

abbrev all_digits : String → Bool
all_digits String.[] = true
all_digits (String.◌∷◌ c s) = is_digit (code c) && all_digits s

-- `s.isdigit()`: false for the empty text.
abbrev pub isdigit : String → Bool
isdigit String.[] = false
isdigit (String.◌∷◌ c s) = is_digit (code c) && all_digits s

abbrev to_number_from : ℕ → String → ℕ
to_number_from acc String.[] = acc
to_number_from acc (String.◌∷◌ c s) = to_number_from (acc * 10 + (code c - b'0')) s

-- `int(s)` of a text without sign or spaces, `none` where Python raises `ValueError`.
abbrev pub to_number : String → Option ℕ
to_number s = if isdigit s then some (to_number_from 0 s) else none

abbrev push_char : Char → List String → List String
push_char c [] = String.◌∷◌ c String.[] ∷ []
push_char c (w ∷ ws) = String.◌∷◌ c w ∷ ws

-- `s.split(sep)` for a separator of one character, by its code: never the empty list.
abbrev pub split : ℕ → String → List String
split sep String.[] = String.[] ∷ []
split sep (String.◌∷◌ c s) =
    if code c == sep then String.[] ∷ split sep s else push_char c (split sep s)

-- `s.split(sep)[0]`
abbrev pub split_first : ℕ → String → String
split_first sep String.[] = String.[]
split_first sep (String.◌∷◌ c s) =
    if code c == sep then String.[] else String.◌∷◌ c (split_first sep s)
