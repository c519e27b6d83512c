-- ===== src/Base/Action.antt =====
-- Python statements as actions on a state. A raise keeps the state that was reached.
use Prim.Native.String.{String}
use mathlib.Core.Path.{◌≡◌, refl, ap}
use mathlib.Core.Bool.{Bool, true, false}
use mathlib.Core.Logic.{◌⊎◌, inl, inr}
use mathlib.Core.Option.{Option, none, some}
use mathlib.Core.List.{List, [], ◌∷◌}
use dynamictorque.Base.Tests.{if◌then◌else◌}

-- The exceptions that the modelled code can raise.
pub data Error : Type 0 where
  key_error index_error value_error attribute_error type_error parse_error name_error system_exit
        socket_error :
      Error
  exception : String → Error

pub data Result (A : Type 0) : Type 0 where
  ok : A → Result A
  err : Error → Result A

abbrev pub Action : Type 0 → Type 0 → Type 0
Action S A = S → Result A × S

module _ {S A : Type 0} where
  abbrev pub pure : A → Action S A
  pure a s = (ok a, s)

  abbrev pub raise : Error → Action S A
  raise e s = (err e, s)

  abbrev pub gets : (S → A) → Action S A
  gets f s = (ok (f s), s)

  abbrev pub or_raise : Option A → Error → Action S A
  or_raise none e s = (err e, s)
  or_raise (some a) e s = (ok a, s)

  abbrev pub from_result : Result A → Action S A
  from_result r s = (r, s)

-- `if o is not None: f(o)`
abbrev pub when_some : {S A : Type 0} → Option A → (A → Action S Unit) → Action S Unit
when_some none f s = (ok tt, s)
when_some (some a) f s = f a s

abbrev pub modify : {S : Type 0} → (S → S) → Action S Unit
modify f s = (ok tt, f s)

abbrev pub and_then : {S A B : Type 0} → Result A × S → (A → Action S B) → Result B × S
and_then (ok a, s) f = f a s
and_then (err e, s) f = (err e, s)

infixl 5 ◌>>=◌ ◌>>◌
abbrev pub ◌>>=◌ : {S A B : Type 0} → Action S A → (A → Action S B) → Action S B
◌>>=◌ m f s = and_then (m s) f

abbrev pub ◌>>◌ : {S A B : Type 0} → Action S A → Action S B → Action S B
◌>>◌ m k s = and_then (m s) (λ _. k)

-- `for a in xs: acc = body(acc, a)`
unfoldable pub fold_each : {S A B : Type 0} → List A → B → (B → A → Action S B) → Action S B
fold_each [] acc body s = (ok acc, s)
fold_each (a ∷ xs) acc body s = and_then (body acc a s) (λ b. fold_each xs b body)

-- `for a in xs: body(a)`
unfoldable pub for_each : {S A : Type 0} → List A → (A → Action S Unit) → Action S Unit
for_each [] body s = (ok tt, s)
for_each (a ∷ xs) body s = and_then (body a s) (λ _. for_each xs body)

pub or_raise_state : {S A : Type 0} (o : Option A) (e : Error) (s : S) → (or_raise o e s).1 ≡ s
or_raise_state none e s = refl
or_raise_state (some a) e s = refl

-- What holds of a call: `Q` of its result and state, or `E` of its state after a raise.
abbrev pub Post : {S A : Type 0} → (A → S → Type 0) → (S → Type 0) → Result A × S → Type 0
Post Q E (ok a, s) = Q a s
Post Q E (err e, s) = E s

pub Post-imp :
    {S A : Type 0} (Q R : A → S → Type 0) (E F : S → Type 0) (r : Result A × S)
    → ((a : A) (s : S) → Q a s → R a s)
    → ((s : S) → E s → F s)
    → Post Q E r
    → Post R F r
Post-imp Q R E F (ok a, s) f g h = f a s h
Post-imp Q R E F (err e, s) f g h = g s h

module _ {S A B : Type 0} where
  pub and_then-Post :
      (Q : A → S → Type 0) (R : B → S → Type 0) (E : S → Type 0) (r : Result A × S)
      (f : A → Action S B)
      → Post Q E r
      → ((a : A) (s : S) → Q a s → Post R E (f a s))
      → Post R E (and_then r f)
  and_then-Post Q R E (ok a, s) f h k = k a s h
  and_then-Post Q R E (err e, s) f h k = h

module _ {S A B : Type 0} where
  -- The rule of a loop: the invariant speaks of the items left, the accumulator and the state.
  pub fold_each-Post :
      (I : List A → B → S → Type 0) (E : S → Type 0) (body : B → A → Action S B)
      → ((x : A) (xs : List A) (acc : B) (s : S) → I (x ∷ xs) acc s → Post (I xs) E (body acc x s))
      → (xs : List A) (acc : B) (s : S) → I xs acc s
      → Post (I []) E (fold_each xs acc body s)
  unfolding fold_each
  fold_each-Post I E body step [] acc s h = h
  fold_each-Post I E body step (x ∷ xs) acc s h =
      and_then-Post (I xs) (I []) E (body acc x s) (λ b. fold_each xs b body) (step x xs acc s h)
        (λ b t k. fold_each-Post I E body step xs b t k)

-- An invariant that holds after every step, also after a raise.
abbrev pub Keeps : {S A : Type 0} → (S → Type 0) → Action S A → Type 0
Keeps {S} I m = (s : S) → I s → I (m s).1

module _ {S : Type 0} where
  pub and_then-Keeps :
      {A B : Type 0} (I : S → Type 0) (r : Result A × S) (f : A → Action S B)
      → I r.1
      → ((a : A) → Keeps I (f a))
      → I (and_then r f).1
  and_then-Keeps I (ok a, s) f h k = k a s h
  and_then-Keeps I (err e, s) f h k = h

  pub fold_each-Keeps :
      {A B : Type 0} (I : S → Type 0) (body : B → A → Action S B)
      → ((b : B) (a : A) → Keeps I (body b a))
      → (xs : List A) (b : B) → Keeps I (fold_each xs b body)
  unfolding fold_each
  fold_each-Keeps I body k [] b s h = h
  fold_each-Keeps I body k (x ∷ xs) b s h =
      and_then-Keeps I (body b x s) (λ c. fold_each xs c body) (k b x s h)
        (λ c. fold_each-Keeps I body k xs c)

  pub for_each-Keeps :
      {A : Type 0} (I : S → Type 0) (body : A → Action S Unit)
      → ((a : A) → Keeps I (body a))
      → (xs : List A) → Keeps I (for_each xs body)
  unfolding for_each
  for_each-Keeps I body k [] s h = h
  for_each-Keeps I body k (x ∷ xs) s h =
      and_then-Keeps I (body x s) (λ _. for_each xs body) (k x s h)
        (λ _. for_each-Keeps I body k xs)

-- The rule of a loop without accumulator.
pub for_each-Post :
    {S A : Type 0} (I : List A → S → Type 0) (E : S → Type 0) (body : A → Action S Unit)
    → ((x : A) (xs : List A) (s : S) → I (x ∷ xs) s → Post (λ _. I xs) E (body x s))
    → (xs : List A) (s : S) → I xs s
    → Post (λ _. I []) E (for_each xs body s)
unfolding for_each
for_each-Post I E body step [] s h = h
for_each-Post I E body step (x ∷ xs) s h =
    and_then-Post (λ _. I xs) (λ _. I []) E (body x s) (λ _. for_each xs body) (step x xs s h)
      (λ _ t k. for_each-Post I E body step xs t k)

pub if-Post :
    {S A : Type 0} (Q : A → S → Type 0) (E : S → Type 0) (b : Bool) (m n : Action S A) (s : S)
    → (b ≡ true → Post Q E (m s))
    → (b ≡ false → Post Q E (n s))
    → Post Q E ((if b then m else n) s)
if-Post Q E true m n s h k = h refl
if-Post Q E false m n s h k = k refl

pub or_raise-Post :
    {S A : Type 0} (Q : A → S → Type 0) (E : S → Type 0) (o : Option A) (e : Error) (s : S)
    → ((a : A) → o ≡ some a → Q a s)
    → E s
    → Post Q E (or_raise o e s)
or_raise-Post Q E none e s h k = k
or_raise-Post Q E (some a) e s h k = h a refl

-- The same, with what comes after it.
pub or_raise_then-Post :
    {S A B : Type 0} (Q : B → S → Type 0) (E : S → Type 0) (o : Option A) (e : Error)
    (f : A → Action S B) (s : S)
    → ((a : A) → o ≡ some a → Post Q E (f a s))
    → E s
    → Post Q E (and_then (or_raise o e s) f)
or_raise_then-Post Q E none e f s h k = k
or_raise_then-Post Q E (some a) e f s h k = h a refl

pub Result-cases :
    {A : Type 0} (r : Result A) → ((a : A) × (r ≡ ok a)) ⊎ ((e : Error) × (r ≡ err e))
Result-cases (ok a) = inl (a, refl)
Result-cases (err e) = inr (e, refl)

-- What holds either way.
pub Post-both : {S A : Type 0} (P : S → Type 0) (r : Result A × S) → Post (λ _. P) P r → P r.1
Post-both P (ok a, s) h = h
Post-both P (err e, s) h = h

pub ok-injective : {A : Type 0} {a b : A} → ok a ≡ ok b → a ≡ b
ok-injective {a} e = ap (λ x. elim x [ ok n ↦ n | err y ↦ a ]) e
