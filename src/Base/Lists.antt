-- ===== src/Base/Lists.antt =====
-- Lists measured by native numbers, and lists of object references: how often one occurs, and
-- Python's `remove`, which raises if there is none.
use mathlib.Core.Option.{some-injective}
use Prim.Native.Nat.{ℕ, zero, suc, ◌+◌, ◌≤◌, ◌<◌}
use mathlib.Core.Path.{◌≡◌, refl, ap, ◌∙◌}
use mathlib.Core.Logic.{inl, inr}
use mathlib.Core.Bool.{Bool, true, false, ◌||◌}
use mathlib.Core.List.{List, [], ◌∷◌, ◌++◌}
use mathlib.Core.Option.{Option, none, some}
use native.Mathlib.Omega.{arith}
use dynamictorque.Base.Tests.{◌==◌, if◌then◌else◌, Option-cases, Bool-cases}

module _ {ℓ} {A : Type ℓ} where
  abbrev pub length : List A → ℕ
  length [] = 0
  length (x ∷ xs) = suc (length xs)

  -- `[a] * n`
  abbrev pub replicate : ℕ → A → List A
  replicate zero a = []
  replicate (suc n) a = a ∷ replicate n a

  abbrev pub All {κ} : (A → Type κ) → List A → Type κ
  All P [] = Unit
  All P (x ∷ xs) = P x × All P xs

  abbrev pub filter : (A → Bool) → List A → List A
  filter p [] = []
  filter p (x ∷ xs) = let rest = filter p xs in if p x then x ∷ rest else rest

  abbrev pub find : (A → Bool) → List A → Option A
  find p [] = none
  find p (x ∷ xs) = let rest = find p xs in if p x then some x else rest

  abbrev pub any : (A → Bool) → List A → Bool
  any p [] = false
  any p (x ∷ xs) = p x || any p xs

  -- `sum(f(x) for x in xs)`
  abbrev pub sum_of : (A → ℕ) → List A → ℕ
  sum_of f [] = 0
  sum_of f (x ∷ xs) = f x + sum_of f xs

  pub All-imp {κ μ} :
      {P : A → Type κ} {Q : A → Type μ}
      → ((a : A) → P a → Q a)
      → (xs : List A) → All P xs
      → All Q xs
  All-imp f [] h = tt
  All-imp f (x ∷ xs) h = (f x h.0, All-imp f xs h.1)

  pub length-append : (xs ys : List A) → length (xs ++ ys) ≡ length xs + length ys
  length-append [] ys = omega arith
  length-append (x ∷ xs) ys = omega (arith, length-append xs ys)

  pub sum_of-append : (f : A → ℕ) (xs ys : List A) → sum_of f (xs ++ ys) ≡ sum_of f xs + sum_of f ys
  sum_of-append f [] ys = omega arith
  sum_of-append f (x ∷ xs) ys = omega (arith, sum_of-append f xs ys)

-- 1 if the two references are one object, and 0 if not.
abbrev pub is_one : ℕ → ℕ → ℕ
is_one r v = if r == v then 1 else 0

abbrev pub count : ℕ → List ℕ → ℕ
count r = sum_of (is_one r)

abbrev pub push : ℕ → Option (List ℕ) → Option (List ℕ)
push x none = none
push x (some l) = some (x ∷ l)

-- `l.remove(v)`, `none` where Python raises `ValueError`.
unfoldable pub remove : ℕ → List ℕ → Option (List ℕ)
remove v [] = none
remove v (x ∷ xs) = if v == x then some xs else push x (remove v xs)

pub count-append : (r : ℕ) (xs ys : List ℕ) → count r (xs ++ ys) ≡ count r xs + count r ys
count-append r xs ys = sum_of-append (is_one r) xs ys

pub remove-none : (v : ℕ) (l : List ℕ) → remove v l ≡ none → count v l ≡ 0
unfolding remove
remove-none v [] h = refl
remove-none v (x ∷ xs) h = ground (arith, remove-none v xs)

-- A removal takes away one occurrence of `v` and nothing else.
pub count-remove :
    (v : ℕ) (l l' : List ℕ) → remove v l ≡ some l' → (r : ℕ) → count r l ≡ count r l' + is_one r v
unfolding remove
count-remove v [] l' h r = cc
count-remove v (x ∷ xs) l' h r = elim (Option-cases (remove v xs)) [
  | inl gone ↦ ground arith
  | inr (k, e) ↦ ground (arith, count-remove v xs k e r)
]

-- Whether a reference is there, by `in`.
pub count-any : (r : ℕ) (l : List ℕ) → any (λ r'. r == r') l ≡ false → count r l ≡ 0
count-any r [] h = refl
count-any r (x ∷ xs) h = ground (arith, count-any r xs)

pub remove-any : (r : ℕ) (l : List ℕ) → any (λ r'. r == r') l ≡ true → ¬ (remove r l ≡ none)
unfolding remove
remove-any r [] h e = cc
remove-any r (x ∷ xs) h e = elim (Option-cases (remove r xs)) [
  | inl gone ↦ ground (arith, remove-any r xs)
  | inr (l, f) ↦ ground arith
]

pub sum_of-remove :
    (f : ℕ → ℕ) (r : ℕ) (xs l : List ℕ) → remove r xs ≡ some l → sum_of f xs ≡ sum_of f l + f r
unfolding remove
sum_of-remove f r [] l h = cc
sum_of-remove f r (x ∷ xs) l h = elim (Bool-cases (r == x)) [
  | inl e ↦
      let one : r ≡ x = ground (arith, e) in
      let same : xs ≡ l = some-injective xs l (rw e at h) in
      omega (arith, ap f one, ap (sum_of f) same)
  | inr e ↦ elim (Option-cases (remove r xs)) [
    | inl gone ↦ cc (e, gone, h)
    | inr (k, g) ↦
        let pushed : x ∷ k ≡ l = some-injective (x ∷ k) l (rw (e, g) at h) in
        omega (arith, sum_of-remove f r xs k g, ap (sum_of f) pushed)
  ]
]

pub count-filter : (p : ℕ → Bool) (v : ℕ) (xs : List ℕ) → count v (filter p xs) ≤ count v xs
count-filter p v [] = omega arith
count-filter p v (x ∷ xs) = ground (arith, count-filter p v xs)

-- What is left by `filter` passes its test.
pub filter-holds : (p : ℕ → Bool) (v : ℕ) (xs : List ℕ) → 0 < count v (filter p xs) → p v ≡ true
filter-holds p v [] h = absurd (omega (arith, h))
filter-holds p v (x ∷ xs) h = elim (Bool-cases (p x)) [
  | inr e ↦ filter-holds p v xs (omega (arith, rw e at h))
  | inl e ↦ elim (Bool-cases (v == x)) [
    | inl f ↦ let one : v ≡ x = ground (arith, f) in ap p one ∙ e
    | inr f ↦ filter-holds p v xs (omega (arith, rw (e, f) at h))
  ]
]
