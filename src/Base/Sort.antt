-- ===== src/Base/Sort.antt =====
-- Python's `list.sort(key=...)`, which is stable, as an insertion sort over a test that says
-- whether its first argument may stand before its second.
use Prim.Native.Nat.{ℕ, ◌+◌}
use mathlib.Core.Path.{◌≡◌, refl}
use mathlib.Core.Bool.{Bool, true, false}
use mathlib.Core.List.{List, [], ◌∷◌, Perm}
use mathlib.Core.List.Perm
use native.Mathlib.Omega.{arith}
use dynamictorque.Base.Tests.{if◌then◌else◌, Bool-cases}
use dynamictorque.Base.Lists.{All, sum_of}
use mathlib.Core.Logic.{inl, inr}

module _ {ℓ} {A : Type ℓ} (before : A → A → Bool) where
  unfoldable pub insert_sorted : A → List A → List A
  insert_sorted a [] = a ∷ []
  insert_sorted a (x ∷ xs) = if before a x then a ∷ x ∷ xs else x ∷ insert_sorted a xs

  unfoldable pub sort_by : List A → List A
  unfolding insert_sorted
  sort_by [] = []
  sort_by (x ∷ xs) = insert_sorted x (sort_by xs)

  -- Each item may stand before every later one.
  abbrev pub IsSortedBy : List A → Type 0
  IsSortedBy [] = Unit
  IsSortedBy (x ∷ xs) = All (λ y. before x y ≡ true) xs × IsSortedBy xs

module _ {ℓ} {A : Type ℓ} (before : A → A → Bool) where
  sum_of-insert_sorted :
      (f : A → ℕ) (a : A) (xs : List A) → sum_of f (insert_sorted before a xs) ≡ f a + sum_of f xs
  unfolding insert_sorted
  sum_of-insert_sorted f a [] = refl
  sum_of-insert_sorted f a (x ∷ xs) = ground (arith, sum_of-insert_sorted f a xs)

  pub sum_of-sort_by : (f : A → ℕ) (xs : List A) → sum_of f (sort_by before xs) ≡ sum_of f xs
  unfolding sort_by
  sum_of-sort_by f [] = refl
  sum_of-sort_by f (x ∷ xs) =
      ground (arith, sum_of-insert_sorted f x (sort_by before xs), sum_of-sort_by f xs)

  All-insert_sorted :
      (P : A → Type 0) (a : A) (xs : List A) → P a → All P xs → All P (insert_sorted before a xs)
  unfolding insert_sorted
  All-insert_sorted P a [] p h = (p, tt)
  All-insert_sorted P a (x ∷ xs) p h = elim (Bool-cases (before a x)) [
    | inl e ↦ rw e (p, h)
    | inr e ↦ rw e (h.0, All-insert_sorted P a xs p h.1)
  ]

  pub All-sort_by : (P : A → Type 0) (xs : List A) → All P xs → All P (sort_by before xs)
  unfolding sort_by
  All-sort_by P [] h = tt
  All-sort_by P (x ∷ xs) h = All-insert_sorted P x _ h.0 (All-sort_by P xs h.1)

  insert_sorted-perm : (a : A) (xs : List A) → Perm (insert_sorted before a xs) (a ∷ xs)
  unfolding insert_sorted
  insert_sorted-perm a [] = Perm.refl (a ∷ [])
  insert_sorted-perm a (x ∷ xs) = elim (Bool-cases (before a x)) [
    | inl e ↦ rw e (Perm.refl (a ∷ x ∷ xs))
    | inr e ↦ rw e (Perm.trans (Perm.cons x (insert_sorted-perm a xs)) (Perm.swap a x xs))
  ]

  -- A sort only rearranges.
  pub sort_by-perm : (xs : List A) → Perm (sort_by before xs) xs
  unfolding sort_by
  sort_by-perm [] = Perm.refl []
  sort_by-perm (x ∷ xs) = Perm.trans (insert_sorted-perm x _) (Perm.cons x (sort_by-perm xs))

module _ {ℓ} {A : Type ℓ} (before : A → A → Bool)
    (total : (a b : A) → before a b ≡ false → before b a ≡ true)
    (trans : (a b c : A) → before a b ≡ true → before b c ≡ true → before a c ≡ true) where
  All-before :
      (a x : A) (xs : List A)
      → before a x ≡ true
      → All (λ y. before x y ≡ true) xs
      → All (λ y. before a y ≡ true) xs
  All-before a x [] h all = tt
  All-before a x (y ∷ ys) h all = (trans a x y h all.0, All-before a x ys h all.1)

  insert_sorted-IsSortedBy :
      (a : A) (xs : List A) → IsSortedBy before xs → IsSortedBy before (insert_sorted before a xs)
  unfolding insert_sorted
  insert_sorted-IsSortedBy a [] h = (tt, tt)
  insert_sorted-IsSortedBy a (x ∷ xs) h = elim (Bool-cases (before a x)) [
    | inl e ↦ rw e ((e, All-before a x xs e h.0), h)
    | inr e ↦
        rw e (All-insert_sorted before _ a xs (total a x e) h.0, insert_sorted-IsSortedBy a xs h.1)
  ]

  -- A sort by a total order puts the items in order.
  pub sort_by-IsSortedBy : (xs : List A) → IsSortedBy before (sort_by before xs)
  unfolding sort_by
  sort_by-IsSortedBy [] = tt
  sort_by-IsSortedBy (x ∷ xs) = insert_sorted-IsSortedBy x _ (sort_by-IsSortedBy xs)
