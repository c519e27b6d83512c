-- ===== src/Center/Tracking.antt =====
-- The three lists of VMs that a `ResourceCenter` keeps, and how often they hold a VM.
use mathlib.Core.Option.{some-injective}
use dynamictorque.Base.{
  ℕ, ◌+◌, ◌≡◌, Bool, some, List, [], ◌∷◌, arith, inl, inr, Option-cases, Bool-cases, count, find,
  remove, remove-none,
}
use dynamictorque.Base.Action.{Action, Result, ok, err, Post, and_then}
use dynamictorque.World.{Shell}
use dynamictorque.Center.State.{Center, lift}

-- The VMs that exist, that start and that are being deleted.
pub record Lists : Type 0 where
  pub existing : List ℕ
  pub starting : List ℕ
  pub deleting : List ℕ

abbrev pub lists : Center → Lists
lists s = record {
  existing = s.existing_instances;
  starting = s.starting_instances;
  deleting = s.deleting_instances;
}

-- How often the lists hold a VM.
abbrev pub tracked : ℕ → Center → ℕ
tracked r s =
    count r s.existing_instances + count r s.starting_instances + count r s.deleting_instances

lifted-Post :
    {A : Type 0} (Q : A → Center → Type 0) (E : Center → Type 0) (s : Center) (x : Result A × Shell)
    → ((a : A) (sh : Shell) → Q a (record s { shell = sh }))
    → ((sh : Shell) → E (record s { shell = sh }))
    → Post Q E (x.0, record s { shell = x.1 })
lifted-Post Q E s (ok a, sh) h k = h a sh
lifted-Post Q E s (err e, sh) h k = k sh

-- A function of local_commands.py changes nothing of the center but its shell.
pub lift-Post :
    {A : Type 0} (Q : A → Center → Type 0) (E : Center → Type 0) (m : Action Shell A) (s : Center)
    → ((a : A) (sh : Shell) → Q a (record s { shell = sh }))
    → ((sh : Shell) → E (record s { shell = sh }))
    → Post Q E (lift m s)
lift-Post Q E m s h k = lifted-Post Q E s (m s.shell) h k

module _ {A B : Type 0} (Q : B → Center → Type 0) (E : Center → Type 0) where
  lifted_then-Post :
      (f : A → Action Center B) (s : Center) (x : Result A × Shell)
      → ((a : A) (sh : Shell) → Post Q E (f a (record s { shell = sh })))
      → ((sh : Shell) → E (record s { shell = sh }))
      → Post Q E (and_then (x.0, record s { shell = x.1 }) f)
  lifted_then-Post f s (ok a, sh) h k = h a sh
  lifted_then-Post f s (err e, sh) h k = k sh

  -- The same, with what comes after it.
  pub lift_then-Post :
      (m : Action Shell A) (f : A → Action Center B) (s : Center)
      → ((a : A) (sh : Shell) → Post Q E (f a (record s { shell = sh })))
      → ((sh : Shell) → E (record s { shell = sh }))
      → Post Q E (and_then (lift m s) f)
  lift_then-Post m f s h k = lifted_then-Post f s (m s.shell) h k

find-count : (p : ℕ → Bool) (l : List ℕ) (r : ℕ) → find p l ≡ some r → ¬ (count r l ≡ 0)
find-count p [] r h e = cc
find-count p (x ∷ xs) r h e = elim (Bool-cases (p x)) [
  | inl y ↦ ground (arith, some-injective x r (rw y at h))
  | inr n ↦ ground (arith, find-count p xs r (rw n at h))
]

-- What `find` answers can be removed.
pub remove-find :
    (p : ℕ → Bool) (l : List ℕ) (r : ℕ) → find p l ≡ some r → (l' : List ℕ) × (remove r l ≡ some l')
remove-find p l r h = elim (Option-cases (remove r l)) [
  | inr found ↦ found
  | inl gone ↦ absurd (find-count p l r h (remove-none r l gone))
]

-- An answer that is there, or is a raise, in a state where `P` holds.
pub answer-Post :
    {A : Type 0} (P : Center → Type 0) (x : Result A) (s : Center) → P s → Post (λ _. P) P (x, s)
answer-Post P (ok a) s h = h
answer-Post P (err e) s h = h

-- The same, with what comes after it.
pub answer_then-Post :
    {A B : Type 0} (Q : B → Center → Type 0) (E : Center → Type 0) (x : Result A)
    (f : A → Action Center B) (s : Center)
    → ((a : A) → Post Q E (f a s))
    → E s
    → Post Q E (and_then (x, s) f)
answer_then-Post Q E (ok a) f s h k = h a
answer_then-Post Q E (err e) f s h k = k
