-- ===== src/JobScheduler/Frame.antt =====
-- Planning reads the resources, and changes them only by sorting their flavors.
use mathlib.Core.Path.{subst}
use text.Mathlib.TextEquality.{eq_iff}
use dynamictorque.Base.{
  ℕ, ◌≤◌, ◌≡◌, ap, sym, refl, ◌∙◌, String, Option, none, some, arith, inl, inr, str_eq,
  Option-cases, Bool-cases, List-cases,
}
use dynamictorque.Base.Int.{ℤ, pos, ◌*ℤ◌}
use dynamictorque.Base.Dict.{lookup, insert, lookup-insert}
use dynamictorque.Base.Action.{
  Action, Result, ok, err, index_error, Post, Post-imp, or_raise, or_raise_state,
}
use dynamictorque.CloudTools.{CloudResource, available_cores, larger_first, first_vcpus}
use dynamictorque.CloudTools.Capacity.{
  max_vcpus, max_vcpus-sort_by, available_cores_lem, available_cores_none,
}
use dynamictorque.Config.{Config, with_resource}

-- What planning needs to know of a resource: the nodes left and the largest flavor's cores.
abbrev pub Size : Type 0
Size = ℤ × ℕ

abbrev pub size_of : CloudResource → Size
size_of r = (r.available_number_of_nodes, max_vcpus r.flavor_objects)

abbrev pub size_at : Option CloudResource → Option Size
size_at none = none
size_at (some r) = some (size_of r)

abbrev pub size : String → Config → Option Size
size k c = size_at (lookup k c.cloud_resources)

-- The cores that are left, none for a resource that there is not.
abbrev pub left_of : Option Size → ℤ
left_of none = pos 0
left_of (some (nodes, top)) = nodes *ℤ pos top

abbrev pub top_of : Option Size → ℕ
top_of none = 0
top_of (some (nodes, top)) = top

-- Every resource has the same size in both configurations.
abbrev pub SameSize : (String → Option Size) → Config → Type 0
SameSize V c = (k : String) → size k c ≡ V k

-- An action on one resource that keeps its size keeps the size of all.
size-insert :
    (k name : String) (r r' : CloudResource) (c : Config)
    → lookup name c.cloud_resources ≡ some r
    → size_of r' ≡ size_of r
    → size k (record c { cloud_resources = insert name r' c.cloud_resources }) ≡ size k c
size-insert k name r r' c e h =
    rw (lookup-insert name k r' c.cloud_resources) (elim (Bool-cases (str_eq name k)) [
      | inl same ↦ rw (same, ← (eq_iff name k).0 same, e) (ap some h)
      | inr other ↦ rw other
    ])

answered :
    {A S T : Type 0} (P : A → Type 0) (E : T → Type 0) (x : Result A) (s : S) (t : T)
    → Post (λ a _. P a) (λ _. Unit {0}) (x, s)
    → E t
    → Post (λ a t. P a × E t) E (x, t)
answered P E (ok a) s t h k = (h, k)
answered P E (err e) s t h k = k

-- An action on one resource: what it answers of the resource holds of the answer, and the sizes
-- of all resources are kept if it keeps that of the one.
pub with_resource-Post :
    {A : Type 0} (V : String → Option Size) (Q : Option Size → A → Type 0) (name : String)
    (m : Action CloudResource A) (c : Config)
    → ((r : CloudResource) → size_of (m r).1 ≡ size_of r)
    → ((r : CloudResource) → Post (λ a _. Q (some (size_of r)) a) (λ _. Unit) (m r))
    → SameSize V c
    → Post (λ a c'. Q (V name) a × SameSize V c') (SameSize V) (with_resource name m c)
unfolding with_resource
with_resource-Post {A} V Q name m c keeps answers h =
    elim (Option-cases (lookup name c.cloud_resources)) [
      | inl gone ↦ rw (gone, with_resource) h
      | inr (r, e) ↦
          let known : V name ≡ some (size_of r) = sym (h name) ∙ ap size_at e in
          let c' = record c { cloud_resources = insert name (m r).1 c.cloud_resources } in
          let same : SameSize V c' = λ k. size-insert k name r (m r).1 c e (keeps r) ∙ h k in
          rw (e, with_resource)
            (answered (Q (V name)) (SameSize V) (m r).0 (m r).1 c'
              (Post-imp (λ a _. Q (some (size_of r)) a) (λ a _. Q (V name) a) _ _ (m r)
                (λ a _ q. subst (λ o. Q o a) (sym known) q) (λ _ u. u) (answers r))
              same)
    ]

-- What `available_cores` answers: the nodes left times the largest flavor's cores.
abbrev IsCapacity : Option Size → ℤ → Type 0
IsCapacity V a = a ≡ left_of V

available_cores-keeps : (r : CloudResource) → size_of (available_cores r).1 ≡ size_of r
available_cores-keeps r = elim (List-cases r.flavor_objects) [
  | inl e ↦
      rw (available_cores_none r e) (
        ap (λ n. (r.available_number_of_nodes, n))
          (max_vcpus-sort_by larger_first r.flavor_objects))
  | inr (f, fs, e) ↦
      rw (available_cores_lem r f fs e) (
        ap (λ n. (r.available_number_of_nodes, n))
          (max_vcpus-sort_by larger_first r.flavor_objects))
]

available_cores-answers :
    (r : CloudResource)
    → Post (λ a _. IsCapacity (some (size_of r)) a) (λ _. Unit {0}) (available_cores r)
available_cores-answers r = elim (List-cases r.flavor_objects) [
  | inl e ↦ rw (available_cores_none r e) tt
  | inr (f, fs, e) ↦ rw (available_cores_lem r f fs e) refl
]

pub available_cores-Post :
    (V : String → Option Size) (name : String) (c : Config)
    → SameSize V c
    → Post
        (λ a c'. IsCapacity (V name) a × SameSize V c')
        (SameSize V)
        (with_resource name available_cores c)
available_cores-Post V name c h =
    with_resource-Post V IsCapacity name available_cores c available_cores-keeps
      available_cores-answers h

-- What the answer to `flavor_objects[0].vcpus` is worth: it is not above the largest flavor.
abbrev pub IsBelowTop : Option Size → ℕ → Type 0
IsBelowTop V n = n ≤ top_of V

top-answers :
    (r : CloudResource)
    → Post
        (λ n _. IsBelowTop (some (size_of r)) n)
        (λ _. Unit {0})
        (or_raise (first_vcpus r.flavor_objects) index_error r)
top-answers r = elim (List-cases r.flavor_objects) [
  | inl e ↦ rw e tt
  | inr (f, fs, e) ↦ rw e (omega arith)
]

pub top-Post :
    (V : String → Option Size) (name : String) (c : Config)
    → SameSize V c
    → Post
        (λ n c'. IsBelowTop (V name) n × SameSize V c')
        (SameSize V)
        (with_resource name (λ r. or_raise (first_vcpus r.flavor_objects) index_error r) c)
top-Post V name c h =
    with_resource-Post V IsBelowTop name _ c
      (λ r. ap size_of (or_raise_state (first_vcpus r.flavor_objects) index_error r)) top-answers h
