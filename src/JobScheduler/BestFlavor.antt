-- ===== src/JobScheduler/BestFlavor.antt =====
-- `best_flavor_from_node` chooses the smallest flavor that is large enough.
use mathlib.Core.Logic.Or
use native.Mathlib.Bridge.{le_prop}
use native.Mathlib.Nat.{le_refl}
use mathlib.Core.List.{Mem, mem-cons_self, mem-cons_of_mem, mem-cons, not-mem-nil}
use mathlib.Core.List.Perm
use dynamictorque.Base.{
  ℕ, ◌≤◌, ◌≡◌, refl, String, true, false, some, List, [], ◌∷◌, arith, leb, find, All, inl, inr,
  Bool-cases, All-imp, leb→le, leb→gt, ◌≢◌,
}
use dynamictorque.Base.Sort.{sort_by, sort_by-perm, IsSortedBy, sort_by-IsSortedBy}
use dynamictorque.Base.Action.{ok}
use dynamictorque.CloudTools.{VmFlavor, ResAllocation, get_total_num_cores, smaller_first}
use dynamictorque.CloudTools.Capacity.{max_vcpus, max_vcpus-sort_by}
use dynamictorque.JobScheduler.{best_flavor}

-- The flavor that a node of `n` cores should get.
pub record IsBest (n : ℕ) (flavors : List VmFlavor) (id : String) : Type 0 where
  pub flavor : VmFlavor
  pub offered : Mem flavor flavors
  pub named : flavor.id ≡ id
  pub enough : n ≤ flavor.vcpus
  pub smallest :
      (other : VmFlavor) → Mem other flavors → n ≤ other.vcpus → flavor.vcpus ≤ other.vcpus

-- The first flavor of the list that is large enough, and smaller than any other such.
record FirstEnough (n : ℕ) (fs : List VmFlavor) : Type 0 where
  flavor : VmFlavor
  found : find (λ f. leb n f.vcpus) fs ≡ some flavor
  listed : Mem flavor fs
  enough : n ≤ flavor.vcpus
  smallest : All (λ g. n ≤ g.vcpus → flavor.vcpus ≤ g.vcpus) fs

at_head :
    (n : ℕ) (x : VmFlavor) (xs : List VmFlavor)
    → IsSortedBy smaller_first (x ∷ xs)
    → leb n x.vcpus ≡ true
    → FirstEnough n (x ∷ xs)
at_head n x xs s fits = record {
  flavor = x;
  found = rw fits;
  listed = mem-cons_self;
  enough = leb→le n x.vcpus fits;
  smallest = (λ _. le_refl x.vcpus, All-imp (λ g h _. leb→le x.vcpus g.vcpus h) xs s.0);
}

in_tail :
    (n : ℕ) (x : VmFlavor) (xs : List VmFlavor)
    → leb n x.vcpus ≡ false
    → FirstEnough n xs
    → FirstEnough n (x ∷ xs)
in_tail n x xs small r = record {
  flavor = r.flavor;
  found = rw small r.found;
  listed = mem-cons_of_mem x r.listed;
  enough = r.enough;
  smallest = (λ h. absurd (leb→gt n x.vcpus small h), r.smallest);
}

-- In a sorted list the first flavor that is large enough is the smallest such.
first_enough :
    (n : ℕ) (x : VmFlavor) (xs : List VmFlavor)
    → IsSortedBy smaller_first (x ∷ xs)
    → n ≤ max_vcpus (x ∷ xs)
    → FirstEnough n (x ∷ xs)
first_enough n x [] s h = at_head n x [] s (ground arith)
first_enough n x (y ∷ ys) s h = elim (Bool-cases (leb n x.vcpus)) [
  | inl fits ↦ at_head n x (y ∷ ys) s fits
  | inr small ↦ in_tail n x (y ∷ ys) small (first_enough n y ys s.1 (ground arith))
]

FirstEnough-nonempty :
    (n : ℕ) (fs : List VmFlavor)
    → fs ≢ []
    → IsSortedBy smaller_first fs
    → n ≤ max_vcpus fs
    → FirstEnough n fs
FirstEnough-nonempty n [] ne s h = absurd (ne refl)
FirstEnough-nonempty n (x ∷ xs) ne s h = first_enough n x xs s h

smaller_total : (a b : VmFlavor) → smaller_first a b ≡ false → smaller_first b a ≡ true
smaller_total a b h = ground arith

smaller_trans :
    (a b c : VmFlavor)
    → smaller_first a b ≡ true
    → smaller_first b c ≡ true
    → smaller_first a c ≡ true
smaller_trans a b c h k = ground arith

le_of_listed :
    (n m : ℕ) (g : VmFlavor) (fs : List VmFlavor)
    → All (λ f. n ≤ f.vcpus → m ≤ f.vcpus) fs
    → n ≤ g.vcpus
    → Mem g fs
    → m ≤ g.vcpus
le_of_listed n m g [] h e l = absurd (not-mem-nil l)
le_of_listed n m g (f ∷ fs) h e l =
    Or.elim le_prop (mem-cons.0 l) (λ same. rw same (h.0 (rw (← same) e)))
      (le_of_listed n m g fs h.1 e)

-- If the node is no larger than the largest flavor, it gets the smallest of the flavors that are
-- large enough for it.
pub best_flavor-IsBest :
    (flavors : List VmFlavor) (node : ResAllocation)
    → flavors ≢ []
    → get_total_num_cores node ≤ max_vcpus flavors
    → (id : String) × (best_flavor flavors node ≡ ok id)
      × IsBest (get_total_num_cores node) flavors id
unfolding best_flavor
best_flavor-IsBest flavors node ne fits =
    let perm = sort_by-perm smaller_first flavors in
    let r =
      FirstEnough-nonempty (get_total_num_cores node) (sort_by smaller_first flavors)
        (λ e. ne (Perm.eq-nil (rw e at (Perm.symm perm))))
        (sort_by-IsSortedBy smaller_first smaller_total smaller_trans flavors)
        (rw max_vcpus-sort_by fits) in
    (
      r.flavor.id,
      rw (r.found, best_flavor),
      record {
        flavor = r.flavor;
        offered = Perm.subset perm r.flavor r.listed;
        named = refl;
        enough = r.enough;
        smallest = λ g m h. le_of_listed _ _ g _ r.smallest h (Perm.subset (Perm.symm perm) g m);
      },
    )
