-- ===== src/CloudTools/Capacity.antt =====
-- `available_cores` is the number of nodes left times the size of the largest flavor.
use Prim.Native.Nat.{max}
use dynamictorque.Base.{ℕ, Bool, ap, ◌∙◌, ◌≡◌, refl, some, List, [], ◌∷◌, arith}
use dynamictorque.Base.Int.{pos, ◌*ℤ◌}
use dynamictorque.Base.Sort.{sort_by, insert_sorted}
use dynamictorque.Base.Action.{ok, err, index_error}
use dynamictorque.CloudTools.{VmFlavor, CloudResource, larger_first, first_vcpus, available_cores}

-- The number of cores of the largest flavor, 0 if there is none.
abbrev pub max_vcpus : List VmFlavor → ℕ
max_vcpus [] = 0
max_vcpus (f ∷ fs) = max f.vcpus (max_vcpus fs)

first_vcpus-insert_sorted :
    (f : VmFlavor) (fs : List VmFlavor) (m : ℕ)
    → first_vcpus fs ≡ some m
    → first_vcpus (insert_sorted larger_first f fs) ≡ some (max f.vcpus m)
unfolding insert_sorted
first_vcpus-insert_sorted f [] m h = cc
first_vcpus-insert_sorted f (x ∷ xs) m h = ground arith

-- After the sort the largest flavor stands first.
pub first_vcpus-sort_by :
    (f : VmFlavor) (fs : List VmFlavor)
    → first_vcpus (sort_by larger_first (f ∷ fs)) ≡ some (max_vcpus (f ∷ fs))
unfolding sort_by insert_sorted
first_vcpus-sort_by f [] = ground arith
first_vcpus-sort_by f (g ∷ fs) =
    first_vcpus-insert_sorted f (sort_by larger_first (g ∷ fs)) (max_vcpus (g ∷ fs))
      (first_vcpus-sort_by g fs)

max_vcpus-insert_sorted :
    (before : VmFlavor → VmFlavor → Bool) (f : VmFlavor) (fs : List VmFlavor)
    → max_vcpus (insert_sorted before f fs) ≡ max f.vcpus (max_vcpus fs)
unfolding insert_sorted
max_vcpus-insert_sorted before f [] = refl
max_vcpus-insert_sorted before f (x ∷ xs) = ground (arith, max_vcpus-insert_sorted before f xs)

pub max_vcpus-sort_by :
    (before : VmFlavor → VmFlavor → Bool) (fs : List VmFlavor)
    → max_vcpus (sort_by before fs) ≡ max_vcpus fs
unfolding sort_by
max_vcpus-sort_by before [] = refl
max_vcpus-sort_by before (f ∷ fs) =
    max_vcpus-insert_sorted before f (sort_by before fs)
    ∙ ap (max f.vcpus) (max_vcpus-sort_by before fs)

-- A resource with its flavors sorted.
abbrev pub sorted : CloudResource → CloudResource
sorted r = record r { flavor_objects = sort_by larger_first r.flavor_objects }

-- With at least one flavor, the answer is the number of nodes left times the largest flavor's
-- cores, and the call only sorts the flavors.
pub available_cores_lem :
    (r : CloudResource) (f : VmFlavor) (fs : List VmFlavor)
    → r.flavor_objects ≡ f ∷ fs
    → available_cores r
      ≡ (ok (r.available_number_of_nodes *ℤ pos (max_vcpus r.flavor_objects)), sorted r)
unfolding available_cores
available_cores_lem r f fs h =
    let first : first_vcpus (sort_by larger_first r.flavor_objects)
        ≡ some (max_vcpus r.flavor_objects) =
      rw h (first_vcpus-sort_by f fs) in
    rw (first, available_cores)

-- Without a flavor it raises.
pub available_cores_none :
    (r : CloudResource) → r.flavor_objects ≡ [] → available_cores r ≡ (err index_error, sorted r)
unfolding available_cores sort_by
available_cores_none r h = ground (arith)
