-- ===== src/JobScheduler/Nodes.antt =====
-- What `add_new_requirement_to_list` does to the nodes of one resource.
use native.Mathlib.Nat.{le_trans}
use dynamictorque.Base.{
  ℕ, ◌+◌, ◌≤◌, ◌≡◌, refl, String, true, Option, List, [], ◌∷◌, ◌++◌, arith, leb, length, opt_str_eq,
  sum_of, sum_of-append, All, inl, inr, Bool-cases,
}
use dynamictorque.Base.Sort.{sort_by, sum_of-sort_by, All-sort_by}
use dynamictorque.Base.Action.{Result, ok, err}
use dynamictorque.CloudTools.{ResAllocation, get_total_num_cores}
use dynamictorque.JobScheduler.{
  place, keep, extend_nodes, finish, node_cores, new_nodes, fuller_first,
}

abbrev pub cores : List ℕ → ℕ
cores = sum_of (λ v. v)

-- Every node fits `top` cores.
abbrev pub Fit : ℕ → List ResAllocation → Type 0
Fit top = All (λ res. get_total_num_cores res ≤ top)

-- What the loop has done with the nodes and the requirements that it was given.
abbrev Placed : ℕ → List ResAllocation → List ℕ → Result (List ResAllocation × List ℕ) → Type 0
Placed top nodes left (err e) = Unit
Placed top nodes left (ok (nodes', left')) =
    (node_cores nodes' + cores left' ≡ node_cores nodes + cores left)
    × (length nodes' ≡ length nodes)
    × (Fit top nodes → Fit top nodes')
    × (All (λ v. v ≤ top) left → All (λ v. v ≤ top) left')

keep-Placed :
    (top : ℕ) (res res' : ResAllocation) (nodes : List ResAllocation) (left left' : List ℕ)
    (r : Result (List ResAllocation × List ℕ))
    → get_total_num_cores res' + cores left' ≡ get_total_num_cores res + cores left
    → (get_total_num_cores res ≤ top → get_total_num_cores res' ≤ top)
    → (All (λ v. v ≤ top) left → All (λ v. v ≤ top) left')
    → Placed top nodes left' r
    → Placed top (res ∷ nodes) left (keep res' r)
keep-Placed top res res' nodes left left' (err e) same fits small h = tt
keep-Placed top res res' nodes left left' (ok (nodes', rest)) same fits small h =
    (omega (arith, h.0), omega (arith, h.1), λ all. (fits all.0, h.2 all.1), λ all. h.3 (small all))

-- The node with one more requirement on it.
abbrev grown : ResAllocation → ℕ → ResAllocation
grown res v = record res { vcpu_list = res.vcpu_list ++ (v ∷ []) }

grown-le :
    (res : ResAllocation) (v top : ℕ)
    → leb (get_total_num_cores res + v) top ≡ true
    → get_total_num_cores (grown res v) ≤ top
grown-le res v top h = ground (arith, sum_of-append {0} (λ u. u) res.vcpu_list (v ∷ []))

place-Placed :
    (size top : ℕ) (location : Option String) (nodes : List ResAllocation) (left : List ℕ)
    → top ≤ size
    → Placed size nodes left (place top location nodes left)
unfolding place
place-Placed size top location [] left le = (refl, refl, λ h. h, λ h. h)
place-Placed size top location (res ∷ nodes) [] le =
    elim (Bool-cases (opt_str_eq res.location_property location)) [
      | inr other ↦
          rw (other, place)
            (keep-Placed size res res nodes [] [] _ refl (λ h. h) (λ h. h)
              (place-Placed size top location nodes [] le))
      | inl same ↦ rw (same, place) tt
    ]
place-Placed size top location (res ∷ nodes) (v ∷ vs) le =
    elim (Bool-cases (opt_str_eq res.location_property location)) [
      | inr other ↦
          rw (other, place)
            (keep-Placed size res res nodes (v ∷ vs) (v ∷ vs) _ refl (λ h. h) (λ h. h)
              (place-Placed size top location nodes (v ∷ vs) le))
      | inl same ↦ elim (Bool-cases (leb (get_total_num_cores res + v) top)) [
        | inr large ↦
            rw (same, place, large)
              (keep-Placed size res res nodes (v ∷ vs) (v ∷ vs) _ refl (λ h. h) (λ h. h)
                (place-Placed size top location nodes (v ∷ vs) le))
        | inl fits ↦
            rw (same, place, fits)
              (keep-Placed size res (grown res v) nodes (v ∷ vs) vs _
                (omega (arith, sum_of-append {0} (λ u. u) res.vcpu_list (v ∷ [])))
                (λ _. le_trans (grown-le res v top fits) le) (λ h. h.1)
                (place-Placed size top location nodes vs le))
      ]
    ]

pub node_cores-new_nodes :
    (location : Option String) (reqs : List ℕ) → node_cores (new_nodes location reqs) ≡ cores reqs
node_cores-new_nodes location [] = refl
node_cores-new_nodes location (v ∷ vs) = omega (arith, node_cores-new_nodes location vs)

pub new_nodes-Fit :
    (top : ℕ) (location : Option String) (reqs : List ℕ)
    → All (λ v. v ≤ top) reqs
    → Fit top (new_nodes location reqs)
new_nodes-Fit top location [] h = tt
new_nodes-Fit top location (v ∷ vs) h = (omega arith, new_nodes-Fit top location vs h.1)

Fit-append : (top : ℕ) (xs ys : List ResAllocation) → Fit top xs → Fit top ys → Fit top (xs ++ ys)
Fit-append top [] ys h k = k
Fit-append top (x ∷ xs) ys h k = (h.0, Fit-append top xs ys h.1 k)

-- What a requirement adds to the nodes of a resource.
abbrev pub Extended : ℕ → List ℕ → List ResAllocation → Result (List ResAllocation) → Type 0
Extended top reqs nodes (err e) = Unit
Extended top reqs nodes (ok nodes') =
    (node_cores nodes' ≡ node_cores nodes + cores reqs)
    × (Fit top nodes → All (λ v. v ≤ top) reqs → Fit top nodes')

extended :
    (top : ℕ) (location : Option String) (reqs : List ℕ) (nodes : List ResAllocation)
    (r : Result (List ResAllocation × List ℕ))
    → Placed top (sort_by fuller_first nodes) reqs r
    → Extended top reqs nodes (finish location r)
extended top location reqs nodes (err e) h = tt
extended top location reqs nodes (ok (placed, left)) h = (
  omega (
    arith,
    h.0,
    sum_of-append {0} get_total_num_cores placed (new_nodes location left),
    node_cores-new_nodes location left,
    sum_of-sort_by {0} fuller_first get_total_num_cores nodes,
  ),
  λ fit small.
      Fit-append top placed (new_nodes location left) (h.2 (All-sort_by fuller_first _ nodes fit))
        (new_nodes-Fit top location left (h.3 small)),
)

-- The cores of the nodes grow by what is required, and nodes that fit still do.
pub extend_nodes-Extended :
    (size top : ℕ) (location : Option String) (reqs : List ℕ) (nodes : List ResAllocation)
    → top ≤ size
    → Extended size reqs nodes (extend_nodes top location reqs nodes)
unfolding extend_nodes
extend_nodes-Extended size top location reqs nodes le =
    extended size location reqs nodes _
      (place-Placed size top location (sort_by fuller_first nodes) reqs le)

-- The nodes after a requirement: they have its cores and those of before, and fit the size.
abbrev pub HasPlaced : ℕ → List ℕ → List ResAllocation → Result (List ResAllocation) → Type 0
HasPlaced size reqs nodes (err e) = Unit
HasPlaced size reqs nodes (ok nodes') =
    (node_cores nodes' ≡ node_cores nodes + cores reqs) × Fit size nodes'

Extended-HasPlaced :
    (size : ℕ) (reqs : List ℕ) (nodes : List ResAllocation) (r : Result (List ResAllocation))
    → Fit size nodes
    → All (λ v. v ≤ size) reqs
    → Extended size reqs nodes r
    → HasPlaced size reqs nodes r
Extended-HasPlaced size reqs nodes (err e) fit small h = tt
Extended-HasPlaced size reqs nodes (ok nodes') fit small h = (h.0, h.1 fit small)

-- If the nodes and all that is required fit a size of at least the largest flavor, then, unless it
-- raises, the placement adds exactly the cores that are required, and the nodes still fit.
pub extend_nodes-HasPlaced :
    (size top : ℕ) (location : Option String) (reqs : List ℕ) (nodes : List ResAllocation)
    → top ≤ size
    → Fit size nodes
    → All (λ v. v ≤ size) reqs
    → HasPlaced size reqs nodes (extend_nodes top location reqs nodes)
extend_nodes-HasPlaced size top location reqs nodes le fit small =
    Extended-HasPlaced size reqs nodes (extend_nodes top location reqs nodes) fit small
      (extend_nodes-Extended size top location reqs nodes le)
