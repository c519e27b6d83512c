-- ===== src/Center/Trimmed.antt =====
-- The start of the center destroys idle VMs above the limit, and how that ends.
use text.Mathlib.TextEquality.{eq_iff}
use dynamictorque.Base.{
  false, some, sum_of-remove, count-filter, filter-holds, String, str_eq, filter, length, ℕ, ◌+◌,
  ◌-◌, ◌≤◌, ◌<◌, ◌≡◌, refl, sym, ◌∙◌, arith, Bool, true, not, ◌&&◌, Option, none, List, [], ◌∷◌,
  ◌++◌, ◌==◌, inl, inr, Bool-cases, Option-cases, ◌⊎◌, leb, leb→le, leb→gt, ltb, sum_of, count,
  remove, count-remove, remove-none, if◌then◌else◌, is_one,
}
use dynamictorque.Base.Action.{Result, ok, err, Error, index_error, Result-cases}
use dynamictorque.CloudTools.{Vm}
use dynamictorque.World.{World, Trace, destroyed}
use dynamictorque.Commands.{Node, node_named}
use dynamictorque.Cloud.{Cloud}
use dynamictorque.Center.State.{Center, update, remove_existing}
use dynamictorque.Center.Load.{trim, has_jobs, num_dynamic, of_resource, reverse_onto}

-- The node with the VM's name, none if there is none.
abbrev wn_of : Result (Option Node) → Option Node
wn_of (err e) = none
wn_of (ok wn) = wn

abbrev runs_jobs : List Node → Vm → Bool
runs_jobs nodes vm = has_jobs (wn_of (node_named vm.hostname nodes))

-- 1 for a dynamic VM whose node runs jobs.
abbrev is_busy : List Node → Vm → ℕ
is_busy nodes vm = if vm.dynamic && runs_jobs nodes vm then 1 else 0

-- 1 for a dynamic VM whose node runs none.
abbrev is_idle : List Node → Vm → ℕ
is_idle nodes vm = if vm.dynamic && not (runs_jobs nodes vm) then 1 else 0

-- The number of dynamic VMs that run jobs, and of those that do not.
abbrev pub busy : List ℕ → Center → ℕ
busy vms s = sum_of (λ r. is_busy s.worker_nodes (s.heap r)) vms

abbrev idle : List ℕ → Center → ℕ
idle vms s = sum_of (λ r. is_idle s.worker_nodes (s.heap r)) vms

-- Every worker node has a name, so that a look for one ends.
abbrev pub AllNamed : List Node → Type 0
AllNamed nodes = (vm : Vm) → (wn : Option Node) × (node_named vm.hostname nodes ≡ ok wn)

-- What the cloud's `vm_destroy` leaves as it is.
abbrev pub KeepsKind : Cloud → Type 0
KeepsKind cloud =
    (t : Trace) (vm : Vm)
    → ((cloud.vm_destroy t vm).1.dynamic ≡ vm.dynamic)
      × ((cloud.vm_destroy t vm).1.hostname ≡ vm.hostname)
      × ((cloud.vm_destroy t vm).1.cloud_resource_name ≡ vm.cloud_resource_name)

-- The cloud's `vm_destroy` does not raise on the VMs of a resource.
abbrev pub Destroys : Cloud → String → Type 0
Destroys cloud name =
    (t : Trace) (vm : Vm) → vm.cloud_resource_name ≡ name → (cloud.vm_destroy t vm).0 ≡ ok tt

num_dynamic-busy : (vms : List ℕ) (s : Center) → num_dynamic vms s ≡ idle vms s + busy vms s
num_dynamic-busy [] s = refl
num_dynamic-busy (r ∷ vms) s = ground (arith, num_dynamic-busy vms s)

-- A list in reverse has the same in it.
sum_of-reverse :
    (f : ℕ → ℕ) (acc xs : List ℕ) → sum_of f (reverse_onto acc xs) ≡ sum_of f xs + sum_of f acc
sum_of-reverse f acc [] = omega arith
sum_of-reverse f acc (x ∷ xs) = omega (arith, sum_of-reverse f (x ∷ acc) xs)

-- Of a resource.
abbrev is_of : String → Vm → Bool
is_of name vm = str_eq vm.cloud_resource_name name

-- 1 for a dynamic VM of the resource.
abbrev is_mine : String → Vm → ℕ
is_mine name vm = if is_of name vm then (if vm.dynamic then 1 else 0) else 0

mine-filter :
    (name : String) (heap : ℕ → Vm) (existing : List ℕ)
    → sum_of (λ r. is_mine name (heap r)) existing
      ≡ length (filter (λ r. (heap r).dynamic) (filter (λ r. is_of name (heap r)) existing))
mine-filter name heap [] = refl
mine-filter name heap (x ∷ xs) = ground (arith, mine-filter name heap xs)

-- How a run ends with `n` VMs, of which `spare` can go: with `k` VMs of the resource that exist, or
-- with an error.
abbrev pub Ends : String → ℕ → ℕ → ℕ → Result ℕ × Center → Type 0
Ends name limit n spare x =
    (n ≤ limit + spare
      → (k : ℕ) × (x.0 ≡ ok k) × (k ≤ limit) × (num_dynamic (of_resource name x.1) x.1 ≡ k))
    × (limit + spare < n → x.0 ≡ err index_error)

-- The loop that destroys idle VMs for a resource, started as the code starts it.
abbrev pub trimmed : World → Cloud → String → ℕ → Center → Result ℕ × Center
trimmed w cloud name limit s =
    let vms = of_resource name s in trim w cloud limit (num_dynamic vms s) (reverse_onto [] vms) s

-- How that ends: if at most `limit` VMs run jobs, with so many VMs of the resource left; or with an
-- error.
abbrev pub TrimEnds : String → ℕ → Center → Result ℕ × Center → Type 0
TrimEnds name limit s (x, t) =
    ((busy (of_resource name s) s ≤ limit)
      × ((k : ℕ) × (x ≡ ok k) × (k ≤ limit) × (num_dynamic (of_resource name t) t ≡ k)))
    ⊎ ((limit < busy (of_resource name s) s) × (x ≡ err index_error))

module _ (w : World) (cloud : Cloud) (kind : KeepsKind cloud) (name : String)
    (destroys : Destroys cloud name) where
  destroyed_is_idle :
      (nodes : List Node) (t : Trace) (vm : Vm)
      → is_idle nodes (cloud.vm_destroy t vm).1 ≡ is_idle nodes vm
  destroyed_is_idle nodes t vm = rw ((kind t vm).0, (kind t vm).1) refl

  destroyed_is_mine :
      (t : Trace) (vm : Vm) → is_mine name (cloud.vm_destroy t vm).1 ≡ is_mine name vm
  destroyed_is_mine t vm = rw ((kind t vm).0, (kind t vm).2) refl

  -- A measure that `vm_destroy` does not change adds up as before.
  destroyed_sum :
      (f : Vm → ℕ) (r : ℕ) (s : Center) (vm : Vm)
      → f vm ≡ f (s.heap r)
      → (vms : List ℕ) → sum_of (λ x. f (update s.heap r vm x)) vms ≡ sum_of (λ x. f (s.heap x)) vms
  destroyed_sum f r s vm same [] = refl
  destroyed_sum f r s vm same (x ∷ vms) = elim (Bool-cases (x == r)) [
    | inl e ↦
        let one : x ≡ r = ground (arith, e) in
        rw (e, one) (omega (arith, same, destroyed_sum f r s vm same vms))
    | inr e ↦ rw e (omega (arith, destroyed_sum f r s vm same vms))
  ]

  ok_not_err : {A : Type 0} {a : A} {e : Error} → ¬ (ok a ≡ err e)
  ok_not_err h = cc

  is_one_comm : (v r : ℕ) → is_one v r ≡ is_one r v
  is_one_comm v r = ground arith

  Ends-same :
      (limit n a b : ℕ) (x : Result ℕ × Center)
      → a ≡ b
      → Ends name limit n a x
      → Ends name limit n b x
  Ends-same limit n a b x e h = (λ k. h.0 (omega (arith, e, k)), λ k. h.1 (omega (arith, e, k)))

  Ends-gone :
      (limit n spare : ℕ) (x : Result ℕ × Center)
      → ltb limit n ≡ true
      → Ends name limit (n - 1) spare x
      → Ends name limit n (1 + spare) x
  Ends-gone limit n spare x e h = (λ k. h.0 (ground (arith, e, k)), λ k. h.1 (ground (arith, e, k)))

  -- What is left to look at after a VM went.
  left : (s : Center) (r : ℕ) (l : List ℕ) → Center
  left s r l = record s {
    heap = update s.heap r (cloud.vm_destroy s.shell.trace (s.heap r)).1;
    shell = record (s.shell) { trace = destroyed r ∷ s.shell.trace };
    existing_instances = l;
    deleting_instances = s.deleting_instances ++ (r ∷ []);
  }

  -- `vms` are VMs of the resource that exist, and `n` is how many dynamic ones there are.
  record Looks (n : ℕ) (vms : List ℕ) (s : Center) : Type 0 where
    there : (v : ℕ) → count v vms ≤ count v s.existing_instances
    are_mine : (v : ℕ) → 0 < count v vms → is_of name (s.heap v) ≡ true
    counted : sum_of (λ r. is_mine name (s.heap r)) s.existing_instances ≡ n

  finishes :
      (limit n spare : ℕ) (vms : List ℕ) (s : Center)
      → ltb limit n ≡ false
      → Looks n vms s
      → Ends name limit n spare (ok n, s)
  finishes limit n spare vms s e h = (
    λ _. (
      n,
      refl,
      ground (arith, e),
      sym (mine-filter name s.heap s.existing_instances) ∙ h.counted,
    ),
    λ k. ground (arith, e, k),
  )

  Looks-skip : (n r : ℕ) (vms : List ℕ) (s : Center) → Looks n (r ∷ vms) s → Looks n vms s
  Looks-skip n r vms s h = record {
    there = λ v. omega (arith, h.there v);
    are_mine = λ v k. h.are_mine v (omega (arith, k));
    counted = h.counted;
  }

  Looks-gone :
      (n r : ℕ) (vms : List ℕ) (s : Center) (l : List ℕ)
      → Looks n (r ∷ vms) s
      → (s.heap r).dynamic ≡ true
      → remove r s.existing_instances ≡ some l
      → Looks (n - 1) vms (left s r l)
  unfolding left
  Looks-gone n r vms s l h d g =
      let vm = (cloud.vm_destroy s.shell.trace (s.heap r)).1 in
      let one : is_one r r ≡ 1 = ground arith in
      let is_here = h.are_mine r (omega (arith, one)) in
      let was : is_mine name (s.heap r) ≡ 1 = rw (is_here, d) refl in
      record {
        there = λ v.
            omega (arith, h.there v, count-remove r s.existing_instances l g v, is_one_comm v r);
        are_mine = λ v k. elim (Bool-cases (v == r)) [
          | inl e ↦ rw (e, (kind s.shell.trace (s.heap r)).2) is_here
          | inr e ↦ rw e (h.are_mine v (omega (arith, k)))
        ];
        counted = omega (
          arith,
          h.counted,
          was,
          sum_of-remove (λ x. is_mine name (s.heap x)) r s.existing_instances l g,
          destroyed_sum (is_mine name) r s vm (destroyed_is_mine s.shell.trace (s.heap r)) l,
        );
      }

  -- The loop with `n` VMs to count, where `vms` are left to look at.
  trim-Ends :
      (limit n : ℕ) (vms : List ℕ) (s : Center)
      → AllNamed s.worker_nodes
      → Looks n vms s
      → Ends name limit n (idle vms s) (trim w cloud limit n vms s)
  unfolding trim left remove_existing
  trim-Ends limit n [] s named looks = elim (Bool-cases (ltb limit n)) [
    | inl e ↦ rw e (λ h. ground (arith, e, h), λ h. refl)
    | inr e ↦ rw e (finishes limit n 0 [] s e looks)
  ]
  trim-Ends limit n (r ∷ vms) s named looks = elim (Bool-cases (ltb limit n)) [
    | inr e ↦ rw e (finishes limit n (idle (r ∷ vms) s) (r ∷ vms) s e looks)
    | inl e ↦
        let skip : Ends name limit n (0 + idle vms s) (trim w cloud limit n vms s) =
          Ends-same limit n (idle vms s) (0 + idle vms s) (trim w cloud limit n vms s) (omega arith)
            (trim-Ends limit n vms s named (Looks-skip n r vms s looks)) in
        elim (Result-cases (node_named (s.heap r).hostname s.worker_nodes)) [
          | inr (x, f) ↦ absurd (ok_not_err (sym (named (s.heap r)).1 ∙ f))
          | inl (wn, f) ↦ elim (Bool-cases (s.heap r).dynamic) [
            | inr d ↦ rw (e, f, d) skip
            | inl d ↦ elim (Bool-cases (has_jobs wn)) [
              | inl j ↦ rw (e, f, j, d) skip
              | inr j ↦ elim (Option-cases (remove r s.existing_instances)) [
                | inl gone ↦
                    let one : is_one r r ≡ 1 = ground arith in
                    absurd
                      (omega (arith, looks.there r, one, remove-none r s.existing_instances gone))
                | inr (l, g) ↦
                    let t = s.shell.trace in
                    let one : is_one r r ≡ 1 = ground arith in
                    let here : (s.heap r).cloud_resource_name ≡ name =
                      (eq_iff (s.heap r).cloud_resource_name name).0
                        (looks.are_mine r (omega (arith, one))) in
                    let rest =
                      trim-Ends limit (n - 1) vms (left s r l) named
                        (Looks-gone n r vms s l looks d g) in
                    rw (e, f, j, d, destroys t (s.heap r) here, g, remove_existing)
                      (Ends-gone limit n (idle vms s) (trim w cloud limit (n - 1) vms (left s r l))
                        e
                        (Ends-same limit (n - 1) (idle vms (left s r l)) (idle vms s)
                          (trim w cloud limit (n - 1) vms (left s r l))
                          (destroyed_sum (is_idle s.worker_nodes) r s
                            (cloud.vm_destroy t (s.heap r)).1
                            (destroyed_is_idle s.worker_nodes t (s.heap r)) vms)
                          rest))
              ]
            ]
          ]
        ]
  ]

  -- Let every worker node have a name, and the cloud's `vm_destroy` leave a VM's kind, name and
  -- resource as they are and not raise on VMs of this resource. If at most `limit` dynamic VMs of
  -- the resource run jobs, the loop that destroys idle VMs answers a number of at most `limit`, and
  -- just so many dynamic VMs of the resource are left among those that exist; if more run jobs, it
  -- raises `IndexError`.
  pub trim-busy :
      (limit : ℕ) (s : Center)
      → AllNamed s.worker_nodes
      → TrimEnds name limit s (trimmed w cloud name limit s)
  trim-busy limit s named =
      let vms = of_resource name s in
      let order = reverse_onto [] vms in
      let is_here = λ (r : ℕ). is_of name (s.heap r) in
      let looks : Looks (num_dynamic vms s) order s = record {
        there = λ v.
            omega (
              arith,
              sum_of-reverse (is_one v) [] vms,
              count-filter is_here v s.existing_instances,
            );
        are_mine = λ v k.
            filter-holds is_here v s.existing_instances
              (omega (arith, k, sum_of-reverse (is_one v) [] vms));
        counted = mine-filter name s.heap s.existing_instances;
      } in
      let ends = trim-Ends limit (num_dynamic vms s) order s named looks in
      let spare = sum_of-reverse (λ r. is_idle s.worker_nodes (s.heap r)) [] vms in
      elim (Bool-cases (leb (busy vms s) limit)) [
        | inl e ↦
            let h = leb→le (busy vms s) limit e in
            inl (h, ends.0 (omega (arith, num_dynamic-busy vms s, h, spare)))
        | inr e ↦
            let h : limit < busy vms s = omega (arith, leb→gt (busy vms s) limit e) in
            inr (h, ends.1 (omega (arith, num_dynamic-busy vms s, h, spare)))
      ]
