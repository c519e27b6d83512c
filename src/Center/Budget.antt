-- ===== src/Center/Budget.antt =====
-- The nodes that are left, the plan for the idle jobs, and the limits of the configuration.
use text.Mathlib.TextEquality.{eq_iff}
use mathlib.Core.Path.{subst}
use mathlib.Core.Option.{some-injective}
use native.Mathlib.Nat.{add-mul}
use dynamictorque.Base.{
  ℕ, ◌+◌, ◌-◌, ◌*◌, ◌≤◌, ◌<◌, ◌≡◌, refl, ap, sym, arith, String, Option, some, List, [], ◌∷◌, inl,
  inr, ◌⊎◌, Option-cases, Bool-cases, str_eq, leb, leb→le, leb→gt,
}
use dynamictorque.Base.Int.{pos, negsuc, sub_ℕ, ◌*ℤ◌, ◌≤ℤ◌}
use dynamictorque.Base.Dict.{Dict, lookup}
use dynamictorque.Base.Action.{Post, Post-imp}
use dynamictorque.CloudTools.{CloudResource, ResAllocation}
use dynamictorque.CloudTools.Capacity.{max_vcpus}
use dynamictorque.JobScheduler.{Job, node_cores, planned, plan_jobs}
use dynamictorque.JobScheduler.Frame.{size, Size, size_at, SameSize}
use dynamictorque.JobScheduler.Capacity.{IsWithin, NodesWithin}
use dynamictorque.JobScheduler.Assign.{planned-none, planned-some}
use dynamictorque.JobScheduler.Plan.{plan_jobs-IsWithin}
use dynamictorque.Center.State.{Center}
use dynamictorque.Center.Cores.{num_used, set_available, update_available_cores}

abbrev counted : (String → ℕ) → String → CloudResource → CloudResource
counted used name r = record r {
  available_number_of_nodes = sub_ℕ r.number_of_dynamic_worker_nodes (used name);
}

lookup-set_available :
    (used : String → ℕ) (name : String) (resources : Dict CloudResource) (r : CloudResource)
    → lookup name resources ≡ some r
    → lookup name (set_available used resources) ≡ some (counted used name r)
unfolding lookup
lookup-set_available used name [] r h = cc
lookup-set_available used name ((k, x) ∷ rest) r h = elim (Bool-cases (str_eq k name)) [
  | inl e ↦
      let found : some x ≡ some r = rw e at h in
      rw e (ap some (λ i. counted used ((eq_iff k name).0 e i) (some-injective x r found i)))
  | inr e ↦ rw e (lookup-set_available used name rest r (rw e at h))
]

-- A number of cores for which the nodes that are left are enough.
room_left :
    (n left used top : ℕ) → pos n ≤ℤ pos left *ℤ pos top → n + used * top ≤ (left + used) * top
unfolding ◌*ℤ◌
room_left n left used top h =
    let all : n ≤ left * top = ground (arith, h) in omega (arith, all, add-mul left used top)

no_room : (n over top : ℕ) → pos n ≤ℤ negsuc over *ℤ pos top → n ≡ 0
unfolding ◌*ℤ◌
no_room n over top h = ground (arith, h)

-- The nodes in use are within the limit, and so are they with the planned cores; or they are
-- beyond it, and no cores are planned.
abbrev pub WithinLimit : (planned limit used top : ℕ) → Type 0
WithinLimit planned limit used top =
    ((used ≤ limit) × (planned + used * top ≤ limit * top)) ⊎ ((limit < used) × (planned ≡ 0))

used_within : (limit used top : ℕ) → used ≤ limit → used * top ≤ limit * top
used_within limit used top h =
    let same : (limit - used) + used ≡ limit = omega (arith, h) in
    omega (arith, add-mul (limit - used) used top, ap (λ l. l * top) same)

none_planned : (limit used top : ℕ) → WithinLimit 0 limit used top
none_planned limit used top = elim (Bool-cases (leb used limit)) [
  | inl e ↦ let h = leb→le used limit e in inl (h, omega (arith, used_within limit used top h))
  | inr e ↦ inr (omega (arith, leb→gt used limit e), refl)
]

room : (n limit used top : ℕ) → pos n ≤ℤ sub_ℕ limit used *ℤ pos top → WithinLimit n limit used top
room n limit used top h = elim (Bool-cases (leb used limit)) [
  | inl e ↦
      let fits = leb→le used limit e in
      let same : (limit - used) + used ≡ limit = omega (arith, fits) in
      inl (
        fits,
        subst (λ l. n + used * top ≤ l * top) same
            (room_left n (limit - used) used top (rw e at h)),
      )
  | inr e ↦ inr (omega (arith, leb→gt used limit e), no_room n (used - limit - 1) top (rw e at h))
]

within_limit :
    (n limit used top : ℕ) (nodes : List ResAllocation) (V : Option Size)
    → n ≡ node_cores nodes
    → V ≡ some (sub_ℕ limit used, top)
    → NodesWithin V nodes
    → WithinLimit n limit used top
within_limit n limit used top nodes V e f h = room n limit used top (
    subst (λ m. pos m ≤ℤ sub_ℕ limit used *ℤ pos top) (sym e)
      (subst (λ W. NodesWithin W nodes) f h).0)

-- A plan that is made right after the nodes left were counted, for a resource of the configuration.
-- If the nodes in use are within the limit, the planned cores and the largest flavor's cores for
-- each node in use are within the largest flavor's cores for each node of the limit. If the nodes
-- in use are beyond the limit, no cores are planned.
pub plan_jobs-WithinLimit :
    (draw : ℕ → ℕ → ℕ) (jobs : List Job) (n : ℕ) (s : Center) (name : String) (r : CloudResource)
    → lookup name s.shell.config.cloud_resources ≡ some r
    → Post
        (λ req_list _.
          WithinLimit
            (planned name req_list)
            r.number_of_dynamic_worker_nodes
            (num_used name s)
            (max_vcpus r.flavor_objects))
        (λ _. Unit {0})
        (plan_jobs draw jobs n (update_available_cores s).1.shell.config)
unfolding update_available_cores
plan_jobs-WithinLimit draw jobs n s name r e =
    let c = (update_available_cores s).1.shell.config in
    let counted_size =
      ap size_at
        (lookup-set_available (λ k. num_used k s) name s.shell.config.cloud_resources r e) in
    Post-imp (λ req_list c'. IsWithin (λ k. size k c) req_list × SameSize (λ k. size k c) c')
      (λ req_list _.
        WithinLimit (planned name req_list) r.number_of_dynamic_worker_nodes (num_used name s)
          (max_vcpus r.flavor_objects))
      (SameSize (λ k. size k c)) (λ _. Unit {0}) _
      (λ req_list c' h. elim (Option-cases (lookup name req_list)) [
        | inl g ↦
            subst
              (λ k.
                WithinLimit k r.number_of_dynamic_worker_nodes (num_used name s)
                  (max_vcpus r.flavor_objects))
              (sym (planned-none name req_list g))
              (none_planned r.number_of_dynamic_worker_nodes (num_used name s)
                (max_vcpus r.flavor_objects))
        | inr (nodes, g) ↦
            within_limit (planned name req_list) r.number_of_dynamic_worker_nodes (num_used name s)
              (max_vcpus r.flavor_objects) nodes (size name c) (planned-some name req_list nodes g)
              counted_size (h.0 name nodes g)
      ])
      (λ _ _. tt) (plan_jobs-IsWithin draw jobs n c)
