-- ===== src/Center/Listed.antt =====
-- Every VM that the cloud lists when the center starts is taken over.
use dynamictorque.Base.{
  ℕ, zero, suc, ◌+◌, ◌≤◌, ◌<◌, arith, String, List, [], count, count-append, inl, inr, Bool-cases,
  leb, leb→le, leb→gt, length,
}
use dynamictorque.Base.Action.{Result, ok, err, and_then, Post, fold_each-Post}
use dynamictorque.Config.{keys}
use dynamictorque.World.{World}
use dynamictorque.Cloud.{Cloud}
use dynamictorque.Center.State.{Center, fresh}
use dynamictorque.Center.Load.{
  set_existing, load_all_existing_worker_nodes, after_load, load_existing_worker_nodes,
}
use dynamictorque.Center.Holding.{Held}
use dynamictorque.Center.Loaded.{after_load-Maintains}

count-fresh : (v from n : ℕ) → from ≤ v → v < from + n → 0 < count v (fresh from n)
count-fresh v from zero h k = omega (arith, h, k)
count-fresh v from (suc n) h k = ground (arith, count-fresh v (suc from) n)

-- The list has every object that was made since `from`.
abbrev Covers : ℕ → List ℕ → Center → Type 0
Covers from vms t = (from ≤ t.next) × ((v : ℕ) → from ≤ v → v < t.next → 0 < count v vms)

module _ (w : World) (cloud : Cloud) where
  load_all-Covers :
      (s : Center) → Post (Covers s.next) (λ _. ⊥) (load_all_existing_worker_nodes w cloud s)
  unfolding load_all_existing_worker_nodes
  load_all-Covers s =
      fold_each-Post {A = String} (λ _. Covers s.next) (λ _. ⊥) _
        (λ res _ vms t h. (
          omega (arith, h.0),
          λ v from_first before.
              let n = length (cloud.vm_list t.shell.trace res) in
              elim (Bool-cases (leb t.next v)) [
                | inr old ↦ omega (
                  arith,
                  h.1 v from_first (omega (arith, leb→gt t.next v old)),
                  count-append v vms (fresh t.next n),
                )
                | inl new ↦ omega (
                  arith,
                  count-fresh v t.next n (leb→le t.next v new) before,
                  count-append v vms (fresh t.next n),
                )
              ],
        ))
        (keys s.shell.config.cloud_resources) [] s (omega arith, λ v h k. omega (arith, h, k))

  taken-Held :
      (from v : ℕ) (x : Result (List ℕ) × Center)
      → Post (Covers from) (λ _. ⊥) x
      → from ≤ v
      → v < x.1.next
      → Held v (and_then x (λ existing. λ t. after_load w cloud (set_existing existing t))).1
  taken-Held from v (ok vms, t) h k l =
      (after_load-Maintains w cloud v).keeps (set_existing vms t) (omega (arith, h.1 v k l))
  taken-Held from v (err e, t) h k l = absurd h

  -- Every VM that the cloud lists when the center starts is in one of the lists of the center when
  -- `_load_existing_worker_nodes` ends, also if it raises.
  pub load_existing_worker_nodes-Held :
      (s : Center) (v : ℕ)
      → s.next ≤ v
      → v < (load_all_existing_worker_nodes w cloud s).1.next
      → Held v (load_existing_worker_nodes w cloud s).1
  unfolding load_existing_worker_nodes
  load_existing_worker_nodes-Held s v h k =
      taken-Held s.next v (load_all_existing_worker_nodes w cloud s) (load_all-Covers s) h k
