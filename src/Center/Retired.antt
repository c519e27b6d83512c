-- ===== src/Center/Retired.antt =====
-- What becomes of a VM whose node was idle for too long.
use mathlib.Core.Path.{subst}
use dynamictorque.Base.{
  ℕ, ◌≡◌, refl, ap, false, ◌==◌, some, inl, inr, ◌⊎◌, Option-cases, Bool-cases, remove, remove-any,
  count-any, count, any,
}
use dynamictorque.Base.Action.{◌>>◌, Post, and_then-Post}
use dynamictorque.World.{World}
use dynamictorque.Cloud.{Cloud}
use dynamictorque.Center.State.{Center, remove_existing, set_provisioning}
use dynamictorque.Center.Cores.{update_available_cores}
use dynamictorque.Center.Admin.{shut_down}
use dynamictorque.Center.WorkerNodes.{retire, forget}
use dynamictorque.Center.Tracking.{lists}
use dynamictorque.Center.Moves.{Is, shut_down-Is}

-- What `retire` has done.
pub record Retired (r : ℕ) (s t : Center) : Type 0 where
  pub leaves :
      (remove r s.existing_instances ≡ some t.existing_instances)
      ⊎ ((count r s.existing_instances ≡ 0) × (t.existing_instances ≡ s.existing_instances))
  pub keeps_starting : t.starting_instances ≡ s.starting_instances
  pub keeps_deleting : t.deleting_instances ≡ s.deleting_instances
  pub keeps_waiting : t.provisioning ≡ false

-- An idle dynamic node is taken off the VMs that exist, and is not put among those that are being
-- deleted. If its shutdown raises, no VM has moved.
pub retire-Retired :
    (w : World) (cloud : Cloud) (r : ℕ) (s : Center)
    → Post (λ _. Retired r s) (λ t. lists t ≡ lists s) (retire w cloud r s)
unfolding retire Is update_available_cores remove_existing
retire-Retired w cloud r s =
    and_then-Post (λ _ t. lists t ≡ lists s) (λ _. Retired r s) (λ t. lists t ≡ lists s)
      (shut_down w cloud r s)
      (λ _. forget w cloud r >> (update_available_cores >> set_provisioning false))
      (shut_down-Is (lists s) w cloud r s refl)
      (λ _ t h. elim (Bool-cases (any (λ r'. r == r') t.existing_instances)) [
        | inl e ↦ elim (Option-cases (remove r t.existing_instances)) [
          | inl f ↦ absurd (remove-any r t.existing_instances e f)
          | inr (l, f) ↦ rw e (
              rw (f, remove_existing)
                (record {
                  leaves = inl (subst (λ x. remove r x ≡ some l) (ap (λ x. x.existing) h) f);
                  keeps_starting = ap (λ x. x.starting) h;
                  keeps_deleting = ap (λ x. x.deleting) h;
                  keeps_waiting = refl;
                }))
        ]
        | inr e ↦ rw e (record {
          leaves = inr (
            subst (λ x. count r x ≡ 0) (ap (λ x. x.existing) h)
                (count-any r t.existing_instances e),
            ap (λ x. x.existing) h,
          );
          keeps_starting = ap (λ x. x.starting) h;
          keeps_deleting = ap (λ x. x.deleting) h;
          keeps_waiting = refl;
        })
      ])
