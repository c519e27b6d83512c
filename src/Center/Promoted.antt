-- ===== src/Center/Promoted.antt =====
-- What `update_provision_status` does with the VMs that are ready and those that failed.
use dynamictorque.Base.{
  ℕ, ◌+◌, ◌≤◌, ◌≡◌, refl, arith, List, [], ◌∷◌, inl, inr, Option-cases, remove, is_one,
  count-append, count-remove,
}
use dynamictorque.Base.Action.{Action, ◌>>◌, Post, Post-imp, and_then-Post, for_each-Post, for_each}
use dynamictorque.World.{World}
use dynamictorque.Config.{with_resource}
use dynamictorque.Cloud.{Cloud}
use dynamictorque.Center.State.{Center, on_config, remove_starting, vm_destroy, append_deleting}
use dynamictorque.Center.Provision.{Progress, admit, give_up, promote, take_static, ask_again}
use dynamictorque.Center.Tracking.{tracked, lists, lift_then-Post, answer-Post}
use dynamictorque.Center.Settled.{tracked-lists}

-- No VM is lost, and none is held more often.
abbrev pub Same : Center → Center → Type 0
Same s t = (v : ℕ) → tracked v t ≡ tracked v s

-- All VMs are held as often as before but one, which may be held once less.
abbrev pub AllButOne : Center → Center → Type 0
AllButOne s t = (lost : ℕ) × ((v : ℕ) → tracked v s ≤ tracked v t + is_one v lost)

-- None is lost.
pub Same-AllButOne : (s t : Center) → Same s t → AllButOne s t
Same-AllButOne s t h = (0, λ v. omega (arith, h v))

Same-trans : (s t u : Center) → Same s t → Same t u → Same s u
Same-trans s t u h k v = omega (arith, h v, k v)

pub Same-AllButOne-trans : (s t u : Center) → Same s t → AllButOne t u → AllButOne s u
Same-AllButOne-trans s t u h (lost, k) = (lost, λ v. omega (arith, h v, k v))

module _ (w : World) (cloud : Cloud) where
  admit-Same : (r : ℕ) (s : Center) → Post (λ _. Same s) (AllButOne s) (admit w cloud r s)
  unfolding admit remove_starting
  admit-Same r s = elim (Option-cases (remove r s.starting_instances)) [
    | inl e ↦ rw (e, remove_starting) (Same-AllButOne s s (λ v. refl))
    | inr (l, e) ↦
        rw (e, remove_starting)
          (lift_then-Post (λ _. Same s) (AllButOne s)
            (on_config (
              with_resource (s.heap r).cloud_resource_name (
                take_static w cloud (s.heap r).availability_zone
                  s.shell.config.location_properties)))
            _ (record s { starting_instances = l })
            (λ _ _ v. omega (
              arith,
              count-remove r s.starting_instances l e v,
              count-append v s.existing_instances (r ∷ []),
            ))
            (λ _. (r, λ v. omega (arith, count-remove r s.starting_instances l e v))))
  ]

  -- The lists are those of the start: only the waiting list has changed.
  abbrev Unmoved : Center → Center → Type 0
  Unmoved s t = lists t ≡ lists s

  Unmoved-Same : (s t : Center) → Unmoved s t → Same s t
  Unmoved-Same s t h v = tracked-lists v s t h

  ask_again-Unmoved :
      (r : ℕ) (s : Center) → Post (λ _. Unmoved s) (AllButOne s) (ask_again w cloud (s.heap r) s)
  ask_again-Unmoved r s = elim (Option-cases (s.heap r).flavor) [
    | inl e ↦ rw e refl
    | inr (flavor, e) ↦ rw e (elim (Option-cases (s.heap r).availability_zone) [
      | inl f ↦ rw f refl
      | inr (zone, f) ↦ rw f refl
    ])
  ]

  -- The VM moves once it was destroyed.
  moved-Same :
      (r : ℕ) (s : Center)
      → Post (λ _. Same s) (AllButOne s) ((remove_starting r >> append_deleting r) s)
  unfolding remove_starting
  moved-Same r s = elim (Option-cases (remove r s.starting_instances)) [
    | inl e ↦ rw (e, remove_starting) (Same-AllButOne s s (λ v. refl))
    | inr (l, e) ↦
        rw (e, remove_starting)
          (λ v. omega (
            arith,
            count-remove r s.starting_instances l e v,
            count-append v s.deleting_instances (r ∷ []),
          ))
  ]

  give_up-Same : (r : ℕ) (s : Center) → Post (λ _. Same s) (AllButOne s) (give_up w cloud r s)
  unfolding give_up
  give_up-Same r s =
      and_then-Post (λ _. Unmoved s) (λ _. Same s) (AllButOne s) (ask_again w cloud (s.heap r) s)
        (λ _. vm_destroy cloud r >> (remove_starting r >> append_deleting r))
        (ask_again-Unmoved r s)
        (λ _ t h.
          let same = Unmoved-Same s t h in
          and_then-Post (λ _. Unmoved t) (λ _. Same s) (AllButOne s) (vm_destroy cloud r t)
            (λ _. remove_starting r >> append_deleting r)
            (Post-imp (λ _. Unmoved t) (λ _. Unmoved t) (Unmoved t) (AllButOne s) _ (λ _ _ k. k)
              (λ u k. Same-AllButOne-trans s t u same (Same-AllButOne t u (Unmoved-Same t u k)))
              (answer-Post (Unmoved t) _ _ refl))
            (λ _ u k.
              let same' = Same-trans s t u same (Unmoved-Same t u k) in
              Post-imp (λ _. Same u) (λ _. Same s) (AllButOne u) (AllButOne s) _
                (λ _ x j. Same-trans s u x same' j) (λ x j. Same-AllButOne-trans s u x same' j)
                (moved-Same r u)))

  all-Same :
      (body : ℕ → Action Center Unit)
      → ((r : ℕ) (s : Center) → Post (λ _. Same s) (AllButOne s) (body r s))
      → (rs : List ℕ) (s t : Center) → Same s t
      → Post (λ _. Same s) (AllButOne s) (for_each rs body t)
  all-Same body step rs s t h =
      for_each-Post (λ _. Same s) (AllButOne s) body
        (λ r _ u k.
          Post-imp (λ _. Same u) (λ _. Same s) (AllButOne u) (AllButOne s) _
            (λ _ x j. Same-trans s u x k j) (λ x j. Same-AllButOne-trans s u x k j) (step r u))
        rs t h

  -- The VMs that are ready go to those that exist, and those that failed to those that are being
  -- deleted: the lists together hold every VM as often as before. If a step raises, at most one
  -- VM is held less often, by one.
  pub promote-Same :
      (p : Progress) (s : Center) → Post (λ _. Same s) (AllButOne s) (promote w cloud p s)
  unfolding promote
  promote-Same p s =
      and_then-Post (λ _. Same s) (λ _. Same s) (AllButOne s)
        (for_each p.ready_to_use (admit w cloud) s) (λ _. for_each p.to_delete (give_up w cloud))
        (all-Same (admit w cloud) admit-Same p.ready_to_use s s (λ v. refl))
        (λ _ t h. all-Same (give_up w cloud) give_up-Same p.to_delete s t h)
