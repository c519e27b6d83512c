-- ===== src/Center/Settled.antt =====
-- What `check_cleanup` does with the VMs that are gone and those that run jobs again.
use dynamictorque.Base.{
  ℕ, ◌+◌, ◌≤◌, ◌≡◌, refl, ap, arith, String, not, ◌&&◌, Option, none, some, List, [], ◌∷◌, ◌++◌,
  inl, inr, Option-cases, Bool-cases, List-cases, remove, count, count-append, count-remove,
  if◌then◌else◌, str_eq,
}
use dynamictorque.Base.Action.{
  Post, Post-imp, pure, and_then-Post, for_each-Post, if-Post, ◌>>=◌, ◌>>◌,
}
use dynamictorque.CloudTools.{CloudResource}
use dynamictorque.Config.{with_resource}
use dynamictorque.World.{World}
use dynamictorque.Commands.{post_vm_destroy_action, post_remove_node_action, release_node_in_torque}
use dynamictorque.Cloud.{Cloud}
use dynamictorque.Center.State.{Center, get_vm, lift, on_config, remove_deleting}
use dynamictorque.Center.Cleanup.{
  Outcome, close_port, close_ports, add_static, request_again, replace_static, zone_location,
  finish_deleted, resume, settle,
}
use dynamictorque.Center.Tracking.{Lists, lists, tracked, lift-Post, lift_then-Post}

module _ (l : Lists) (w : World) (cloud : Cloud) where
  Is : Center → Type 0
  Is t = lists t ≡ l

  close_port-Is :
      (ip : Option String) (entry : String × CloudResource) (s : Center)
      → Is s
      → Post (λ _. Is) Is (close_port w cloud ip entry s)
  unfolding Is
  close_port-Is none entry s h = h
  close_port-Is (some address) (res, resource) s h =
      elim (Bool-cases (not (str_eq res "default") && resource.has_volume)) [
        | inl e ↦ rw e (elim (List-cases s.shell.config.cloud_security_groups) [
          | inl f ↦ rw f h
          | inr (g, gs, f) ↦ rw f h
        ])
        | inr e ↦ rw e h
      ]

  close_ports-Is : (r : ℕ) (s : Center) → Is s → Post (λ _. Is) Is (close_ports w cloud r s)
  unfolding Is
  close_ports-Is r s h =
      if-Post (λ _. Is) Is (str_eq (s.heap r).cloud_resource_name "default") _ (pure tt) s
        (λ _.
          for_each-Post (λ _. Is) Is (close_port w cloud (s.heap r).ip)
            (λ e _ t k. close_port-Is (s.heap r).ip e t k) s.shell.config.cloud_resources s h)
        (λ _. h)

  request_again-Is : (r : ℕ) (s : Center) → Is s → Post (λ _. Is) Is (request_again w cloud r s)
  unfolding Is
  request_again-Is r s h = elim (Option-cases (s.heap r).flavor) [
    | inl f ↦ rw f h
    | inr (flavor, f) ↦ rw f h
  ]

  replace_static-Is : (r : ℕ) (s : Center) → Is s → Post (λ _. Is) Is (replace_static w cloud r s)
  unfolding replace_static Is
  replace_static-Is r s h =
      elim (Option-cases
        (zone_location s.shell.config.location_properties (s.heap r).availability_zone)) [
          | inl e ↦ rw e h
          | inr (location, e) ↦ rw e (
              lift_then-Post (λ _. Is) Is
                (on_config
                  (with_resource (s.heap r).cloud_resource_name (add_static w cloud location)))
                (λ _. request_again w cloud r) s
                (λ _ sh. request_again-Is r (record s { shell = sh }) h) (λ _. h))
        ]

  -- All of `finish_deleted` behind its removal.
  after_removal-Is :
      (r : ℕ) (s : Center)
      → Is s
      → Post
          (λ _. Is)
          Is
          ((do
            vm ← get_vm r
            lift (post_vm_destroy_action w vm)
            lift (post_remove_node_action w vm)
            close_ports w cloud r
            if vm.dynamic then pure tt else replace_static w cloud r)
            s)
  unfolding Is
  after_removal-Is r s h =
      lift_then-Post (λ _. Is) Is (post_vm_destroy_action w _) _ _
        (λ _ _.
          lift_then-Post (λ _. Is) Is (post_remove_node_action w _) _ _
            (λ _ sh.
              and_then-Post (λ _. Is) (λ _. Is) Is (close_ports w cloud r (record s { shell = sh }))
                _ (close_ports-Is r (record s { shell = sh }) h)
                (λ _ t k.
                  if-Post (λ _. Is) Is (s.heap r).dynamic (pure tt) (replace_static w cloud r) t
                    (λ _. k) (λ _. replace_static-Is r t k)))
            (λ _. h))
        (λ _. h)

-- The VMs of the lists but for those that are gone: the lists hold `v` as often as before, less one
-- for each of `gone` that it is.
abbrev pub Loses : ℕ → List ℕ → Center → Center → Type 0
Loses v gone s t = tracked v t + count v gone ≡ tracked v s

-- After a raise some may not have been taken off yet.
abbrev pub LosesAtMost : ℕ → List ℕ → Center → Center → Type 0
LosesAtMost v gone s t = tracked v s ≤ tracked v t + count v gone

pub tracked-lists : (v : ℕ) (s t : Center) → lists t ≡ lists s → tracked v t ≡ tracked v s
tracked-lists v s t h = ap (λ l. count v l.existing + count v l.starting + count v l.deleting) h

module _ (w : World) (cloud : Cloud) (v : ℕ) where
  finish_deleted-Loses :
      (r : ℕ) (s : Center)
      → Post (λ _. Loses v (r ∷ []) s) (LosesAtMost v (r ∷ []) s) (finish_deleted w cloud r s)
  unfolding finish_deleted remove_deleting Is
  finish_deleted-Loses r s = elim (Option-cases (remove r s.deleting_instances)) [
    | inl e ↦ rw (e, remove_deleting) (omega arith)
    | inr (l, e) ↦
        rw (e, remove_deleting)
          (let t = record s { deleting_instances = l } in
            Post-imp (λ _. Is (lists t) w cloud) (λ _. Loses v (r ∷ []) s) (Is (lists t) w cloud)
              (LosesAtMost v (r ∷ []) s) _
              (λ _ u h.
                omega (arith, tracked-lists v t u h, count-remove r s.deleting_instances l e v))
              (λ u h.
                omega (arith, tracked-lists v t u h, count-remove r s.deleting_instances l e v))
              (after_removal-Is (lists t) w cloud r t refl))
  ]

  resume-Loses :
      (r : ℕ) (s : Center) → Post (λ _. Loses v [] s) (LosesAtMost v [] s) (resume w cloud r s)
  unfolding resume remove_deleting Is
  resume-Loses r s = elim (Option-cases (remove r s.deleting_instances)) [
    | inl e ↦ rw (e, remove_deleting) (omega (arith, count-append v s.existing_instances (r ∷ [])))
    | inr (l, e) ↦
        rw (e, remove_deleting)
          (let t = record s {
            deleting_instances = l;
            existing_instances = s.existing_instances ++ (r ∷ []);
          } in
            lift-Post (λ _. Loses v [] s) (LosesAtMost v [] s) (release_node_in_torque w (s.heap r))
              t
              (λ _ _. omega (
                arith,
                count-append v s.existing_instances (r ∷ []),
                count-remove r s.deleting_instances l e v,
              ))
              (λ _. omega (
                arith,
                count-append v s.existing_instances (r ∷ []),
                count-remove r s.deleting_instances l e v,
              )))
  ]

  -- The invariant of the loop on the VMs that are gone, with those that are still to forget.
  abbrev LeftToForget : Outcome → Center → List ℕ → Center → Type 0
  LeftToForget o s rs t = tracked v t + count v o.vm_deleted ≡ tracked v s + count v rs

  -- Of all that the center tracks, `check_cleanup` forgets those VMs that were found gone and no
  -- others: the lists hold each VM as often as before, less one for each time it was found gone. If
  -- a step raises, at most those are missing.
  pub settle-Loses :
      (o : Outcome) (s : Center)
      → Post (λ _. Loses v o.vm_deleted s) (LosesAtMost v o.vm_deleted s) (settle w cloud o s)
  unfolding settle
  settle-Loses o s =
      and_then-Post (λ _. LeftToForget o s []) (λ _. Loses v o.vm_deleted s)
        (LosesAtMost v o.vm_deleted s) _ _
        (for_each-Post (LeftToForget o s) (LosesAtMost v o.vm_deleted s) (finish_deleted w cloud)
          (λ r rs t h.
            Post-imp (λ _. Loses v (r ∷ []) t) (λ _. LeftToForget o s rs) (LosesAtMost v (r ∷ []) t)
              (LosesAtMost v o.vm_deleted s) _ (λ _ u k. omega (arith, h, k))
              (λ u k. omega (arith, h, k)) (finish_deleted-Loses r t))
          o.vm_deleted s (omega arith))
        (λ _ t h.
          for_each-Post (λ _. Loses v o.vm_deleted s) (LosesAtMost v o.vm_deleted s)
            (resume w cloud)
            (λ r rs t h.
              Post-imp (λ _. Loses v [] t) (λ _. Loses v o.vm_deleted s) (LosesAtMost v [] t)
                (LosesAtMost v o.vm_deleted s) _ (λ _ u k. omega (arith, h, k))
                (λ u k. omega (arith, h, k)) (resume-Loses r t))
            o.vm_executing t (omega (arith, h)))
