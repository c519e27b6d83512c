-- ===== src/Center/Cleaned.antt =====
-- A whole `check_cleanup` while the cloud reports no VM gone.
use dynamictorque.Base.{
  ℕ, ◌≤◌, ◌≡◌, refl, ap, ◌∙◌, arith, Bool, true, false, not, ◌&&◌, ◌||◌, List, [], ◌∷◌, inl, inr,
  count, count-append, length, ltb,
}
use dynamictorque.Base.Action.{
  Result, ok, err, ◌>>◌, Post, Post-imp, and_then-Post, fold_each-Post, fold_each, if-Post, pure,
}
use dynamictorque.CloudTools.{Vm}
use dynamictorque.World.{World, Trace}
use dynamictorque.Cloud.{Cloud}
use dynamictorque.Commands.{dump_nodes_to_persistent_file}
use dynamictorque.Center.State.{Center, fresh}
use dynamictorque.Center.Cores.{update_available_cores}
use dynamictorque.Center.Launch.{launch_instances}
use dynamictorque.Center.Cleanup.{
  Outcome, check_deleting, settle, dump_if, launch_waiting, clean, check_cleanup,
}
use dynamictorque.Center.Tracking.{lists, tracked, lift-Post}
use dynamictorque.Center.Settled.{Loses, LosesAtMost, settle-Loses, tracked-lists}
use dynamictorque.Center.Judged.{Verdict, check_deleting-Verdict}
use dynamictorque.Center.Launched.{Launched, room_of, launch_instances-Launched}
use dynamictorque.Center.Started.{Stopped}

-- No VM that is tracked is forgotten.
abbrev pub Keeps : ℕ → Center → Center → Type 0
Keeps v s t = tracked v s ≤ tracked v t

Launched-Keeps : (cloud : Cloud) (v : ℕ) (s t : Center) → Launched cloud s t → Keeps v s t
Launched-Keeps cloud v s t h = omega (
  arith,
  ap (count v) h.existing,
  ap (count v) h.deleting,
  ap (count v) h.starting,
  count-append v s.starting_instances (fresh s.next h.number),
)

-- No launch forgets a VM, also if it raises.
pub launch_instances-Keeps :
    (cloud : Cloud) (v : ℕ) (s : Center)
    → Post (λ _. Keeps v s) (Keeps v s) (launch_instances cloud s)
launch_instances-Keeps cloud v s =
    Post-imp (λ _. Launched cloud s) (λ _. Keeps v s)
      (Stopped cloud (room_of s) s.provision_waiting_list s) (Keeps v s) _
      (λ _ t h. Launched-Keeps cloud v s t h)
      (λ t h. omega (
        arith,
        ap (count v) h.grown.existing,
        ap (count v) h.grown.deleting,
        ap (count v) h.grown.starting,
        count-append v s.starting_instances (fresh s.next h.number),
      ))
      (launch_instances-Launched cloud s)

pub dump_if-Keeps :
    (w : World) (v : ℕ) (s : Center) (news : Bool) (t : Center)
    → Keeps v s t
    → Post (λ _. Keeps v s) (Keeps v s) (dump_if w news t)
dump_if-Keeps w v s true t h =
    lift-Post (λ _. Keeps v s) (Keeps v s) (dump_nodes_to_persistent_file w _) t (λ _ _. h) (λ _. h)
dump_if-Keeps w v s false t h = h

-- For all VMs at once.
abbrev pub KeepsAll : Center → Center → Type 0
KeepsAll s t = (v : ℕ) → Keeps v s t

pub Keeps-all :
    {A : Type 0} (s : Center) (r : Result A × Center)
    → ((v : ℕ) → Post (λ _. Keeps v s) (Keeps v s) r)
    → Post (λ _. KeepsAll s) (KeepsAll s) r
Keeps-all s (ok a, t) h = h
Keeps-all s (err e, t) h = h

module _ (w : World) (cloud : Cloud)
    (present : (t : Trace) (vm : Vm) → ¬ ((cloud.vm_check t vm).0 ≡ ok 3)) where
  -- The invariant of the first loop.
  abbrev NoneGone : Center → Outcome → Center → Type 0
  NoneGone s o t = (o.vm_deleted ≡ []) × (lists t ≡ lists s)

  Verdict-NoneGone :
      (r : ℕ) (answer : Result ℕ) (o o' : Outcome)
      → ¬ (answer ≡ ok 3)
      → Verdict r answer o o'
      → o.vm_deleted ≡ []
      → o'.vm_deleted ≡ []
  Verdict-NoneGone r answer o o' here (inl same) h = ap (λ x. x.vm_deleted) same ∙ h
  Verdict-NoneGone r answer o o' here (inr (inl (gone, e))) h = absurd (here gone)
  Verdict-NoneGone r answer o o' here (inr (inr (k, e))) h = ap (λ x. x.vm_deleted) e ∙ h

  check_all-NoneGone :
      (s : Center) (rs : List ℕ) (o : Outcome)
      → o.vm_deleted ≡ []
      → Post (NoneGone s) (λ t. lists t ≡ lists s) (fold_each rs o (check_deleting w cloud) s)
  check_all-NoneGone s rs o none =
      fold_each-Post (λ _. NoneGone s) (λ t. lists t ≡ lists s) (check_deleting w cloud)
        (λ r xs o t h.
          Post-imp
            (λ o' u.
              Verdict r (cloud.vm_check t.shell.trace (t.heap r)).0 o o' × (lists u ≡ lists t))
            (NoneGone s) (λ u. lists u ≡ lists t) (λ u. lists u ≡ lists s) _
            (λ o' u k.
              (Verdict-NoneGone r _ o o' (present t.shell.trace (t.heap r)) k.0 h.0, k.1 ∙ h.1))
            (λ u k. k ∙ h.1) (check_deleting-Verdict w cloud o r t))
        rs o s (none, refl)

  module _ (v : ℕ) (s : Center) where
    launch_waiting-Keeps :
        (t : Center) → Keeps v s t → Post (λ _. Keeps v s) (Keeps v s) (launch_waiting w cloud t)
    launch_waiting-Keeps t h =
        if-Post (λ _. Keeps v s) (Keeps v s)
          (ltb 0 (length t.provision_waiting_list) && not t.provisioning) (launch_instances cloud)
          (pure tt) t
          (λ _.
            Post-imp (λ _. Keeps v t) (λ _. Keeps v s) (Keeps v t) (Keeps v s) _
              (λ _ u k. omega (arith, h, k)) (λ u k. omega (arith, h, k))
              (launch_instances-Keeps cloud v t))
          (λ _. h)

    -- The rest of the call behind the first loop.
    rest-Keeps :
        (o : Outcome) (t : Center)
        → NoneGone s o t
        → Post
            (λ _. Keeps v s)
            (Keeps v s)
            ((settle w cloud o
                >> (update_available_cores
                    >> (dump_if w (ltb 0 (length o.vm_deleted) || ltb 0 (length o.vm_executing))
                        >> launch_waiting w cloud)))
              t)
    unfolding update_available_cores
    rest-Keeps o t h =
        let before = tracked-lists v s t h.1 in
        let none = ap (count v) h.0 in
        let news = ltb 0 (length o.vm_deleted) || ltb 0 (length o.vm_executing) in
        and_then-Post (λ _. Keeps v s) (λ _. Keeps v s) (Keeps v s) (settle w cloud o t) _
          (Post-imp (λ _. Loses v o.vm_deleted t) (λ _. Keeps v s) (LosesAtMost v o.vm_deleted t)
            (Keeps v s) _ (λ _ u k. omega (arith, k, before, none))
            (λ u k. omega (arith, k, before, none)) (settle-Loses w cloud v o t))
          (λ _ u k.
            and_then-Post (λ _. Keeps v s) (λ _. Keeps v s) (Keeps v s)
              (dump_if w news (update_available_cores u).1) _
              (dump_if-Keeps w v s news (update_available_cores u).1 k)
              (λ _ x m. launch_waiting-Keeps x m))

clean-Keeps :
    (w : World) (cloud : Cloud) (v : ℕ) (s : Center) (rs : List ℕ)
    → ((t : Trace) (vm : Vm) → ¬ ((cloud.vm_check t vm).0 ≡ ok 3))
    → Post (λ _. Keeps v s) (Keeps v s) (clean w cloud rs s)
unfolding clean
clean-Keeps w cloud v s [] present = omega arith
clean-Keeps w cloud v s (r ∷ rs) present =
    and_then-Post (NoneGone w cloud present s) (λ _. Keeps v s) (Keeps v s)
      (fold_each (r ∷ rs) (record { vm_deleted = []; vm_executing = [] }) (check_deleting w cloud)
        s)
      _
      (Post-imp (NoneGone w cloud present s) (NoneGone w cloud present s) (λ t. lists t ≡ lists s)
        (Keeps v s) _ (λ _ _ h. h) (λ t h. omega (arith, tracked-lists v s t h))
        (check_all-NoneGone w cloud present s (r ∷ rs) _ refl))
      (λ o t h. rest-Keeps w cloud present v s o t h)

-- As long as the cloud reports no VM gone (state 3), a whole cleanup forgets no VM: each is held
-- by the lists at least as often as before, also if a step raises.
pub check_cleanup-Keeps :
    (w : World) (cloud : Cloud) (v : ℕ) (s : Center)
    → ((t : Trace) (vm : Vm) → ¬ ((cloud.vm_check t vm).0 ≡ ok 3))
    → Post (λ _. Keeps v s) (Keeps v s) (check_cleanup w cloud s)
unfolding check_cleanup
check_cleanup-Keeps w cloud v s present = clean-Keeps w cloud v s s.deleting_instances present
