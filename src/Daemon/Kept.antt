-- ===== src/Daemon/Kept.antt =====
-- No VM is forgotten while the threads take their turns in any order.
use dynamictorque.Base.{
  ℕ, ◌+◌, ◌*◌, ◌≤◌, is_one, inl, inr, ◌⊎◌, ◌≡◌, refl, ap, arith, String, true, false, ◌||◌, [], ◌∷◌,
  ◌++◌, ◌==◌, if_either, count, count-append, count-remove, if◌then◌else◌, map,
}
use dynamictorque.Base.Action.{
  Action, Result, ok, err, Post, Post-imp, Post-both, and_then-Post, if-Post, pure,
}
use dynamictorque.CloudTools.{Vm}
use dynamictorque.World.{World, Trace}
use dynamictorque.Commands.{dump_nodes_to_persistent_file}
use dynamictorque.Cloud.{Cloud}
use dynamictorque.Center.State.{Center}
use dynamictorque.Center.Admin.{toggle_sleep_mode, kill_vm, forceoff}
use dynamictorque.Center.Provision.{update_provision_status}
use dynamictorque.Center.Jobs.{collect_cluster_information}
use dynamictorque.Center.Tracking.{lists, tracked, lift-Post}
use dynamictorque.Center.Settled.{tracked-lists}
use dynamictorque.Center.Cleaned.{Keeps, KeepsAll, Keeps-all, check_cleanup-Keeps}
use dynamictorque.Center.Provisioned.{update_provision_status-Keeps, KeepsAll-AllButOne}
use dynamictorque.Center.Promoted.{AllButOne}
use dynamictorque.Center.Guards.{standing, collect_cluster_information-standing}
use dynamictorque.Center.Moves.{
  Killed, AllDeleting, ExistingDeleting, kill_vm-Killed, forceoff-AllDeleting,
}
use dynamictorque.Daemon.{
  Poller, after_poll, turn, poll_jobs, leave_jobs, poll_cloud, System, Event, job_turn, cloud_turn,
  rpc_kill, rpc_forceoff, rpc_toggle_sleep_mode, watched, interrupted, both_alive, quit_all, shut,
  step,
}

-- 0 while the thread is alive, and 1 when it has ended.
abbrev ended : Poller → ℕ
ended p = if p.alive then 0 else 1

-- What a system has left of the VMs that the center held at `s`: each is held at least as often,
-- but for one, which may be held once less if the cloud's poller has ended.
abbrev pub Left : Center → System → Type 0
Left s sys =
    (lost : ℕ) × ((v : ℕ)
      → tracked v s ≤ tracked v sys.center + ended sys.cloud_poller * is_one v lost)

-- What follows a time that has lost nothing.
keeps-Left :
    (s : Center) (sys sys' : System)
    → KeepsAll sys.center sys'.center
    → sys'.cloud_poller ≡ sys.cloud_poller
    → Left s sys
    → Left s sys'
keeps-Left s sys sys' h e (lost, k) =
    (lost, λ v. omega (arith, h v, k v, ap (λ p. ended p * is_one v lost) e))

module _ (w : World) (cloud : Cloud) (v : ℕ) where
  kill_vm-Keeps : (name : String) (s : Center) → Keeps v s (kill_vm w name false s).1
  kill_vm-Keeps name s = Post-both (Keeps v s) (kill_vm w name false s) (
      Post-imp (λ _. Killed name false s) (λ _. Keeps v s) (λ t. lists t ≡ lists s) (Keeps v s) _
        (λ _ t h. omega (
          arith,
          count-remove h.vm s.existing_instances t.existing_instances h.leaves_existing v,
          ap (count v) h.keeps_starting,
          ap (count v) h.enters_deleting,
          count-append v s.deleting_instances (h.vm ∷ []),
        ))
        (λ t h. omega (arith, tracked-lists v s t h)) (kill_vm-Killed w name false s))

  forceoff_raised : (s t : Center) → (lists t ≡ lists s) ⊎ ExistingDeleting s t → Keeps v s t
  forceoff_raised s t (inl h) = omega (arith, tracked-lists v s t h)
  forceoff_raised s t (inr h) = omega (
    arith,
    ap (count v) h.0,
    ap (count v) h.1,
    ap (count v) h.2,
    count-append v s.deleting_instances s.existing_instances,
  )

  forceoff-Keeps : (s : Center) → Keeps v s (forceoff w cloud s).1
  forceoff-Keeps s = Post-both (Keeps v s) (forceoff w cloud s) (
      Post-imp (λ _. AllDeleting s) (λ _. Keeps v s)
        (λ t. (lists t ≡ lists s) ⊎ ExistingDeleting s t) (Keeps v s) _
        (λ _ t h. omega (
          arith,
          ap (count v) h.0,
          ap (count v) h.1,
          ap (count v) h.2,
          count-append v (s.deleting_instances ++ s.existing_instances) s.starting_instances,
          count-append v s.deleting_instances s.existing_instances,
        ))
        (λ t h. forceoff_raised s t h) (forceoff-AllDeleting w cloud s))

  -- A round of the job poller while the center sleeps or provisions.
  poll_jobs-Keeps :
      (s : Center) → (s.sleep_mode || s.provisioning) ≡ true → Keeps v s (poll_jobs w cloud s).1
  poll_jobs-Keeps s h =
      let same =
        Post-both (λ t. standing t ≡ standing s) (collect_cluster_information w cloud s)
          (collect_cluster_information-standing w cloud s h) in
      omega (arith, tracked-lists v s (poll_jobs w cloud s).1 (ap (λ x. x.vms) same))

  leave_jobs-Keeps : (s : Center) → Keeps v s (leave_jobs w cloud s).1
  leave_jobs-Keeps s = Post-both (Keeps v s) (leave_jobs w cloud s) (
      lift-Post (λ _. Keeps v s) (Keeps v s)
        (dump_nodes_to_persistent_file w (map s.heap s.existing_instances)) s (λ _ _. omega arith)
        (λ _. omega arith))

  polled :
      (interval : ℕ) (p : Poller) (s : Center) (x : Result Unit × Center)
      → Keeps v s x.1
      → Keeps v s (after_poll interval p x).1
  polled interval p s (ok u, t) h = h
  polled interval p s (err e, t) h = h

  -- A turn keeps what its poll and its end keep.
  turned-Keeps :
      (interval : ℕ) (poll leave : Action Center Unit) (p : Poller) (s : Center)
      → Keeps v s (poll s).1
      → Keeps v s (leave s).1
      → Keeps v s (turn interval poll leave p s).1
  unfolding turn
  turned-Keeps interval poll leave p s h k =
      let P : Poller × Center → Type 0 = λ x. Keeps v s x.1 in
      if_either P p.alive _ _
        (λ _.
          if_either P p.quit _ _ (λ _. k)
            (λ _.
              if_either P (p.tics == 0) _ _ (λ _. polled interval p s (poll s) h)
                (λ _. omega arith)))
        (λ _. omega arith)

module _ (w : World) (cloud : Cloud) where
  poll_cloud-Keeps :
      ((t : Trace) (vm : Vm) → ¬ ((cloud.vm_check t vm).0 ≡ ok 3))
      → (s : Center) → Post (λ _. KeepsAll s) (AllButOne s) (poll_cloud w cloud s)
  unfolding poll_cloud
  poll_cloud-Keeps present s =
      and_then-Post (λ _. KeepsAll s) (λ _. KeepsAll s) (AllButOne s) _ _
        (if-Post (λ _. KeepsAll s) (AllButOne s) s.provisioning (update_provision_status w cloud)
          (pure tt) s (λ _. update_provision_status-Keeps w cloud s) (λ _ v. omega arith))
        (λ _ t h.
          Post-imp (λ _. KeepsAll t) (λ _. KeepsAll s) (KeepsAll t) (AllButOne s) _
            (λ _ u k v. omega (arith, h v, k v))
            (λ u k. KeepsAll-AllButOne s u (λ v. omega (arith, h v, k v)))
            (Keeps-all t _ (λ v. check_cleanup-Keeps w cloud v t present)))

  -- What is left of `s` after a turn.
  LeftBy : Center → Poller × Center → Type 0
  LeftBy s x = (lost : ℕ) × ((v : ℕ) → tracked v s ≤ tracked v x.1 + ended x.0 * is_one v lost)

  -- A poll that raises ends its thread.
  polled-Left :
      (interval : ℕ) (p : Poller) (s t : Center) (x : Result Unit × Center)
      → KeepsAll s t
      → Post (λ _. KeepsAll t) (AllButOne t) x
      → LeftBy s (after_poll interval p x)
  unfolding LeftBy
  polled-Left interval p s t (ok u, t') h k = (0, λ v. omega (arith, h v, k v))
  polled-Left interval p s t (err e, t') h (lost, k) = (lost, λ v. omega (arith, h v, k v))

  -- While the thread is alive nothing was lost.
  alive-KeepsAll : (p : Poller) (s t : Center) → p.alive ≡ true → LeftBy s (p, t) → KeepsAll s t
  unfolding LeftBy
  alive-KeepsAll p s t a (lost, h) v =
      let none : ended p ≡ 0 = rw a refl in omega (arith, h v, ap (λ n. n * is_one v lost) none)

  KeepsAll-LeftBy : (p : Poller) (s t : Center) → KeepsAll s t → LeftBy s (p, t)
  unfolding LeftBy
  KeepsAll-LeftBy p s t h = (0, λ v. omega (arith, h v))

  turned-Left :
      (interval : ℕ) (poll : Action Center Unit) (p : Poller) (s t : Center)
      → LeftBy s (p, t)
      → Post (λ _. KeepsAll t) (AllButOne t) (poll t)
      → LeftBy s (turn interval poll (pure tt) p t)
  unfolding turn
  turned-Left interval poll p s t h k =
      if_either (LeftBy s) p.alive _ _
        (λ a.
          let kept = alive-KeepsAll p s t a h in
          if_either (LeftBy s) p.quit _ _ (λ _. KeepsAll-LeftBy _ s t kept)
            (λ _.
              if_either (LeftBy s) (p.tics == 0) _ _
                (λ _. polled-Left interval p s t (poll t) kept k)
                (λ _. KeepsAll-LeftBy _ s t kept)))
        (λ _. h)

-- The turn of the job poller falls in a time when the center sleeps or VMs are being provisioned.
abbrev Rests : Event → System → Type 0
Rests job_turn sys = (sys.center.sleep_mode || sys.center.provisioning) ≡ true
Rests _ sys = Unit

-- The systems that are reached by events in any order, where the job poller has its turns at such
-- times.
pub data Quiet (w : World) (cloud : Cloud) (job_interval cloud_interval : ℕ) (sys : System)
    : System → Type 0 where
  here : Quiet w cloud job_interval cloud_interval sys sys
  next :
      {t : System} (e : Event)
      → Quiet w cloud job_interval cloud_interval sys t
      → Rests e t
      → Quiet w cloud job_interval cloud_interval sys (step w cloud job_interval cloud_interval e t)

module _ (w : World) (cloud : Cloud) (job_interval cloud_interval : ℕ)
    (present : (t : Trace) (vm : Vm) → ¬ ((cloud.vm_check t vm).0 ≡ ok 3)) where
  quit_all-Left :
      (s : Center) (sys : System) (x : Result Unit × Center)
      → KeepsAll sys.center x.1
      → Left s sys
      → Left s (quit_all sys x)
  quit_all-Left s sys (ok u, t) h (lost, k) = (lost, λ v. omega (arith, h v, k v))
  quit_all-Left s sys (err e, t) h (lost, k) = (lost, λ v. omega (arith, h v, k v))

  shut-Left :
      (s : Center) (sys : System)
      → Left s sys
      → Left s (shut w cloud job_interval cloud_interval sys)
  shut-Left s sys h =
      if_either (Left s) sys.running _ _
        (λ _.
          quit_all-Left s sys (forceoff w cloud sys.center)
            (λ v. forceoff-Keeps w cloud v sys.center) h)
        (λ _. h)

  step-Left :
      (s : Center) (e : Event) (sys : System)
      → Rests e sys
      → Left s sys
      → Left s (step w cloud job_interval cloud_interval e sys)
  unfolding step toggle_sleep_mode LeftBy
  step-Left s job_turn sys q h =
      keeps-Left s sys (step w cloud job_interval cloud_interval job_turn sys)
        (λ v.
          turned-Keeps w cloud v job_interval (poll_jobs w cloud) (leave_jobs w cloud)
            sys.job_poller sys.center (poll_jobs-Keeps w cloud v sys.center q)
            (leave_jobs-Keeps w cloud v sys.center))
        refl h
  step-Left s cloud_turn sys q h =
      turned-Left w cloud cloud_interval (poll_cloud w cloud) sys.cloud_poller s sys.center h
        (poll_cloud-Keeps w cloud present sys.center)
  step-Left s (rpc_kill name) sys q h =
      keeps-Left s sys (step w cloud job_interval cloud_interval (rpc_kill name) sys)
        (λ v. kill_vm-Keeps w cloud v name sys.center) refl h
  step-Left s rpc_forceoff sys q h =
      keeps-Left s sys (step w cloud job_interval cloud_interval rpc_forceoff sys)
        (λ v. forceoff-Keeps w cloud v sys.center) refl h
  step-Left s rpc_toggle_sleep_mode sys q h = h
  step-Left s watched sys q h =
      if_either (Left s) (both_alive sys) _ _ (λ _. h) (λ _. shut-Left s sys h)
  step-Left s interrupted sys q h = shut-Left s sys h

-- Let the pollers, the calls over XML-RPC, signals and the main thread take their turns in any
-- order, the cloud report no VM gone, and the job poller have its turns only while the center
-- sleeps or VMs are being provisioned. Then no VM is forgotten: the lists hold each at least as
-- often as before; but if the cloud's poller has died since, at most one VM is held less often,
-- by one.
pub Quiet-Left :
    (w : World) (cloud : Cloud) (job_interval cloud_interval : ℕ)
    → ((t : Trace) (vm : Vm) → ¬ ((cloud.vm_check t vm).0 ≡ ok 3))
    → {sys t : System} → sys.cloud_poller.alive ≡ true
    → Quiet w cloud job_interval cloud_interval sys t
    → Left sys.center t
Quiet-Left w cloud job_interval cloud_interval present alive here = (0, λ v. omega arith)
Quiet-Left w cloud job_interval cloud_interval present {sys} alive (next {t} e run rests) =
    step-Left w cloud job_interval cloud_interval present sys.center e t rests
      (Quiet-Left w cloud job_interval cloud_interval present alive run)
