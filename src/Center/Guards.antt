-- ===== src/Center/Guards.antt =====
-- When a round of `collect_cluster_information` leaves the VMs alone.
use mathlib.Core.Path.{subst, sym}
use dynamictorque.Base.{
  ◌≡◌, refl, arith, Bool, true, false, ◌||◌, not, List, length, inl, inr, Bool-cases, if◌then◌else◌,
}
use dynamictorque.Base.Action.{
  gets, pure, modify, Result, ok, err, ◌>>=◌, ◌>>◌, Post, and_then-Post, if-Post, Result-cases,
}
use dynamictorque.CloudTools.{ProvisionVm}
use dynamictorque.World.{World}
use dynamictorque.Commands.{job_query, query_job_priorities, wn_query, JobPriority}
use dynamictorque.Cloud.{Cloud}
use dynamictorque.Center.State.{Center}
use dynamictorque.Center.Jobs.{
  prioritise_jobs, collect_cluster_information, assign_all, assign_priorities, sort_idle_jobs,
  sort_jobs_by_priority, after_query, query_nodes, adjust_cluster,
}
use dynamictorque.Center.Tracking.{Lists, lists, lift_then-Post}

-- What decides about VMs: where each is, which are asked for, and what holds a round back.
pub record Standing : Type 0 where
  pub vms : Lists
  pub waiting : List ProvisionVm
  pub sleep_mode : Bool
  pub provisioning : Bool

abbrev pub standing : Center → Standing
standing s = record {
  vms = lists s;
  waiting = s.provision_waiting_list;
  sleep_mode = s.sleep_mode;
  provisioning = s.provisioning;
}

kept :
    (v : Standing) (t : Center) (r : Result Unit)
    → standing t ≡ v
    → Post (λ (_ : Unit {0}) u. standing u ≡ v) (λ u. standing u ≡ v) (r, t)
kept v t (ok a) h = h
kept v t (err e) h = h

module _ (v : Standing) where
  abbrev Stands : Center → Type 0
  Stands t = standing t ≡ v

  abbrev Leaves : {A : Type 0} → Result A × Center → Type 0
  Leaves = Post (λ _. Stands) Stands

  assign_all-Leaves : (ps : List JobPriority) (t : Center) → Stands t → Leaves (assign_all ps t)
  assign_all-Leaves ps t h =
      kept v (record t { idle_jobs = (assign_priorities t.idle_jobs ps).1 })
        (assign_priorities t.idle_jobs ps).0 h

  sort_idle_jobs-Leaves : (t : Center) → Stands t → Leaves (sort_idle_jobs t)
  sort_idle_jobs-Leaves t h = elim (Result-cases (sort_jobs_by_priority t.idle_jobs)) [
    | inl (jobs, e) ↦ rw (e, sort_idle_jobs) h
    | inr (x, e) ↦ rw (e, sort_idle_jobs) h
  ]

  prioritise_jobs-Leaves : (w : World) (t : Center) → Stands t → Leaves (prioritise_jobs w t)
  unfolding prioritise_jobs
  prioritise_jobs-Leaves w t h =
      lift_then-Post (λ _. Stands) Stands (query_job_priorities w) _ t
        (λ answer sh.
          let u = record t { shell = sh; maui_server_up = answer.0 } in
          if-Post (λ _. Stands) Stands answer.0 (assign_all answer.1 >> sort_idle_jobs) (pure tt) u
            (λ _.
              and_then-Post (λ _. Stands) (λ _. Stands) Stands (assign_all answer.1 u)
                (λ _. sort_idle_jobs) (assign_all-Leaves answer.1 u h)
                (λ _ x k. sort_idle_jobs-Leaves x k))
            (λ _. h))
        (λ _. h)

  held : (a b c : Bool) → (a || c) ≡ true → (a || b) ≡ false → c ≡ true
  held a b c h k = ground arith

  after_query-Leaves :
      (w : World) (cloud : Cloud) (t : Center)
      → (v.sleep_mode || v.provisioning) ≡ true
      → Stands t
      → Leaves (after_query w cloud t)
  after_query-Leaves w cloud t hold h = elim (Bool-cases (t.sleep_mode || not t.maui_server_up)) [
    | inl e ↦ rw e h
    | inr e ↦
        let busy : t.provisioning ≡ true =
          held t.sleep_mode (not t.maui_server_up) t.provisioning
            (subst (λ x. (x.sleep_mode || x.provisioning) ≡ true) (sym h) hold) e in
        let t' = record t { number_of_wn = length t.worker_nodes } in
        rw e (
          if-Post (λ _. Stands) Stands t.provisioning (pure tt) (adjust_cluster w cloud) t' (λ _. h)
            (λ idle. absurd (cc)))
  ]

  query_nodes-Leaves :
      (w : World) (cloud : Cloud) (t : Center) → Stands t → Leaves (query_nodes w cloud t)
  query_nodes-Leaves w cloud t h =
      lift_then-Post (λ _. Stands) Stands (wn_query w)
        (λ answer. modify (λ s. record s { pbs_server_up = answer.0; worker_nodes = answer.1 })) t
        (λ _ _. h) (λ _. h)

  later_round-Leaves :
      (w : World) (cloud : Cloud) (t : Center)
      → (v.sleep_mode || v.provisioning) ≡ true
      → Stands t
      → Leaves (
          (prioritise_jobs w
              >> (query_nodes w cloud >> (do
                nodes_up ← gets (λ s. s.pbs_server_up)
                if nodes_up then after_query w cloud else pure tt)))
            t)
  later_round-Leaves w cloud t hold h =
      and_then-Post (λ _. Stands) (λ _. Stands) Stands (prioritise_jobs w t) _
        (prioritise_jobs-Leaves w t h)
        (λ _ u k.
          and_then-Post (λ _. Stands) (λ _. Stands) Stands (query_nodes w cloud u) _
            (query_nodes-Leaves w cloud u k)
            (λ _ x m.
              if-Post (λ _. Stands) Stands x.pbs_server_up (after_query w cloud) (pure tt) x
                (λ _. after_query-Leaves w cloud x hold m) (λ _. m)))

-- While the center sleeps, or VMs are being provisioned, a round of the job poller moves no VM,
-- asks for none, and changes neither flag, whatever the jobs and nodes, and also if it raises.
pub collect_cluster_information-standing :
    (w : World) (cloud : Cloud) (s : Center)
    → (s.sleep_mode || s.provisioning) ≡ true
    → Post
        (λ _ t. standing t ≡ standing s)
        (λ t. standing t ≡ standing s)
        (collect_cluster_information w cloud s)
unfolding collect_cluster_information
collect_cluster_information-standing w cloud s hold =
    lift_then-Post (λ _ t. standing t ≡ standing s) (λ t. standing t ≡ standing s) (job_query w) _ s
      (λ answer sh.
        let t = record s {
          shell = sh;
          pbs_server_up = answer.0;
          total_number_of_idle_jobs = (answer.1).total_number_of_idle_jobs;
          idle_jobs = (answer.1).idle_jobs;
          running_jobs = (answer.1).running_jobs;
        } in
        if-Post (λ _ t. standing t ≡ standing s) (λ t. standing t ≡ standing s) (not answer.0)
          (pure tt) _ t (λ _. refl) (λ _. later_round-Leaves (standing s) w cloud t hold refl))
      (λ _. refl)
