-- ===== src/Center/Jobs.antt =====
-- The methods that look at the job queue.
use dynamictorque.Base.{
  ℕ, Bool, true, not, ◌&&◌, ◌||◌, none, some, List, [], ◌∷◌, ◌++◌, ltb, ◌==◌, length, if◌then◌else◌,
}
use dynamictorque.Base.Int.{ℤ, leb_ℤ}
use dynamictorque.Base.Sort.{sort_by}
use dynamictorque.Base.Action.{Action, Result, ok, err, key_error, pure, gets, modify, ◌>>=◌, ◌>>◌}
use dynamictorque.JobScheduler.{Job, calculate_new_instances}
use dynamictorque.CloudTools.{ProvisionVm}
use dynamictorque.World.{World}
use dynamictorque.Commands.{JobPriority, job_number, job_query, query_job_priorities, wn_query}
use dynamictorque.Cloud.{Cloud}
use dynamictorque.Center.State.{Center, lift, on_config, config}
use dynamictorque.Center.Cores.{has_available_cores}
use dynamictorque.Center.WorkerNodes.{check_existing_worker_nodes}

-- The inner loop of `prioritise_jobs`: the entries from `idx` on, up to the last one.
unfoldable pub advance : ℕ → List JobPriority → List JobPriority
advance id [] = []
advance id (p ∷ []) = p ∷ []
advance id (p ∷ q ∷ rest) = if ltb p.job_id id then advance id (q ∷ rest) else p ∷ q ∷ rest

abbrev pub push_job : Job → Result Unit × List Job → Result Unit × List Job
push_job job (r, jobs) = (r, job ∷ jobs)

abbrev pub with_priority : Job → ℤ → Job
with_priority job priority = record job { job_priority = some priority }

-- What a round of the outer loop does with a job, and the entries that are left for the next
-- round, none if the loop ends.
abbrev pub match_first : Job → ℕ → List JobPriority → Job × List JobPriority
match_first job id [] = (job, [])
match_first job id (p ∷ rest) =
    if id == p.job_id
    then (with_priority job p.priority, rest)
    else (job, elim rest [ [] ↦ if ltb p.job_id id then [] else p ∷ [] | q ∷ more ↦ p ∷ q ∷ more ])

-- The outer loop, on the jobs and the entries that are left. A raise leaves the jobs that were
-- dealt with as they are by then.
unfoldable pub assign_priorities : List Job → List JobPriority → Result Unit × List Job
unfolding advance
assign_priorities [] left = (ok tt, [])
assign_priorities (job ∷ jobs) [] = (ok tt, job ∷ jobs)
assign_priorities (job ∷ jobs) (p ∷ ps) = elim (job_number job) [
  | err e ↦ (err e, job ∷ jobs)
  | ok id ↦
      let (job', left) = match_first job id (advance id (p ∷ ps)) in
      push_job job' (assign_priorities jobs left)
]

-- `key=lambda job: job["job_priority"], reverse=True`, on the keys that are computed first.
abbrev keyed : List Job → Result (List (ℤ × Job))
keyed [] = ok []
keyed (job ∷ jobs) = elim job.job_priority [
  | none ↦ err key_error
  | some p ↦ elim (keyed jobs) [ err e ↦ err e | ok rest ↦ ok ((p, job) ∷ rest) ]
]

abbrev greater_key : ℤ × Job → ℤ × Job → Bool
greater_key a b = leb_ℤ b.0 a.0

abbrev second : List (ℤ × Job) → List Job
second [] = []
second ((p, job) ∷ rest) = job ∷ second rest

unfoldable pub sort_jobs_by_priority : List Job → Result (List Job)
sort_jobs_by_priority jobs = elim (keyed jobs) [
  | err e ↦ err e
  | ok l ↦ ok (second (sort_by greater_key l))
]

abbrev pub assign_all : List JobPriority → Action Center Unit
assign_all priorities s =
    let (r, jobs) = assign_priorities s.idle_jobs priorities in (r, record s { idle_jobs = jobs })

abbrev pub sort_idle_jobs : Action Center Unit
sort_idle_jobs s = elim (sort_jobs_by_priority s.idle_jobs) [
  | err e ↦ (err e, s)
  | ok jobs ↦ (ok tt, record s { idle_jobs = jobs })
]

module _ (w : World) where
  unfoldable pub prioritise_jobs : Action Center Unit
  unfolding assign_priorities sort_jobs_by_priority
  prioritise_jobs = do
    answer ← lift (query_job_priorities w)
    modify (λ s. record s { maui_server_up = answer.0 })
    if answer.0 then assign_all answer.1 >> sort_idle_jobs else pure tt

  abbrev request_instances : Action Center (List ProvisionVm)
  request_instances = do
    jobs ← gets (λ s. s.idle_jobs)
    n ← gets (λ s. s.number_of_wn)
    if ltb 0 (length jobs)
        then lift (on_config (calculate_new_instances w.draw jobs n))
        else pure []

  unfoldable pub determine_required_instances_numbers : Action Center Unit
  determine_required_instances_numbers = do
    flavor_list ← request_instances
    provisioning ← gets (λ s. s.provisioning)
    if ltb 0 (length flavor_list) && not provisioning
        then modify (λ s. record s {
          provision_waiting_list = s.provision_waiting_list ++ flavor_list;
          provisioning = true;
        })
        else pure tt

  module _ (cloud : Cloud) where
    abbrev pub adjust_cluster : Action Center Unit
    adjust_cluster = do
      check_existing_worker_nodes w cloud
      c ← config
      if has_available_cores c then determine_required_instances_numbers else pure tt

    abbrev pub query_nodes : Action Center Unit
    query_nodes = do
      answer ← lift (wn_query w)
      modify (λ s. record s { pbs_server_up = answer.0; worker_nodes = answer.1 })

    abbrev pub after_query : Action Center Unit
    after_query = do
      modify (λ s. record s { number_of_wn = length s.worker_nodes })
      sleep_mode ← gets (λ s. s.sleep_mode)
      maui_up ← gets (λ s. s.maui_server_up)
      provisioning ← gets (λ s. s.provisioning)
      if sleep_mode || not maui_up
          then pure tt
          else if provisioning
          then pure tt
          else adjust_cluster

    unfoldable pub collect_cluster_information : Action Center Unit
    unfolding prioritise_jobs determine_required_instances_numbers
    collect_cluster_information = do
      answer ← lift (job_query w)
      modify (λ s. record s {
        pbs_server_up = answer.0;
        total_number_of_idle_jobs = (answer.1).total_number_of_idle_jobs;
        idle_jobs = (answer.1).idle_jobs;
        running_jobs = (answer.1).running_jobs;
      })
      if not answer.0 then pure tt else do
        prioritise_jobs
        query_nodes
        nodes_up ← gets (λ s. s.pbs_server_up)
        if nodes_up then after_query else pure tt
