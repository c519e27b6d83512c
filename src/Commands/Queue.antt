-- ===== src/Commands/Queue.antt =====
-- What `_qstat_to_job_list` answers.
use Prim.Native.Nat.{min}
use text.Mathlib.TextEquality.{eq_iff}
use dynamictorque.Base.{
  ℕ, zero, suc, ◌+◌, ◌≡◌, refl, ap, ◌∙◌, arith, String, Bool, true, false, none, some, List, [],
  ◌∷◌, ◌++◌, inl, inr, Option-cases, Bool-cases, All, length, length-append, str_eq, if◌then◌else◌,
}
use dynamictorque.Base.Int.{ℤ, pos, negsuc}
use dynamictorque.Base.Dict.{Dict, lookup}
use dynamictorque.Base.Action.{Result, ok, err, Result-cases}
use dynamictorque.Config.{Config}
use dynamictorque.JobScheduler.{Job}
use dynamictorque.World.{Item}
use dynamictorque.Commands.Parse.{
  Jobs, add_idle, add_running, has_room, is_monitored, add_job, add_jobs, dict_of,
}

-- How many of `total` idle jobs are kept under the limit.
abbrev pub capped : ℤ → ℕ → ℕ
capped (negsuc n) total = total
capped (pos zero) total = total
capped (pos (suc n)) total = min total (suc n)

abbrev pub IsIdle : Job → Type 0
IsIdle job = (lookup "job_state" job.attrs ≡ some "Q") × (job.job_priority ≡ none)

abbrev pub IsRunning : Job → Type 0
IsRunning job = lookup "job_state" job.attrs ≡ some "R"

-- What the loop keeps true of the jobs found so far.
pub record IsCounted (limit : ℤ) (jobs : Jobs) : Type 0 where
  pub kept : length jobs.idle_jobs ≡ capped limit jobs.total_number_of_idle_jobs
  pub idle : All IsIdle jobs.idle_jobs
  pub running : All IsRunning jobs.running_jobs

All-push :
    {A : Type 0} (P : A → Type 0) (xs : List A) (x : A) → All P xs → P x → All P (xs ++ (x ∷ []))
All-push P [] x h p = (p, tt)
All-push P (y ∷ ys) x h p = (h.0, All-push P ys x h.1 p)

capped_suc :
    (limit : ℤ) (total n : ℕ)
    → n ≡ capped limit total
    → (if has_room limit n then n + 1 else n) ≡ capped limit (total + 1)
capped_suc (negsuc k) total n h = ground arith
capped_suc (pos zero) total n h = ground arith
capped_suc (pos (suc k)) total n h = ground arith

module _ (c : Config) where
  abbrev pub Counted : Jobs → Type 0
  Counted = IsCounted c.max_number_of_jobs

  add_idle-Counted :
      (attrs : Dict String) (jobs : Jobs)
      → lookup "job_state" attrs ≡ some "Q"
      → Counted jobs
      → Counted (add_idle c attrs jobs)
  add_idle-Counted attrs jobs q h =
      let n = length jobs.idle_jobs in
      let next = capped_suc c.max_number_of_jobs jobs.total_number_of_idle_jobs n h.kept in
      elim (Bool-cases (has_room c.max_number_of_jobs n)) [
        | inl e ↦ rw e (record {
          kept = length-append jobs.idle_jobs _ ∙ rw e at next;
          idle = All-push IsIdle jobs.idle_jobs _ h.idle (q, refl);
          running = h.running;
        })
        | inr e ↦ rw e (record { kept = rw e at next; idle = h.idle; running = h.running })
      ]

  add_running-Counted :
      (state : String) (attrs : Dict String) (jobs : Jobs)
      → lookup "job_state" attrs ≡ some state
      → Counted jobs
      → Counted (add_running state attrs jobs)
  add_running-Counted state attrs jobs q h = elim (Bool-cases (str_eq state "R")) [
    | inl e ↦ rw e (record {
      kept = h.kept;
      idle = h.idle;
      running =
          All-push IsRunning jobs.running_jobs _ h.running (q ∙ ap some ((eq_iff state "R").0 e));
    })
    | inr e ↦ rw e h
  ]

  -- What holds of an answer that is no raise.
  abbrev pub Unless : (Jobs → Type 0) → Result Jobs → Type 0
  Unless P (ok jobs) = P jobs
  Unless P (err e) = Unit

  by_queue :
      (state : String) (attrs : Dict String) (jobs : Jobs) (r : Result Bool)
      → lookup "job_state" attrs ≡ some state
      → str_eq state "Q" ≡ true
      → Counted jobs
      → Unless Counted (elim r [
        | err e ↦ err e
        | ok true ↦ ok (add_idle c attrs jobs)
        | ok false ↦ ok (add_running state attrs jobs)
      ])
  by_queue state attrs jobs (err e) q f h = tt
  by_queue state attrs jobs (ok true) q f h =
      add_idle-Counted attrs jobs (q ∙ ap some ((eq_iff state "Q").0 f)) h
  by_queue state attrs jobs (ok false) q f h = add_running-Counted state attrs jobs q h

  add_job-Counted :
      (attrs : Dict String) (jobs : Jobs) → Counted jobs → Unless Counted (add_job c attrs jobs)
  unfolding add_job
  add_job-Counted attrs jobs h = elim (Option-cases (lookup "job_state" attrs)) [
    | inl e ↦ rw (e, add_job) tt
    | inr (state, e) ↦
        rw (e, add_job)
          (elim (Bool-cases (str_eq state "Q")) [
            | inl f ↦
                rw f
                  (by_queue state attrs jobs (is_monitored c.torque_queue_to_monitor attrs) e f h)
            | inr f ↦ rw f (add_running-Counted state attrs jobs e h)
          ])
  ]

  pub add_jobs-Counted :
      (items : List Item) (jobs : Jobs) → Counted jobs → Unless Counted (add_jobs c items jobs)
  unfolding add_jobs
  add_jobs-Counted [] jobs h = h
  add_jobs-Counted (item ∷ items) jobs h = elim (Result-cases (add_job c (dict_of item) jobs)) [
    | inl (jobs', e) ↦
        rw (e, add_jobs)
          (add_jobs-Counted items jobs' (rw e at (add_job-Counted (dict_of item) jobs h)))
    | inr (x, e) ↦ rw (e, add_jobs) tt
  ]
