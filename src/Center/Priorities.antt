-- ===== src/Center/Priorities.antt =====
-- The merge of the idle jobs with Maui's priorities, for jobs and priorities in ascending order.
use dynamictorque.Base.{
  ℕ, suc, ◌≤◌, ◌≡◌, refl, sym, ap, ◌∙◌, arith, false, ◌==◌, Option, none, some, List, [], ◌∷◌, inl,
  inr, Bool-cases, if◌then◌else◌, ltb, map,
}
use dynamictorque.Base.Int.{ℤ}
use dynamictorque.Base.Action.{ok, err}
use dynamictorque.JobScheduler.{Job}
use dynamictorque.Commands.{JobPriority, job_number}
use dynamictorque.Center.Jobs.{advance, assign_priorities, match_first, push_job, with_priority}

-- The priority that the list has for a job.
abbrev priority_in : ℕ → List JobPriority → Option ℤ
priority_in id [] = none
priority_in id (p ∷ ps) =
    let rest = priority_in id ps in if id == p.job_id then some p.priority else rest

abbrev given : Job → Option ℤ → Job
given job none = job
given job (some p) = with_priority job p

-- A job with the priority that the list has for it, and as it is if there is none.
abbrev pub prioritised : List JobPriority → Job → Job
prioritised ps job = elim (job_number job) [ err e ↦ job | ok id ↦ given job (priority_in id ps) ]

-- The ids of the jobs are numbers, `low` or larger, that grow from job to job.
abbrev pub IsNumbered : ℕ → List Job → Type 0
IsNumbered low [] = Unit
IsNumbered low (job ∷ jobs) =
    (id : ℕ) × (job_number job ≡ ok id) × (low ≤ id) × IsNumbered (suc id) jobs

abbrev pub IsAscending : ℕ → List JobPriority → Type 0
IsAscending low [] = Unit
IsAscending low (p ∷ ps) = (low ≤ p.job_id) × IsAscending (suc p.job_id) ps

-- The two lists say the same of all jobs from `low` on.
abbrev Agree : ℕ → List JobPriority → List JobPriority → Type 0
Agree low ps qs = (id : ℕ) → low ≤ id → priority_in id ps ≡ priority_in id qs

priority_in-none :
    (id low : ℕ) (ps : List JobPriority)
    → IsAscending low ps
    → suc id ≤ low
    → priority_in id ps ≡ none
priority_in-none id low [] h k = refl
priority_in-none id low (p ∷ ps) h k =
    ground (arith, priority_in-none id (suc p.job_id) ps h.1 (omega (arith, h.0, k)))

-- An entry behind which others wait is not one of an earlier job.
abbrev HasStopped : ℕ → List JobPriority → Type 0
HasStopped id [] = Unit
HasStopped id (q ∷ []) = Unit
HasStopped id (q ∷ r ∷ rest) = ltb q.job_id id ≡ false

-- Where a round of the merge stands after its inner loop.
record Advanced (id : ℕ) (ps qs : List JobPriority) : Type 0 where
  low : ℕ
  ascending : IsAscending low qs
  stopped : HasStopped id qs
  agree : Agree id qs ps

advance-Advanced :
    (id low : ℕ) (ps : List JobPriority) → IsAscending low ps → Advanced id ps (advance id ps)
unfolding advance
advance-Advanced id low [] h = record {
  low = low;
  ascending = h;
  stopped = tt;
  agree = λ _ _. refl;
}
advance-Advanced id low (p ∷ []) h = record {
  low = low;
  ascending = h;
  stopped = tt;
  agree = λ _ _. refl;
}
advance-Advanced id low (p ∷ q ∷ rest) h = elim (Bool-cases (ltb p.job_id id)) [
  | inl e ↦ rw e (
      let k = advance-Advanced id (suc p.job_id) (q ∷ rest) h.1 in
      record {
        low = k.low;
        ascending = k.ascending;
        stopped = k.stopped;
        agree = λ j le. k.agree j le ∙ ground arith;
      })
  | inr e ↦ rw e (record { low = low; ascending = h; stopped = e; agree = λ _ _. refl })
]

-- What a round of the merge does with its job, and what it leaves for the later ones.
record Matched (job : Job) (id : ℕ) (ps : List JobPriority) (m : Job × List JobPriority)
    : Type 0 where
  low : ℕ
  ascending : IsAscending low m.1
  found : m.0 ≡ prioritised ps job
  agree : Agree (suc id) m.1 ps

later :
    (id : ℕ) (p : JobPriority) (ps : List JobPriority)
    → IsAscending (suc p.job_id) ps
    → ltb p.job_id id ≡ false
    → (id == p.job_id) ≡ false
    → priority_in id (p ∷ ps) ≡ none
later id p ps h k f =
    let after : suc id ≤ p.job_id = ground (arith, k, f) in
    priority_in-none id (suc id) (p ∷ ps) (after, h) (omega arith)

match_first-Matched :
    (job : Job) (id low : ℕ) (ps : List JobPriority)
    → job_number job ≡ ok id
    → IsAscending low ps
    → HasStopped id ps
    → Matched job id ps (match_first job id ps)
match_first-Matched job id low [] e h k = record {
  low = low;
  ascending = tt;
  found = rw (e, prioritised) refl;
  agree = λ _ _. refl;
}
match_first-Matched job id low (p ∷ []) e h k = elim (Bool-cases (id == p.job_id)) [
  | inl f ↦ rw f (record {
    low = suc p.job_id;
    ascending = tt;
    found = rw (e, prioritised, f) refl;
    agree = λ j le. ground arith;
  })
  | inr f ↦ rw f (elim (Bool-cases (ltb p.job_id id)) [
    | inl g ↦ rw g (record {
      low = 0;
      ascending = tt;
      found = rw (e, prioritised, f) refl;
      agree = λ j le. ground arith;
    })
    | inr g ↦ rw g (record {
      low = low;
      ascending = h;
      found = rw (e, prioritised, f) refl;
      agree = λ _ _. refl;
    })
  ])
]
match_first-Matched job id low (p ∷ q ∷ rest) e h k = elim (Bool-cases (id == p.job_id)) [
  | inl f ↦ rw f (record {
    low = suc p.job_id;
    ascending = h.1;
    found = rw (e, prioritised, f) refl;
    agree = λ j le. ground arith;
  })
  | inr f ↦ rw f (record {
    low = low;
    ascending = h;
    found = rw (e, prioritised) (ap (given job) (sym (later id p (q ∷ rest) h.1 k f)));
    agree = λ _ _. refl;
  })
]

prioritised-Agree :
    (job : Job) (id : ℕ) (ps qs : List JobPriority)
    → job_number job ≡ ok id
    → priority_in id ps ≡ priority_in id qs
    → prioritised ps job ≡ prioritised qs job
prioritised-Agree job id ps qs e h = rw (e, prioritised) (ap (given job) h)

map-Agree :
    (jobs : List Job) (low : ℕ) (ps qs : List JobPriority)
    → IsNumbered low jobs
    → Agree low ps qs
    → map (prioritised ps) jobs ≡ map (prioritised qs) jobs
map-Agree [] low ps qs h agree = refl
map-Agree (job ∷ jobs) low ps qs (id, e, le, h) agree = λ i.
    prioritised-Agree job id ps qs e (agree id le) i
    ∷ map-Agree jobs (suc id) ps qs h (λ j k. agree j (omega (arith, le, k))) i

map-unprioritised :
    (jobs : List Job) (low : ℕ) → IsNumbered low jobs → map (prioritised []) jobs ≡ jobs
map-unprioritised [] low h = refl
map-unprioritised (job ∷ jobs) low (id, e, le, h) =
    let same : prioritised [] job ≡ job = rw (e, prioritised) refl in
    λ i. same i ∷ map-unprioritised jobs (suc id) h i

-- If the ids of the jobs and those of Maui's list ascend, the merge gives each job the priority
-- that the list has for it, leaves the jobs that the list does not name as they are, and does not
-- raise.
pub assign_priorities-prioritised :
    (jobs : List Job) (ps : List JobPriority) (low low' : ℕ)
    → IsNumbered low jobs
    → IsAscending low' ps
    → assign_priorities jobs ps ≡ (ok tt, map (prioritised ps) jobs)
unfolding assign_priorities
assign_priorities-prioritised [] ps low low' h k = refl
assign_priorities-prioritised (job ∷ jobs) [] low low' h k =
    ap (λ l. (ok tt, l)) (sym (map-unprioritised (job ∷ jobs) low h))
assign_priorities-prioritised (job ∷ jobs) (p ∷ ps) low low' (id, e, le, h) k =
    let a = advance-Advanced id low' (p ∷ ps) k in
    let m = match_first-Matched job id a.low (advance id (p ∷ ps)) e a.ascending a.stopped in
    let left = (match_first job id (advance id (p ∷ ps))).1 in
    rw (e, assign_priorities)
      (ap (push_job _) (assign_priorities-prioritised jobs left (suc id) m.low h m.ascending)
        ∙ (λ i. (
          ok tt,
          (m.found ∙ prioritised-Agree job id _ (p ∷ ps) e (a.agree id (omega arith))) i
              ∷ map-Agree jobs (suc id) left (p ∷ ps) h
                  (λ j le'. m.agree j le' ∙ a.agree j (omega (arith, le'))) i,
        )))
