-- ===== src/Commands/Ordered.antt =====
-- The order of the idle jobs that `_qstat_to_job_list` answers.
use mathlib.Core.Path.{subst}
use dynamictorque.Base.{
  ℕ, zero, suc, ◌≡◌, refl, ap, sym, ◌∙◌, arith, String, true, false, List, [], ◌∷◌, inl, inr,
  Option-cases, All, length, map, sum_of,
}
use dynamictorque.Base.Int.{ℤ, pos, negsuc}
use dynamictorque.Base.Sort.{sort_by, sum_of-sort_by, All-sort_by, IsSortedBy, sort_by-IsSortedBy}
use dynamictorque.Base.Action.{Result, ok, err, Result-cases}
use dynamictorque.Config.{Config}
use dynamictorque.JobScheduler.{Job}
use dynamictorque.World.{World}
use dynamictorque.Commands.Parse.{
  Jobs, no_jobs, add_jobs, with_keys, smaller_key, sort_jobs, parse_jobs, qstat_to_job_list,
  job_number, find_all,
}
use dynamictorque.Commands.Queue.{IsCounted, IsIdle, Unless, add_jobs-Counted, capped}

-- A list of jobs in the order of their numbers, which all jobs have.
pub record IsOrdered (jobs : List Job) : Type 0 where
  pub keyed : List (ℕ × Job)
  pub numbers : with_keys jobs ≡ ok keyed
  pub ascending : IsSortedBy smaller_key keyed

abbrev seconds : List (ℕ × Job) → List Job
seconds = map (λ k. k.1)

-- Each job stands with its own number.
abbrev IsKey : ℕ × Job → Type 0
IsKey k = job_number k.1 ≡ ok k.0

with_keys-seconds : (l : List (ℕ × Job)) → All IsKey l → with_keys (seconds l) ≡ ok l
with_keys-seconds [] h = refl
with_keys-seconds (k ∷ l) h = rw (h.0, with_keys) (rw (with_keys-seconds l h.1) refl)

-- What `with_keys` answers: the jobs in their order, each with its number.
record Keyed (jobs : List Job) (l : List (ℕ × Job)) : Type 0 where
  same : seconds l ≡ jobs
  keys : All IsKey l

abbrev KeyedUnlessRaised : List Job → Result (List (ℕ × Job)) → Type 0
KeyedUnlessRaised jobs (ok l) = Keyed jobs l
KeyedUnlessRaised jobs (err e) = Unit

with_keys-Keyed : (jobs : List Job) → KeyedUnlessRaised jobs (with_keys jobs)
with_keys-Keyed [] = record { same = refl; keys = tt }
with_keys-Keyed (job ∷ jobs) = elim (Result-cases (job_number job)) [
  | inr (x, e) ↦ rw (e, with_keys) tt
  | inl (n, e) ↦ elim (Result-cases (with_keys jobs)) [
    | inr (x, f) ↦ rw (e, with_keys) (rw f tt)
    | inl (rest, f) ↦
        let h : Keyed jobs rest = rw f at (with_keys-Keyed jobs) in
        rw (e, with_keys) (rw f (record { same = ap (λ l. job ∷ l) h.same; keys = (e, h.keys) }))
  ]
]

length-sum_of : {A : Type 0} (xs : List A) → length xs ≡ sum_of (λ _. 1) xs
length-sum_of [] = refl
length-sum_of (x ∷ xs) = omega (arith, length-sum_of xs)

length-map : {A B : Type 0} (f : A → B) (xs : List A) → length (map f xs) ≡ length xs
length-map f [] = refl
length-map f (x ∷ xs) = ap suc (length-map f xs)

All-map :
    {A B : Type 0} (P : B → Type 0) (f : A → B) (xs : List A)
    → All P (map f xs)
    → All (λ a. P (f a)) xs
All-map P f [] h = tt
All-map P f (x ∷ xs) h = (h.0, All-map P f xs h.1)

map-All :
    {A B : Type 0} (P : B → Type 0) (f : A → B) (xs : List A)
    → All (λ a. P (f a)) xs
    → All P (map f xs)
map-All P f [] h = tt
map-All P f (x ∷ xs) h = (h.0, map-All P f xs h.1)

smaller_key_total : (a b : ℕ × Job) → smaller_key a b ≡ false → smaller_key b a ≡ true
smaller_key_total a b h = ground arith

smaller_key_trans :
    (a b c : ℕ × Job) → smaller_key a b ≡ true → smaller_key b c ≡ true → smaller_key a c ≡ true
smaller_key_trans a b c h k = ground arith

none_kept : (limit : ℤ) → 0 ≡ capped limit 0
none_kept (negsuc n) = refl
none_kept (pos zero) = refl
none_kept (pos (suc n)) = omega arith

-- The answer of the parser, sound for the limit.
pub record IsQueue (limit : ℤ) (jobs : Jobs) : Type 0 where
  pub counted : IsCounted limit jobs
  pub ordered : IsOrdered jobs.idle_jobs

module _ (c : Config) where
  sorted-IsQueue :
      (jobs : Jobs) (l : List (ℕ × Job))
      → Keyed jobs.idle_jobs l
      → IsCounted c.max_number_of_jobs jobs
      → IsQueue c.max_number_of_jobs (record jobs { idle_jobs = seconds (sort_by smaller_key l) })
  sorted-IsQueue jobs l k h =
      let idle : All IsIdle (seconds l) = subst (All IsIdle) (sym k.same) h.idle in
      record {
        counted = record {
          kept =
              length-map (λ k. k.1) (sort_by smaller_key l)
              ∙ length-sum_of (sort_by smaller_key l)
              ∙ sum_of-sort_by smaller_key (λ _. 1) l
              ∙ sym (length-sum_of l)
              ∙ sym (length-map (λ k. k.1) l)
              ∙ ap length k.same
              ∙ h.kept;
          idle =
              map-All IsIdle (λ k. k.1) (sort_by smaller_key l)
                (All-sort_by smaller_key _ l (All-map IsIdle (λ k. k.1) l idle));
          running = h.running;
        };
        ordered = record {
          keyed = sort_by smaller_key l;
          numbers =
              with_keys-seconds (sort_by smaller_key l) (All-sort_by smaller_key IsKey l k.keys);
          ascending = sort_by-IsSortedBy smaller_key smaller_key_total smaller_key_trans l;
        };
      }

  no_jobs-IsQueue : IsQueue c.max_number_of_jobs no_jobs
  no_jobs-IsQueue = record {
    counted = record { kept = none_kept c.max_number_of_jobs; idle = tt; running = tt };
    ordered = record { keyed = []; numbers = refl; ascending = tt };
  }

  sort_jobs-IsQueue :
      (jobs : Jobs)
      → IsCounted c.max_number_of_jobs jobs
      → Unless c (IsQueue c.max_number_of_jobs) (sort_jobs jobs)
  unfolding sort_jobs
  sort_jobs-IsQueue jobs h = elim (Result-cases (with_keys jobs.idle_jobs)) [
    | inl (l, e) ↦
        rw (e, sort_jobs) (sorted-IsQueue jobs l (rw e at (with_keys-Keyed jobs.idle_jobs)) h)
    | inr (x, e) ↦ rw (e, sort_jobs) tt
  ]

  parse_jobs-IsQueue :
      (w : World) (output : String)
      → Unless c (IsQueue c.max_number_of_jobs) (parse_jobs w c output)
  parse_jobs-IsQueue w output = elim (Option-cases (w.parse_xml output)) [
    | inl e ↦ rw (e, parse_jobs) tt
    | inr (items, e) ↦
        rw (e, parse_jobs)
          (elim (Result-cases (add_jobs c (find_all "Job" items) no_jobs)) [
            | inl (jobs, f) ↦ rw f (
                sort_jobs-IsQueue jobs (
                  rw f at
                    (add_jobs-Counted c (find_all "Job" items) no_jobs no_jobs-IsQueue.counted)))
            | inr (x, f) ↦ rw f tt
          ])
  ]

-- Whatever `qstat` prints, the parser answers idle jobs that are in state Q, that have numbers and
-- are in their order, and that have no job priority yet; of those counted it keeps all, or as many
-- as the limit on jobs says if that is positive. The running jobs are in state R.
pub qstat_to_job_list-IsQueue :
    (w : World) (c : Config) (output : String)
    → IsQueue c.max_number_of_jobs (qstat_to_job_list w c output)
unfolding qstat_to_job_list
qstat_to_job_list-IsQueue w c output = elim (Result-cases (parse_jobs w c output)) [
  | inl (jobs, e) ↦ rw (e, qstat_to_job_list) (rw e at (parse_jobs-IsQueue c w output))
  | inr (x, e) ↦ rw (e, qstat_to_job_list) (no_jobs-IsQueue c)
]
