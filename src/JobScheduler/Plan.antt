-- ===== src/JobScheduler/Plan.antt =====
-- The plan for all idle jobs stays within what the resources have left.
use native.Mathlib.Nat.{le_refl}
use dynamictorque.Base.{
  ℕ, zero, suc, ◌≤◌, refl, String, ◌&&◌, Option, none, some, List, [], ◌∷◌, ltb, inl, inr,
  Option-cases, Bool-cases, All, replicate, length, ◌==◌, to_number,
}
use dynamictorque.Base.Dict.{lookup}
use dynamictorque.Base.Action.{
  key_error, Post, and_then-Post, or_raise, or_raise-Post, fold_each-Post, if-Post, pure,
}
use dynamictorque.Config.{Config, get_default_node_location, choice, keys, get_elem?}
use dynamictorque.JobScheduler.{
  Job, ReqList, plan_required, plan_job, plan_jobs, get_vcpu_requirement, requirement_of,
  account_of, located, job_get, is_minus_one, digits_or_one, by_nodes,
}
use dynamictorque.JobScheduler.Frame.{Size, size, SameSize}
use dynamictorque.JobScheduler.Capacity.{IsWithin, Ensures}
use dynamictorque.JobScheduler.Assign.{Plans, IsUniform, assign_some-Plans}

module _ (V : String → Option Size) (draw : ℕ → ℕ → ℕ) where
  choice-Post :
      (items : List String) (c : Config)
      → SameSize V c
      → Post (Ensures V (λ _. Unit {0})) (SameSize V) (choice draw items c)
  unfolding choice
  choice-Post items c h = elim (Option-cases (get_elem? items (draw c.draws (length items)))) [
    | inl e ↦ rw (e, choice) h
    | inr (x, e) ↦ rw (e, choice) (tt, h)
  ]

  get_default_node_location-Post :
      (c : Config)
      → SameSize V c
      → Post (Ensures V (λ _. Unit {0})) (SameSize V) (get_default_node_location draw c)
  unfolding get_default_node_location
  get_default_node_location-Post c h = elim (Bool-cases (c.default_location == 1)) [
    | inl e ↦
        rw (e, get_default_node_location)
          (and_then-Post (Ensures V (λ _. Unit {0})) (Ensures V (λ _. Unit {0})) (SameSize V)
            (choice draw (keys c.location_properties) c) _
            (choice-Post (keys c.location_properties) c h) (λ _ c' k. k))
    | inr e ↦ rw (e, get_default_node_location) (tt, h)
  ]

  located-Post :
      (reqs : List ℕ) (account : String) (c : Config)
      → SameSize V c
      → ((location : Option String) → IsUniform V (some reqs, location, account))
      → Post (Ensures V (IsUniform V)) (SameSize V) (located draw reqs account c)
  located-Post reqs account c h u =
      and_then-Post (Ensures V (λ _. Unit {0})) (Ensures V (IsUniform V)) (SameSize V)
        (get_default_node_location draw c) _ (get_default_node_location-Post c h)
        (λ location c' k. (u location, k.1))

  replicate-le : (n v : ℕ) → All (λ u. u ≤ v) (replicate n v)
  replicate-le zero v = tt
  replicate-le (suc n) v = (le_refl v, replicate-le n v)

  replicate-IsUniform :
      (n v : ℕ) (location : Option String) (account : String)
      → IsUniform V (some (replicate n v), location, account)
  replicate-IsUniform zero v location account = tt
  replicate-IsUniform (suc n) v location account = replicate-le (suc n) v

  by_nodes-Post :
      (nodes account : String) (c : Config)
      → SameSize V c
      → Post (Ensures V (IsUniform V)) (SameSize V) (by_nodes draw nodes account c)
  by_nodes-Post nodes account c h = elim (Option-cases (to_number nodes)) [
    | inl e ↦ rw (e, by_nodes) h
    | inr (n, e) ↦ rw (e, by_nodes) (located-Post (n ∷ []) account c h (λ l. (le_refl n, tt)))
  ]

  requirement_of-Post :
      (job : Job) (account : String) (need ncpus nodes : Option String) (c : Config)
      → SameSize V c
      → Post
          (Ensures V (IsUniform V))
          (SameSize V)
          (requirement_of draw job account need ncpus nodes c)
  unfolding requirement_of
  requirement_of-Post job account (some need) (some ncpus) nodes c h =
      located-Post _ account c h
        (λ l. replicate-IsUniform (digits_or_one need) (digits_or_one ncpus) l account)
  requirement_of-Post job account none none none c h =
      located-Post (1 ∷ []) account c h (λ l. (le_refl 1, tt))
  requirement_of-Post job account (some need) none none c h = (tt, h)
  requirement_of-Post job account none (some ncpus) none c h = (tt, h)
  requirement_of-Post job account none none (some nodes) c h = by_nodes-Post nodes account c h
  requirement_of-Post job account none (some ncpus) (some nodes) c h =
      by_nodes-Post nodes account c h
  requirement_of-Post job account (some need) none (some nodes) c h =
      by_nodes-Post nodes account c h

  account_of-Post :
      (job : Job) (c : Config)
      → SameSize V c
      → Post (Ensures V (λ _. Unit {0})) (SameSize V) (account_of job c)
  account_of-Post job c h = elim (Option-cases (job_get "Account_Name" job)) [
    | inr (a, e) ↦ rw (e, account_of) (tt, h)
    | inl e ↦
        rw (e, account_of)
          (elim (Option-cases (job_get "queue" job)) [ inr (q, f) ↦ rw f (tt, h) | inl f ↦ rw f h ])
  ]

  get_vcpu_requirement-Post :
      (job : Job) (c : Config)
      → SameSize V c
      → Post (Ensures V (IsUniform V)) (SameSize V) (get_vcpu_requirement draw job c)
  unfolding get_vcpu_requirement
  get_vcpu_requirement-Post job c h =
      and_then-Post (Ensures V (λ _. Unit {0})) (Ensures V (IsUniform V)) (SameSize V)
        (account_of job c) _ (account_of-Post job c h)
        (λ account c' k.
          requirement_of-Post job account (job_get "Resource_List.neednodes" job)
            (job_get "Resource_List.ncpus" job) (job_get "Resource_List.nodes" job) c' k.1)

  plan_required-Plans :
      (req_list : ReqList) (job : Job)
      → IsWithin V req_list
      → Plans V (plan_required draw req_list job)
  plan_required-Plans req_list job within c h =
      and_then-Post (Ensures V (IsUniform V)) (Ensures V (IsWithin V)) (SameSize V)
        (get_vcpu_requirement draw job c) _ (get_vcpu_requirement-Post job c h)
        (λ r c' k. assign_some-Plans V req_list r _ within k.0 c' k.1)

  plan_job-Plans :
      (n : ℕ) (req_list : ReqList) (job : Job)
      → IsWithin V req_list
      → Plans V (plan_job draw n req_list job)
  unfolding plan_job
  plan_job-Plans n req_list job within c h =
      and_then-Post (Ensures V (λ _. Unit {0})) (Ensures V (IsWithin V)) (SameSize V)
        (or_raise job.job_priority key_error c) _
        (or_raise-Post (Ensures V (λ _. Unit {0})) (SameSize V) job.job_priority key_error c
          (λ _ _. (tt, h)) h)
        (λ p c' k.
          if-Post (Ensures V (IsWithin V)) (SameSize V) (is_minus_one p && ltb 0 n) (pure req_list)
            (plan_required draw req_list job) c' (λ _. (within, k.1))
            (λ _. plan_required-Plans req_list job within c' k.1))

  plan_jobs-Plans : (jobs : List Job) (n : ℕ) → Plans V (plan_jobs draw jobs n)
  unfolding plan_jobs lookup
  plan_jobs-Plans jobs n c h =
      fold_each-Post (λ _. Ensures V (IsWithin V)) (SameSize V) (plan_job draw n)
        (λ job _ req_list c' k. plan_job-Plans n req_list job k.0 c' k.1) jobs [] c
        ((λ k nodes e. cc), h)

-- Whatever the idle jobs, a plan that is made asks of no resource for more cores than it has left
-- (the nodes left times its largest flavor) and has no node with more cores than the resource's
-- largest flavor. Planning changes neither the nodes left of any resource nor its largest flavor,
-- also if it raises.
pub plan_jobs-IsWithin :
    (draw : ℕ → ℕ → ℕ) (jobs : List Job) (number_of_wn : ℕ) (c : Config)
    → Post
        (λ req_list c'. IsWithin (λ k. size k c) req_list × SameSize (λ k. size k c) c')
        (SameSize (λ k. size k c))
        (plan_jobs draw jobs number_of_wn c)
plan_jobs-IsWithin draw jobs number_of_wn c =
    plan_jobs-Plans (λ k. size k c) draw jobs number_of_wn c (λ k. refl)
