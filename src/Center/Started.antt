-- ===== src/Center/Started.antt =====
-- The loop of `launch_instances`, which starts the VMs.
use mathlib.Core.Path.{subst}
use dynamictorque.Base.{
  length, Option, none, some, ◌⊎◌, ℕ, zero, suc, ◌+◌, ◌≤◌, ◌<◌, ◌≡◌, refl, ap, sym, ◌∙◌, arith,
  List, [], ◌∷◌, ◌++◌, inl, inr, if◌then◌else◌, sum_of-append,
}
use dynamictorque.Base.Action.{Result, Error, ok, err, Post, Post-imp, Result-cases}
use dynamictorque.CloudTools.{ProvisionVm, Vm}
use dynamictorque.Cloud.{Cloud}
use dynamictorque.Center.State.{fresh, Center, update}
use dynamictorque.World.{started, Trace}
use dynamictorque.Center.Launch.{launch_loop}
use dynamictorque.Center.Requests.{is_request, is_static, occurs, statics}

abbrev pub take : ℕ → List ProvisionVm → List ProvisionVm
take zero ps = []
take (suc n) [] = []
take (suc n) (p ∷ ps) = p ∷ take n ps

abbrev pub drop : ℕ → List ProvisionVm → List ProvisionVm
drop zero ps = ps
drop (suc n) [] = []
drop (suc n) (p ∷ ps) = drop n ps

-- The first of the requests was put to the cloud, with that answer.
pub record Asked (cloud : Cloud) (ps : List ProvisionVm) (answer : Result (Option Vm))
    : Type 0 where
  pub trace : Trace
  pub request : ProvisionVm
  pub others : List ProvisionVm
  pub is_first : ps ≡ request ∷ others
  pub is_answer : cloud.vm_start trace request.flavor request.zone request.resource_name ≡ answer

-- So many new VMs have come behind those that start, and no list else has changed.
pub record Grown (number : ℕ) (s t : Center) : Type 0 where
  pub next : t.next ≡ s.next + number
  pub starting : t.starting_instances ≡ s.starting_instances ++ fresh s.next number
  pub existing : t.existing_instances ≡ s.existing_instances
  pub deleting : t.deleting_instances ≡ s.deleting_instances
  pub waiting : t.provision_waiting_list ≡ s.provision_waiting_list

-- Why no more VMs than `number` were started: there is no room, no request, or the cloud could
-- not create the next.
abbrev pub Done : Cloud → ℕ → List ProvisionVm → ℕ → Type 0
Done cloud n ps number =
    (number ≡ n) ⊎ ((number ≡ length ps) ⊎ Asked cloud (drop number ps) (ok none))

-- What the loop does, with room for `n` VMs.
pub record Started (cloud : Cloud) (n : ℕ) (ps to_remove to_remove' : List ProvisionVm)
    (s t : Center) : Type 0 where
  pub number : ℕ
  pub fits : number ≤ n
  pub asked_for : number ≤ length ps
  pub done : Done cloud n ps number
  pub grown : Grown number s t
  pub few : (p : ProvisionVm) → occurs p to_remove' ≤ occurs p to_remove + occurs p ps
  pub keeps : statics to_remove' ≡ statics to_remove + statics (take number ps)

-- What the loop has done when it raises, which is when the cloud does.
pub record Stopped (cloud : Cloud) (n : ℕ) (ps : List ProvisionVm) (s t : Center) : Type 0 where
  pub number : ℕ
  pub fits : number < n
  pub error : Error
  pub asked : Asked cloud (drop number ps) (err error)
  pub grown : Grown number s t

pub append_nil : (xs : List ℕ) → xs ++ [] ≡ xs
append_nil [] = refl
append_nil (x ∷ xs) = ap (λ l. x ∷ l) (append_nil xs)

append_assoc : (xs ys zs : List ℕ) → (xs ++ ys) ++ zs ≡ xs ++ (ys ++ zs)
append_assoc [] ys zs = refl
append_assoc (x ∷ xs) ys zs = ap (λ l. x ∷ l) (append_assoc xs ys zs)

none-Grown :
    (s t : Center)
    → t.next ≡ s.next
    → t.starting_instances ≡ s.starting_instances
    → t.existing_instances ≡ s.existing_instances
    → t.deleting_instances ≡ s.deleting_instances
    → t.provision_waiting_list ≡ s.provision_waiting_list
    → Grown 0 s t
none-Grown s t a b c d e = record {
  next = omega (arith, a);
  starting = b ∙ sym (append_nil s.starting_instances);
  existing = c;
  deleting = d;
  waiting = e;
}

-- After a VM was started.
abbrev with_one : Center → Vm → Center
with_one s vm = record s {
  heap = update s.heap s.next vm;
  next = suc s.next;
  shell = record (s.shell) { trace = started s.next ∷ s.shell.trace };
  starting_instances = s.starting_instances ++ (s.next ∷ []);
}

one-Grown : (k : ℕ) (s t : Center) (vm : Vm) → Grown k (with_one s vm) t → Grown (suc k) s t
one-Grown k s t vm h = record {
  next = omega (arith, h.next);
  starting = h.starting ∙ append_assoc s.starting_instances (s.next ∷ []) (fresh (suc s.next) k);
  existing = h.existing;
  deleting = h.deleting;
  waiting = h.waiting;
}

module _ (cloud : Cloud) where
  none-Started :
      (n : ℕ) (ps to_remove : List ProvisionVm) (s t : Center)
      → Done cloud n ps 0
      → Grown 0 s t
      → Started cloud n ps to_remove to_remove s t
  none-Started n ps to_remove s t done grown = record {
    number = 0;
    fits = omega arith;
    asked_for = omega arith;
    done = done;
    grown = grown;
    few = λ p. omega arith;
    keeps = omega arith;
  }

  -- `to_remove` after a request for which there is no room.
  abbrev passed : ProvisionVm → List ProvisionVm → List ProvisionVm
  passed p to_remove = if p.static then to_remove else to_remove ++ (p ∷ [])

  statics-passed :
      (p : ProvisionVm) (to_remove : List ProvisionVm)
      → statics (passed p to_remove) ≡ statics to_remove
  statics-passed p to_remove = ground (arith, sum_of-append is_static to_remove (p ∷ []))

  occurs-passed :
      (p q : ProvisionVm) (to_remove : List ProvisionVm)
      → occurs q (passed p to_remove) ≤ occurs q to_remove + is_request q p
  occurs-passed p q to_remove = ground (arith, sum_of-append (is_request q) to_remove (p ∷ []))

  skip :
      (p : ProvisionVm) (ps to_remove r : List ProvisionVm) (s t : Center)
      → Started cloud 0 ps (passed p to_remove) r s t
      → Started cloud 0 (p ∷ ps) to_remove r s t
  skip p ps to_remove r s t h =
      let none_new : h.number ≡ 0 = omega (arith, h.fits) in
      record {
        number = 0;
        fits = omega arith;
        asked_for = omega arith;
        done = inl refl;
        grown = subst (λ k. Grown k s t) none_new h.grown;
        few = λ q. omega (arith, h.few q, occurs-passed p q to_remove);
        keeps =
            omega
              (arith, h.keeps, statics-passed p to_remove, ap (λ k. statics (take k ps)) none_new);
      }

  one-Done :
      (n k : ℕ) (p : ProvisionVm) (ps : List ProvisionVm)
      → Done cloud n ps k
      → Done cloud (suc n) (p ∷ ps) (suc k)
  one-Done n k p ps (inl e) = inl (ap suc e)
  one-Done n k p ps (inr (inl e)) = inr (inl (ap suc e))
  one-Done n k p ps (inr (inr asked)) = inr (inr asked)

  step :
      (n : ℕ) (p : ProvisionVm) (ps to_remove r : List ProvisionVm) (s t : Center) (vm : Vm)
      → Started cloud n ps (to_remove ++ (p ∷ [])) r (with_one s vm) t
      → Started cloud (suc n) (p ∷ ps) to_remove r s t
  step n p ps to_remove r s t vm h = record {
    number = suc h.number;
    fits = omega (arith, h.fits);
    asked_for = omega (arith, h.asked_for);
    done = one-Done n h.number p ps h.done;
    grown = one-Grown h.number s t vm h.grown;
    few = λ q. omega (arith, h.few q, sum_of-append (is_request q) to_remove (p ∷ []));
    keeps = omega (arith, h.keeps, sum_of-append is_static to_remove (p ∷ []));
  }

  step-Stopped :
      (n : ℕ) (p : ProvisionVm) (ps : List ProvisionVm) (s t : Center) (vm : Vm)
      → Stopped cloud n ps (with_one s vm) t
      → Stopped cloud (suc n) (p ∷ ps) s t
  step-Stopped n p ps s t vm h = record {
    number = suc h.number;
    fits = omega (arith, h.fits);
    error = h.error;
    asked = h.asked;
    grown = one-Grown h.number s t vm h.grown;
  }

  -- Without room nothing is asked for.
  not-Stopped :
      (p : ProvisionVm) (ps : List ProvisionVm) (s t : Center)
      → Stopped cloud 0 ps s t
      → Stopped cloud 0 (p ∷ ps) s t
  not-Stopped p ps s t h = absurd (omega (arith, h.fits))

  first-Asked :
      {answer : Result (Option Vm)} (p : ProvisionVm) (ps : List ProvisionVm) (s : Center)
      → cloud.vm_start s.shell.trace p.flavor p.zone p.resource_name ≡ answer
      → Asked cloud (p ∷ ps) answer
  first-Asked p ps s e = record {
    trace = s.shell.trace;
    request = p;
    others = ps;
    is_first = refl;
    is_answer = e;
  }

  pub launch_loop-Started :
      (ps : List ProvisionVm) (n : ℕ) (to_remove : List ProvisionVm) (s : Center)
      → Post
          (λ to_remove'. Started cloud n ps to_remove to_remove' s)
          (Stopped cloud n ps s)
          (launch_loop cloud ps n to_remove s)
  unfolding launch_loop
  launch_loop-Started [] n to_remove s =
      none-Started n [] to_remove s s (inr (inl refl)) (none-Grown s s refl refl refl refl refl)
  launch_loop-Started (p ∷ ps) zero to_remove s =
      Post-imp (λ r. Started cloud 0 ps (passed p to_remove) r s)
        (λ r. Started cloud 0 (p ∷ ps) to_remove r s) (Stopped cloud 0 ps s)
        (Stopped cloud 0 (p ∷ ps) s) _ (λ r t h. skip p ps to_remove r s t h)
        (λ t h. not-Stopped p ps s t h) (launch_loop-Started ps zero (passed p to_remove) s)
  launch_loop-Started (p ∷ ps) (suc n) to_remove s =
      elim (Result-cases (cloud.vm_start s.shell.trace p.flavor p.zone p.resource_name)) [
        | inr (x, e) ↦ rw e (record {
          number = 0;
          fits = omega arith;
          error = x;
          asked = first-Asked p ps s e;
          grown = none-Grown s _ refl refl refl refl refl;
        })
        | inl (none, e) ↦ rw e (
            none-Started (suc n) (p ∷ ps) to_remove s _ (inr (inr (first-Asked p ps s e)))
              (none-Grown s _ refl refl refl refl refl))
        | inl (some vm, e) ↦ rw e (
            Post-imp (λ r. Started cloud n ps (to_remove ++ (p ∷ [])) r (with_one s vm))
              (λ r. Started cloud (suc n) (p ∷ ps) to_remove r s)
              (Stopped cloud n ps (with_one s vm)) (Stopped cloud (suc n) (p ∷ ps) s) _
              (λ r t h. step n p ps to_remove r s t vm h) (λ t h. step-Stopped n p ps s t vm h)
              (launch_loop-Started ps n (to_remove ++ (p ∷ [])) (with_one s vm)))
      ]
