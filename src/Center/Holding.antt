-- ===== src/Center/Holding.antt =====
-- Actions that forget no VM, and what they are made of.
use dynamictorque.Base.{ℕ, ◌<◌, ◌≡◌, refl, arith}
use dynamictorque.Base.Maintained.{Maintains}
use dynamictorque.Base.Action.{Action, Result, Post-imp, Post-both}
use dynamictorque.Cloud.{Cloud}
use dynamictorque.Center.State.{Center}
use dynamictorque.Center.Launch.{launch_instances}
use dynamictorque.Center.Tracking.{answer-Post, lists, tracked}
use dynamictorque.Center.Settled.{tracked-lists}
use dynamictorque.Center.Cleaned.{Keeps, launch_instances-Keeps}
use dynamictorque.Center.Fixed.{IsFixed}

-- A list of the center holds the VM.
abbrev pub Held : ℕ → Center → Type 0
Held v t = 0 < tracked v t

pub IsFixed-Maintains :
    {A : Type 0} (v : ℕ) {m : Action Center A} → IsFixed m → Maintains (Held v) m
IsFixed-Maintains v {m} h = record {
  keeps = λ s k.
      let same = Post-both (λ t. lists t ≡ lists s) (m s) (h.keeps (lists s) s refl) in
      omega (arith, k, tracked-lists v s (m s).1 same);
}

-- An action that only answers.
pub answer-IsFixed : {A : Type 0} (f : Center → Result A) → IsFixed (λ s. (f s, s))
answer-IsFixed f = record { keeps = λ l s e. answer-Post (λ t. lists t ≡ l) (f s) s e }

pub launch_instances-Maintains :
    (cloud : Cloud) (v : ℕ) → Maintains (Held v) (launch_instances cloud)
launch_instances-Maintains cloud v = record {
  keeps = λ s h. Post-both (Held v) (launch_instances cloud s) (
      Post-imp (λ _. Keeps v s) (λ _. Held v) (Keeps v s) (Held v) (launch_instances cloud s)
        (λ _ t k. omega (arith, h, k)) (λ t k. omega (arith, h, k))
        (launch_instances-Keeps cloud v s));
}
