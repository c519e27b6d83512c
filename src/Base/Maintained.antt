-- ===== src/Base/Maintained.antt =====
-- Actions that keep an invariant, also when they raise, and what they are made of.
use mathlib.Core.Bool.{Bool, true, false}
use mathlib.Core.Option.{Option, none, some}
use mathlib.Core.List.{List}
use dynamictorque.Base.Tests.{if◌then◌else◌}
use dynamictorque.Base.Action.{
  Action, Result, Error, Keeps, and_then-Keeps, fold_each, fold_each-Keeps, for_each,
  for_each-Keeps, or_raise, modify, pure, gets, ◌>>=◌, ◌>>◌,
}

pub record Maintains {S A : Type 0} (I : S → Type 0) (m : Action S A) : Type 0 where
  pub keeps : Keeps I m

module _ {S : Type 0} {I : S → Type 0} where
  pub bind-Maintains :
      {A B : Type 0} {m : Action S A} {f : A → Action S B}
      → Maintains I m
      → ((a : A) → Maintains I (f a))
      → Maintains I (m >>= f)
  bind-Maintains {m} {f} h k = record {
    keeps = λ s e. and_then-Keeps I (m s) f (h.keeps s e) (λ a. (k a).keeps);
  }

  pub then-Maintains :
      {A B : Type 0} {m : Action S A} {n : Action S B}
      → Maintains I m
      → Maintains I n
      → Maintains I (m >> n)
  then-Maintains {m} {n} h k = record {
    keeps = λ s e. and_then-Keeps I (m s) (λ _. n) (h.keeps s e) (λ a. k.keeps);
  }

  pub if-Maintains :
      {A : Type 0} (b : Bool) {m n : Action S A}
      → Maintains I m
      → Maintains I n
      → Maintains I (if b then m else n)
  if-Maintains true h k = h
  if-Maintains false h k = k

  pub for_each-Maintains :
      {A : Type 0} (xs : List A) {body : A → Action S Unit}
      → ((a : A) → Maintains I (body a))
      → Maintains I (for_each xs body)
  for_each-Maintains xs {body} h = record { keeps = for_each-Keeps I body (λ a. (h a).keeps) xs }

  pub fold_each-Maintains :
      {A B : Type 0} (xs : List A) (b : B) {body : B → A → Action S B}
      → ((b : B) (a : A) → Maintains I (body b a))
      → Maintains I (fold_each xs b body)
  fold_each-Maintains xs b {body} h = record {
    keeps = fold_each-Keeps I body (λ c a. (h c a).keeps) xs b;
  }

  -- An action that only answers, or raises.
  pub answer-Maintains : {A : Type 0} (f : S → Result A) → Maintains I (λ s. (f s, s))
  answer-Maintains f = record { keeps = λ s h. h }

  pub or_raise-Maintains : {A : Type 0} (o : Option A) (e : Error) → Maintains I (or_raise o e)
  or_raise-Maintains none e = record { keeps = λ s h. h }
  or_raise-Maintains (some a) e = record { keeps = λ s h. h }

  pub pure-Maintains : {A : Type 0} (a : A) → Maintains I (pure a)
  pure-Maintains a = record { keeps = λ s h. h }

  pub gets-Maintains : {A : Type 0} (f : S → A) → Maintains I (gets f)
  gets-Maintains f = record { keeps = λ s h. h }

  pub modify-Maintains : (f : S → S) → ((s : S) → I s → I (f s)) → Maintains I (modify f)
  modify-Maintains f h = record { keeps = h }
