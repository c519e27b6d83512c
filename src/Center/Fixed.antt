-- ===== src/Center/Fixed.antt =====
-- Actions that move no VM from list to list, and what they are made of.
use dynamictorque.Base.{◌≡◌, ◌∙◌, Bool, true, false, Option, none, some, List, if◌then◌else◌}
use dynamictorque.Base.Action.{
  Action, Error, ◌>>=◌, ◌>>◌, Post, and_then-Post, for_each-Post, for_each, or_raise, pure,
  fold_each, fold_each-Post, when_some, modify,
}
use dynamictorque.World.{Shell}
use dynamictorque.Center.State.{Center, lift}
use dynamictorque.Center.Tracking.{Lists, lists, lift-Post}

-- The lists are the same after the action, also if it raises.
pub record IsFixed {A : Type 0} (m : Action Center A) : Type 0 where
  pub keeps :
      (l : Lists) (s : Center) → lists s ≡ l → Post (λ _ t. lists t ≡ l) (λ t. lists t ≡ l) (m s)

pub bind-IsFixed :
    {A B : Type 0} {m : Action Center A} {f : A → Action Center B}
    → IsFixed m
    → ((a : A) → IsFixed (f a))
    → IsFixed (m >>= f)
bind-IsFixed {m} {f} h k = record {
  keeps = λ l s e.
      and_then-Post (λ _ t. lists t ≡ l) (λ _ t. lists t ≡ l) (λ t. lists t ≡ l) (m s) f
        (h.keeps l s e) (λ a t e'. (k a).keeps l t e');
}

pub then-IsFixed :
    {A B : Type 0} {m : Action Center A} {n : Action Center B}
    → IsFixed m
    → IsFixed n
    → IsFixed (m >> n)
then-IsFixed h k = record {
  keeps = λ l s e.
      and_then-Post (λ _ t. lists t ≡ l) (λ _ t. lists t ≡ l) (λ t. lists t ≡ l) _ _ (h.keeps l s e)
        (λ a t e'. k.keeps l t e');
}

pub lift-IsFixed : {A : Type 0} (m : Action Shell A) → IsFixed (lift m)
lift-IsFixed m = record {
  keeps = λ l s e. lift-Post (λ _ t. lists t ≡ l) (λ t. lists t ≡ l) m s (λ _ _. e) (λ _. e);
}

pub if-IsFixed :
    {A : Type 0} (b : Bool) {m n : Action Center A}
    → IsFixed m
    → IsFixed n
    → IsFixed (if b then m else n)
if-IsFixed true h k = h
if-IsFixed false h k = k

pub pure-IsFixed : {A : Type 0} (a : A) → IsFixed (pure a)
pure-IsFixed a = record { keeps = λ l s e. e }

pub or_raise-IsFixed : {A : Type 0} (o : Option A) (x : Error) → IsFixed (or_raise o x)
or_raise-IsFixed none x = record { keeps = λ l s e. e }
or_raise-IsFixed (some a) x = record { keeps = λ l s e. e }

pub for_each-IsFixed :
    {A : Type 0} (xs : List A) {body : A → Action Center Unit}
    → ((a : A) → IsFixed (body a))
    → IsFixed (for_each xs body)
for_each-IsFixed xs {body} h = record {
  keeps = λ l s e.
      for_each-Post (λ _ t. lists t ≡ l) (λ t. lists t ≡ l) body (λ a _ t e'. (h a).keeps l t e') xs
        s e;
}

pub fold_each-IsFixed :
    {A B : Type 0} (xs : List A) (b : B) {body : B → A → Action Center B}
    → ((b : B) (a : A) → IsFixed (body b a))
    → IsFixed (fold_each xs b body)
fold_each-IsFixed xs b {body} h = record {
  keeps = λ l s e.
      fold_each-Post (λ _ _ t. lists t ≡ l) (λ t. lists t ≡ l) body
        (λ a _ c t e'. (h c a).keeps l t e') xs b s e;
}

pub when_some-IsFixed :
    {A : Type 0} (o : Option A) {f : A → Action Center Unit}
    → ((a : A) → IsFixed (f a))
    → IsFixed (when_some o f)
when_some-IsFixed none h = record { keeps = λ l s e. e }
when_some-IsFixed (some a) h = record { keeps = λ l s e. (h a).keeps l s e }

pub modify-IsFixed :
    (f : Center → Center) → ((s : Center) → lists (f s) ≡ lists s) → IsFixed (modify f)
modify-IsFixed f h = record { keeps = λ l s e. h s ∙ e }
