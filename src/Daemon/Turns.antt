-- ===== src/Daemon/Turns.antt =====
-- How often a poller polls.
use dynamictorque.Base.{
  ℕ, zero, suc, ◌+◌, ◌-◌, ◌<◌, ◌≡◌, refl, ap, ◌∙◌, arith, true, false, leb, ◌==◌,
}
use dynamictorque.Base.Action.{Action, pure, modify}
use dynamictorque.Daemon.{Poller, turn}

-- A poll that only counts.
abbrev pub count_poll : Action ℕ Unit
count_poll = modify suc

-- `n` turns of a thread with its count of polls.
unfoldable pub turns : ℕ → ℕ → Poller × ℕ → Poller × ℕ
turns interval zero x = x
turns interval (suc n) x = turns interval n (turn interval count_poll (pure tt) x.0 x.1)

-- A thread that is in its loop.
abbrev pub live : ℕ → Poller
live t = record { tics = t; quit = false; alive = true }

module _ (interval : ℕ) where
  abbrev turn_of : ℕ → ℕ → Poller × ℕ
  turn_of t c = turn interval count_poll (pure tt) (live t) c

  passes : (t c : ℕ) → 0 < t → suc t < interval → turn_of t c ≡ (live (suc t), c)
  unfolding turn
  passes t c h k =
      let later : (t == 0) ≡ false = ground arith in
      let early : leb interval (suc t) ≡ false = ground arith in rw (later, early) refl

  ends : (t c : ℕ) → 0 < t → suc t ≡ interval → turn_of t c ≡ (live 0, c)
  unfolding turn
  ends t c h k =
      let later : (t == 0) ≡ false = ground arith in
      let last : leb interval (suc t) ≡ true = ground (arith, k) in rw (later, last) refl

  -- The turn that polls.
  polls : (c : ℕ) → 1 < interval → turn_of 0 c ≡ (live 1, suc c)
  unfolding turn
  polls c k = let early : leb interval 1 ≡ false = ground arith in rw early refl

  polls_each : (c : ℕ) → interval ≡ 1 → turn_of 0 c ≡ (live 0, suc c)
  unfolding turn
  polls_each c k = let last : leb interval 1 ≡ true = ground (arith, k) in rw last refl

  turns_add :
      (m n : ℕ) (x : Poller × ℕ) → turns interval (m + n) x ≡ turns interval n (turns interval m x)
  unfolding turns
  turns_add zero n x = let e : zero + n ≡ n = omega arith in ap (λ k. turns interval k x) e
  turns_add (suc m) n x =
      let e : suc m + n ≡ suc (m + n) = omega arith in
      ap (λ k. turns interval k x) e ∙ turns_add m n (turn interval count_poll (pure tt) x.0 x.1)

  -- The turns up to the end of the interval only count the seconds.
  waits : (n t c : ℕ) → 0 < t → t + n < interval → turns interval n (live t, c) ≡ (live (t + n), c)
  unfolding turns
  waits zero t c h k = ap (λ x. (live x, c)) (omega arith)
  waits (suc n) t c h k =
      ap (turns interval n) (passes t c h (omega (arith, k)))
      ∙ waits n (suc t) c (omega arith) (omega (arith, k))
      ∙ ap (λ x. (live x, c)) (omega arith)

  wraps :
      (n t c : ℕ) → 0 < t → t + suc n ≡ interval → turns interval (suc n) (live t, c) ≡ (live 0, c)
  unfolding turns
  wraps zero t c h k = ends t c h (omega (arith, k))
  wraps (suc n) t c h k =
      ap (turns interval (suc n)) (passes t c h (omega (arith, k)))
      ∙ wraps n (suc t) c (omega arith) (omega (arith, k))

-- Within any `polling_interval` seconds, a thread that is in its loop polls exactly once, and it
-- is then as far into its interval as before. The poll is taken to be one that does not raise.
pub turns_poll_once :
    (interval t c : ℕ) → t < interval → turns interval interval (live t, c) ≡ (live t, suc c)
unfolding turns
turns_poll_once zero t c h = absurd (omega (arith, h))
turns_poll_once (suc zero) zero c h = polls_each (suc zero) c refl
turns_poll_once (suc (suc m)) zero c h =
    let interval = suc (suc m) in
    ap (turns interval (suc m)) (polls interval c (omega arith))
    ∙ wraps interval m 1 (suc c) (omega arith) (omega arith)
turns_poll_once interval (suc m) c h =
    let k = interval - suc m - 1 in
    let e : interval ≡ suc k + suc m = omega (arith, h) in
    ap (λ n. turns interval n (live (suc m), c)) e
    ∙ turns_add interval (suc k) (suc m) (live (suc m), c)
    ∙ ap (turns interval (suc m)) (wraps interval k (suc m) c (omega arith) (omega (arith, h)))
    ∙ ap (turns interval m) (polls interval c (omega (arith, h)))
    ∙ waits interval m 1 (suc c) (omega arith) (omega (arith, h))
    ∙ ap (λ x. (live x, suc c)) (omega arith)
