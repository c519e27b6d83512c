-- ===== src/Center/Timing.antt =====
-- The times that the resource center compares.
use dynamictorque.Base.{ℕ, ◌+◌, ◌-◌, ◌≤◌, ◌<◌, ◌≡◌, ◌↔◌, some, true, arith}
use dynamictorque.Center.Cleanup.{seconds_between, is_delete_due}

-- The clock's time is taken from the earlier time, so that a day less the wait is left.
seconds_between_later :
    (deleted waited : ℕ)
    → 1 ≤ waited
    → waited ≤ 86399
    → seconds_between deleted (deleted + waited) ≡ 86400 - waited
seconds_between_later deleted waited h1 h2 = omega arith

-- From a second to a day after a VM was deleted, the deletion is tried again exactly if the wait
-- and the limit `max_delete_retry_time` together are shorter than a day.
pub is_delete_due_iff :
    (limit deleted waited : ℕ)
    → 1 ≤ waited
    → waited ≤ 86399
    → (is_delete_due limit (some deleted) (deleted + waited) ≡ true) ↔ (waited + limit < 86400)
unfolding is_delete_due
is_delete_due_iff limit deleted waited h1 h2 =
    rw (seconds_between_later deleted waited h1 h2) ((λ e. ground arith), (λ e. ground arith))
