-- ===== src/Api/RateLimits/Retries.antt =====
-- The `Retry-After` of a blocked identifier.
use arcpass.Prelude.{
  ℕ, zero, suc, lt→ltb, ◌+◌, ◌*◌, ◌-◌, ◌<◌, ◌≡◌, refl, ap, false, Option, some, arith,
}
use arcpass.Store.{RateLimit}
use arcpass.Api.Errors.{Result, err, rate_limit_error, or_null}
use arcpass.Api.RateLimits.{check_record, is_blocked_at, seconds, too_many}

or_null-positive : (n : ℕ) → 0 < n → or_null (some n) ≡ some n
or_null-positive zero h = elim h [ ]
or_null-positive (suc n) h = refl

-- A check of a record that is blocked fails, whatever the counter says. The seconds of its
-- `Retry-After` are as few as lead to the end of the block, and when they are over the record is not
-- blocked any more.
pub check_record-retry_after :
    (window_ms max now until : ℕ) (at_limit : Option ℕ) (r : RateLimit)
    → r.blocked_until ≡ some until
    → now < until
    → (s : ℕ) × (check_record window_ms max at_limit now r
        ≡ err (rate_limit_error too_many (some s)))
      × (now + 1000 * s < until + 1000)
      × (is_blocked_at (now + 1000 * s) r.blocked_until ≡ false)
unfolding check_record
check_record-retry_after window_ms max now until at_limit r blocked h = (
  seconds (until - now),
  rw (blocked, lt→ltb now until h)
      (ap (λ o. let e : Result (Unit {0}) = err (rate_limit_error too_many o) in e)
        (or_null-positive (seconds (until - now)) (omega arith))),
  omega arith,
  rw blocked (ground arith),
)
