-- ===== src/Api/RateLimits/Windows.antt =====
-- How many requests of one identifier pass the rate limiter in a time.
mod Replays
pub mod Runs
use arcpass.Prelude.{
  ℕ, ◌+◌, ◌*◌, ◌≤◌, ◌<◌, ◌≡◌, refl, Bool, true, false, ◌&&◌, Option, none, some, List, [], ◌∷◌, leb,
  ltb, arith, if◌then◌else◌, suc,
}
use arcpass.Store.{RateLimit}
use arcpass.Store.Table.{count_rows}
use arcpass.Api.Errors.{ok}
use arcpass.Api.RateLimits.{RateConfig, check_record, count_record}

-- The times from `t` on, and those before `t + window`.
abbrev pub count_from : ℕ → List ℕ → ℕ
count_from t times = count_rows (λ x. leb t x) times

abbrev pub count_within : ℕ → ℕ → List ℕ → ℕ
count_within t window times = count_rows (λ x. leb t x && ltb x (t + window)) times

pub count_from-le : (t u : ℕ) (times : List ℕ) → t ≤ u → count_from u times ≤ count_from t times
count_from-le t u [] h = omega arith
count_from-le t u (x ∷ times) h = ground (arith, count_from-le t u times)

pub count_within-le : (t w : ℕ) (times : List ℕ) → count_within t w times ≤ count_from t times
count_within-le t w [] = omega arith
count_within-le t w (x ∷ times) = ground (arith, count_within-le t w times)

-- A record of the limiter and the times of the requests that passed: `max` of them at most lie in
-- the window of the record, and `max` in the part of an earlier window that reaches into the time
-- before it.
pub record IsWithin (max window : ℕ) (times : List ℕ) (r : RateLimit) : Type 0 where
  pub bounded : r.request_count ≤ max
  pub counted : count_from r.window_start times ≤ r.request_count
  pub ended : count_from (r.window_start + window) times ≡ 0
  pub straddling :
      (t : ℕ) → r.window_start < t + window → count_from t times ≤ max + r.request_count
  pub spread : (t : ℕ) → count_within t window times ≤ 2 * max

module _ (config : RateConfig) (max checked now later : ℕ) (at_limit : Option ℕ) (times : List ℕ)
    (r : RateLimit) (within : IsWithin max config.rate_limit_window_ms times r)
    (started : r.window_start ≤ checked) (ordered : checked ≤ now)
    (positive : 0 < config.rate_limit_window_ms) (some_max : 0 < max)
    (passed : check_record config.rate_limit_window_ms max at_limit checked r ≡ ok tt) where
  open config use {rate_limit_window_ms}

  -- A request that passes in the record's window finds room in it.
  passed-room : now < r.window_start + rate_limit_window_ms → r.request_count < max
  unfolding check_record
  passed-room h = ground arith

  pub count_record-started : (count_record config max now later r).window_start ≤ now
  unfolding count_record
  count_record-started = ground arith

  pub count_record-IsWithin :
      IsWithin max rate_limit_window_ms (now ∷ times) (count_record config max now later r)
  unfolding count_record
  count_record-IsWithin = record {
    bounded = ground (arith, passed-room, within.bounded);
    counted = ground (
      arith,
      passed-room,
      within.counted,
      within.ended,
      count_from-le (r.window_start + rate_limit_window_ms) now times,
    );
    ended = ground (
      arith,
      passed-room,
      within.ended,
      count_from-le (r.window_start + rate_limit_window_ms) (now + rate_limit_window_ms) times,
    );
    straddling = λ t h. ground (
      arith,
      passed-room,
      within.bounded,
      within.counted,
      within.straddling t,
      count_from-le r.window_start t times,
    );
    spread = λ t. ground (
      arith,
      passed-room,
      within.bounded,
      within.counted,
      within.straddling t,
      within.spread t,
      count_from-le r.window_start t times,
      count_within-le t rate_limit_window_ms times,
    );
  }
