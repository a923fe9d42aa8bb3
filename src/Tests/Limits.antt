-- ===== src/Tests/Limits.antt =====
-- The API's limiter, replay protection and error handler.
use arcpass.Prelude.{
  ℕ, ◌+◌, ◌*◌, ◌≤◌, ◌<◌, ◌≡◌, refl, true, false, none, some, List, [], ◌∷◌, Text, codes, text_eq,
  arith, ==_iff,
}
use arcpass.SponsorshipTypes.{SponsorshipStatus}
use arcpass.Store.{RateLimit, ip}
use arcpass.Store.Table.{find_unique}
use arcpass.Api.Errors.{ok, err, rate_limit_error}
use arcpass.Api.Actions.{ApiStore}
use arcpass.Api.Responses.{Reply, thrown, handle_error}
use arcpass.Api.Responses.Sanitised.{handle_error-production}
use arcpass.Api.RateLimits.{RateConfig, check_record, too_many, is_blocked_at}
use arcpass.Api.RateLimits.Rows.{IsFresh}
use arcpass.Api.RateLimits.Windows.{count_within}
use arcpass.Api.RateLimits.Windows.Runs.{Arrival, by_ip, by_wallet, by_replay, passed, passed-le}
use arcpass.Api.RateLimits.Retries.{check_record-retry_after}
use arcpass.Api.Replay.{Request, replay_protection}
use arcpass.Api.Replay.Once.{increments, checks, use_all, replay_protection-once}
use arcpass.Tests.Data.{database}

-- Two requests of an address in a window of 1000 ms.
abbrev config : RateConfig
config = record {
  rate_limit_ip_max = 2;
  rate_limit_wallet_max = 1;
  rate_limit_window_ms = 1000;
  rate_limit_block_duration_ms = 500;
}

-- An id that no row has: the sum of all, and one.
abbrev next_id : List RateLimit → ℕ
next_id [] = 1
next_id (r ∷ rs) = r.id + next_id rs

next_id-positive : (rs : List RateLimit) → 1 ≤ next_id rs
next_id-positive [] = omega arith
next_id-positive (r ∷ rs) = omega (arith, next_id-positive rs)

above_all : (k : ℕ) (rs : List RateLimit) → next_id rs ≤ k → find_unique (λ r. r.id) k rs ≡ none
above_all k [] h = refl
above_all k (r ∷ rs) h =
    ground (arith, ==_iff r.id k, next_id-positive rs, above_all k rs (omega arith))

next_id-IsFresh : IsFresh next_id
next_id-IsFresh rs = above_all (next_id rs) rs (omega arith)

abbrev home : Text
home = codes "10.0.0.1"

abbrev start_store : ApiStore
start_store = record { db = database SponsorshipStatus.pending []; limits = [] }

-- Two requests at the end of one window, and two at the start of the next.
abbrev arrivals : List Arrival
arrivals =
    by_ip 1 1 1 home
    ∷ by_ip 2 2 2 home
    ∷ by_wallet 2 2 3 home
    ∷ by_replay 3 (codes "0xabc:10.0.0.1")
    ∷ by_ip 3 3 3 home
    ∷ by_ip 1001 1001 1001 home
    ∷ by_ip 1002 1002 1002 home
    ∷ []

passed-le_example :
    count_within 2 1000 (passed config next_id home ip arrivals start_store []) ≤ 2 * 2
unfolding text_eq
passed-le_example =
    passed-le config next_id home ip 0 2 arrivals start_store next_id-IsFresh (omega arith)
      (omega arith) (omega arith) (refl, tt) tt refl

abbrev blocked_row : RateLimit
blocked_row = record {
  id = 1;
  identifier = home;
  identifier_type = ip;
  request_count = 2;
  window_start = 0;
  blocked_until = some 1501;
}

check_record-retry_after_example :
    (s : ℕ) × (check_record 1000 2 none 500 blocked_row ≡ err (rate_limit_error too_many (some s)))
    × (500 + 1000 * s < 2501)
    × (is_blocked_at (500 + 1000 * s) (some 1501) ≡ false)
check_record-retry_after_example =
    check_record-retry_after 1000 2 500 1501 none blocked_row refl (omega arith)

abbrev ask : Request
ask = record {
  method = codes "POST";
  url = codes "/sponsorship/request";
  wallet_address = some (codes "0xabc");
  forwarded = none;
  address = home;
}

replay_protection-once_example :
    let s' =
      use_all config next_id
        (increments home ip 2 6001 6002 ∷ checks (codes "0xdef:10.0.0.1") 7000 ∷ [])
        (replay_protection next_id 6000 ask start_store).1 in
    (reply : Reply) × (replay_protection next_id 10999 ask s' ≡ (ok (some reply), s'))
    × (reply.status ≡ 429)
unfolding text_eq replay_protection
replay_protection-once_example =
    replay_protection-once config next_id 6000 10999 ask b'0' (codes "xabc")
      (increments home ip 2 6001 6002 ∷ checks (codes "0xdef:10.0.0.1") 7000 ∷ []) start_store refl
      refl tt refl (omega arith, (omega arith, tt)) (omega arith)

handle_error-production_example :
    handle_error true (thrown (rate_limit_error too_many (some 3)))
    ≡ record (handle_error false (thrown (rate_limit_error too_many (some 3)))) {
      error_name = none;
    }
handle_error-production_example =
    handle_error-production (thrown (rate_limit_error too_many (some 3)))
