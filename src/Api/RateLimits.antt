-- ===== src/Api/RateLimits.antt =====
-- apps/api/src/services/rate-limit.service.js: counters of requests for each client address and each
-- wallet address, with windows and blocks.
pub mod Rows
pub mod Windows
pub mod Retries
use arcpass.Prelude.{
  ℕ, ◌+◌, ◌*◌, ◌-◌, ◌/◌, Bool, true, false, ◌&&◌, Option, none, some, List, [], ◌∷◌, ◌++◌, Text,
  codes, ◌==◌, text_eq, trim, ltb, leb, if◌then◌else◌,
}
use arcpass.Store.{RateLimit, IdentifierType, ip, wallet, user_agent}
use arcpass.Store.Table.{find_first, update_row}
use arcpass.Api.Errors.{Result, ok, err, rate_limited}
use arcpass.Api.Actions.{Action, ApiStore, pure, throw, gets, modify_limits, ◌>>=◌, ◌>>◌}

-- The part of `config` that is about rates.
pub record RateConfig : Type 0 where
  pub rate_limit_ip_max : ℕ
  pub rate_limit_wallet_max : ℕ
  pub rate_limit_window_ms : ℕ
  pub rate_limit_block_duration_ms : ℕ

abbrev pub type_eq : IdentifierType → IdentifierType → Bool
type_eq ip ip = true
type_eq wallet wallet = true
type_eq user_agent user_agent = true
type_eq _ _ = false

abbrev pub is_limit_of : Text → IdentifierType → RateLimit → Bool
is_limit_of identifier kind r = text_eq r.identifier identifier && type_eq r.identifier_type kind

-- `findFirst({ where: { identifier, identifierType } })`.
abbrev pub find_limit : Text → IdentifierType → List RateLimit → Option RateLimit
find_limit identifier kind limits = find_first (is_limit_of identifier kind) limits

abbrev pub write_limit : ℕ → (RateLimit → RateLimit) → List RateLimit → List RateLimit
write_limit id f limits = update_row (λ r. r.id) id f limits

abbrev pub too_many : Text
too_many = codes "Too many requests. Please try again later."

-- `Math.ceil(ms / 1000)`.
abbrev pub seconds : ℕ → ℕ
seconds ms = (ms + 999) / 1000

-- `record.blockedUntil && record.blockedUntil > now`.
abbrev pub is_blocked_at : ℕ → Option ℕ → Bool
is_blocked_at now none = false
is_blocked_at now (some until) = ltb now until

abbrev pub until_or_now : ℕ → Option ℕ → ℕ
until_or_now now none = now
until_or_now now (some until) = until

-- What a check does with the record that it finds; `at_limit` is the error of a full window.
unfoldable pub check_record : ℕ → ℕ → Option ℕ → ℕ → RateLimit → Result (Unit {0})
check_record window_ms max at_limit now r =
    if is_blocked_at now r.blocked_until
    then err (rate_limited too_many (some (seconds (until_or_now now r.blocked_until - now))))
    else if leb (r.window_start + window_ms) now
    then ok tt
    else if leb max r.request_count
    then err (rate_limited too_many at_limit)
    else ok tt

abbrev pub check_found : ℕ → ℕ → Option ℕ → ℕ → Option RateLimit → Result (Unit {0})
check_found window_ms max at_limit now none = ok tt
check_found window_ms max at_limit now (some r) = check_record window_ms max at_limit now r

-- The update of an increment: `now` and `later` are its two readings of the clock.
unfoldable pub count_record : RateConfig → ℕ → ℕ → ℕ → RateLimit → RateLimit
count_record config max now later r =
    if leb (r.window_start + config.rate_limit_window_ms) now
    then record r { request_count = 1; window_start = now; blocked_until = none }
    else if leb max (r.request_count + 1)
    then record r {
      request_count = r.request_count + 1;
      blocked_until = some (later + config.rate_limit_block_duration_ms);
    }
    else record r { request_count = r.request_count + 1 }

abbrev pub first_record : Text → IdentifierType → ℕ → ℕ → RateLimit
first_record identifier kind now id = record {
  id = id;
  identifier = identifier;
  identifier_type = kind;
  request_count = 1;
  window_start = now;
  blocked_until = none;
}

-- The uuid of a new record comes from the database.
module _ (config : RateConfig) (new_id : List RateLimit → ℕ) where
  abbrev pub increment_found :
      Text → IdentifierType → ℕ → ℕ → ℕ → Option RateLimit → List RateLimit → List RateLimit
  increment_found identifier kind max now later none limits =
      limits ++ first_record identifier kind now (new_id limits) ∷ []
  increment_found identifier kind max now later (some r) limits =
      write_limit r.id (count_record config max now later) limits

  abbrev pub increment_rows : Text → IdentifierType → ℕ → ℕ → ℕ → List RateLimit → List RateLimit
  increment_rows identifier kind max now later limits =
      increment_found identifier kind max now later (find_limit identifier kind limits) limits

  unfoldable pub check_ip_rate_limit : ℕ → Text → Action (Unit {0})
  check_ip_rate_limit now address s = (
    check_found config.rate_limit_window_ms config.rate_limit_ip_max none now
        (find_limit address ip s.limits),
    s,
  )

  unfoldable pub increment_ip_request_count : ℕ → ℕ → Text → Action (Unit {0})
  increment_ip_request_count now later address =
      modify_limits (increment_rows address ip config.rate_limit_ip_max now later)

  unfoldable pub check_wallet_rate_limit : ℕ → Text → Action (Unit {0})
  check_wallet_rate_limit now address s = (
    check_found config.rate_limit_window_ms config.rate_limit_wallet_max
        (some (seconds config.rate_limit_block_duration_ms)) now
        (find_limit address wallet s.limits),
    s,
  )

  unfoldable pub increment_wallet_request_count : ℕ → ℕ → Text → Action (Unit {0})
  increment_wallet_request_count now later address =
      modify_limits (increment_rows address wallet config.rate_limit_wallet_max now later)

  -- `blockIdentifier`; nothing in the repository calls it.
  abbrev pub block_found :
      Text → IdentifierType → ℕ → ℕ → Option RateLimit → List RateLimit → List RateLimit
  block_found identifier kind until now none limits =
      limits
      ++ record (first_record identifier kind now (new_id limits)) {
        request_count = 0;
        blocked_until = some until;
      }
        ∷ []
  block_found identifier kind until now (some r) limits =
      write_limit r.id (λ r. record r { blocked_until = some until }) limits

  abbrev pub duration_or_default : Option ℕ → ℕ
  duration_or_default none = config.rate_limit_block_duration_ms
  duration_or_default (some ms) = ms

  unfoldable pub block_identifier : ℕ → ℕ → Text → IdentifierType → Option ℕ → Action (Unit {0})
  block_identifier now later identifier kind duration_ms = modify_limits λ limits.
      block_found identifier kind (now + duration_or_default duration_ms) later
        (find_limit identifier kind limits) limits

  -- The `preHandler` of server.js and the one of the sponsorship route.
  unfoldable pub limit_ip : ℕ → ℕ → ℕ → Text → Action (Unit {0})
  limit_ip checked now later address = do
    check_ip_rate_limit checked address
    increment_ip_request_count now later address

  unfoldable pub limit_wallet : ℕ → ℕ → ℕ → Text → Action (Unit {0})
  limit_wallet checked now later address = do
    check_wallet_rate_limit checked address
    increment_wallet_request_count now later address

-- `forwarded.split(',')[0]`.
abbrev pub before_comma : Text → Text
before_comma [] = []
before_comma (c ∷ s) = let rest = before_comma s in if c == b',' then [] else c ∷ rest

abbrev pub or_address : Text → Text → Text
or_address [] address = address
or_address (c ∷ s) address = c ∷ s

-- `getClientIp`: the header X-Forwarded-For, if it is there, and the address of the connection.
unfoldable pub get_client_ip : Option Text → Text → Text
get_client_ip none address = address
get_client_ip (some forwarded) address = or_address (trim (before_comma forwarded)) address
