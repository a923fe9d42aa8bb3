-- ===== src/Api/Replay.antt =====
-- apps/api/src/plugins/replay-protection.js: a second request of one wallet from one address within
-- five seconds is refused.
pub mod Once
use arcpass.Prelude.{
  ℕ, ◌+◌, ◌-◌, Bool, true, false, ◌&&◌, Option, none, some, List, [], ◌∷◌, ◌++◌, Text, codes,
  text_eq, ltb, if◌then◌else◌,
}
use Prim.Native.Nat.{max}
use arcpass.Store.{RateLimit, IdentifierType, ip}
use arcpass.Store.Table.{find_first}
use arcpass.Api.Actions.{Action, pure, gets, modify_limits, ◌>>=◌, ◌>>◌}
use arcpass.Api.Responses.{Reply}
use arcpass.Api.RateLimits.{
  find_limit, is_limit_of, write_limit, first_record, seconds, get_client_ip,
}

-- What the plugin reads of a request: `forwarded` is the header X-Forwarded-For.
pub record Request : Type 0 where
  pub method : Text
  pub url : Text
  pub wallet_address : Option Text
  pub forwarded : Option Text
  pub address : Text

abbrev pub replay_window_ms : ℕ
replay_window_ms = 5000

-- `${walletAddress}:${clientIp}`.
abbrev pub composite_key : Text → Text → Text
composite_key wallet_address client_ip = wallet_address ++ b':' ∷ client_ip

-- A record of the key that is in the window: `windowStart > now - REPLAY_WINDOW_MS`.
abbrev pub is_recent : ℕ → Text → RateLimit → Bool
is_recent now key r = is_limit_of key ip r && ltb now (r.window_start + replay_window_ms)

abbrev pub duplicate : ℕ → RateLimit → Reply
duplicate now existing = record {
  status = 429;
  error = codes "Duplicate request detected. Please wait before retrying.";
  error_name = none;
  retry_after = some (max 1 (seconds (existing.window_start + replay_window_ms - now)));
}

abbrev pub restart : ℕ → RateLimit → RateLimit
restart now r = record r { window_start = now; request_count = 1 }

module _ (new_id : List RateLimit → ℕ) (now : ℕ) where
  abbrev pub record_found : Text → Option RateLimit → List RateLimit → List RateLimit
  record_found key none limits = limits ++ first_record key ip now (new_id limits) ∷ []
  record_found key (some r) limits = write_limit r.id (restart now) limits

  -- The timestamp of an accepted request.
  abbrev pub record_request : Text → List RateLimit → List RateLimit
  record_request key limits = record_found key (find_limit key ip limits) limits

  abbrev pub answer : Text → Option RateLimit → Action (Option Reply)
  answer key none = do modify_limits (record_request key); pure none
  answer key (some existing) = pure (some (duplicate now existing))

  abbrev pub check_key : Text → Action (Option Reply)
  check_key key = do
    existing ← gets (λ s. find_first (is_recent now key) s.limits)
    answer key existing

  abbrev pub check_body : Option Text → Text → Action (Option Reply)
  check_body none client_ip = pure none
  check_body (some []) client_ip = pure none
  check_body (some (c ∷ wallet_address)) client_ip =
      check_key (composite_key (c ∷ wallet_address) client_ip)

  -- The hook: `none` lets the request through.
  unfoldable pub replay_protection : Request → Action (Option Reply)
  replay_protection request =
      if text_eq request.method (codes "POST") && text_eq request.url (codes "/sponsorship/request")
      then check_body request.wallet_address (get_client_ip request.forwarded request.address)
      else pure none
