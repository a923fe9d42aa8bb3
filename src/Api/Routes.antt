-- ===== src/Api/Routes.antt =====
-- apps/api/src/routes/sponsorship.js and server.js: a POST of /sponsorship/request from its hooks, in
-- the order of their registration, to the reply. What Fastify's validator finds wrong with the body is
-- an argument; it runs before the hooks, and a hook that throws ends the request. So is one taken to
-- that replies, though the source does not return the reply to Fastify, which then may start the next
-- hook before the reply is out.
pub mod Requests
use arcpass.Prelude.{
  ℕ, ◌&&◌, Bool, true, false, Option, none, some, List, [], ◌∷◌, Text, codes, starts_with, text_eq,
  not, if◌then◌else◌,
}
use arcpass.Store.{SponsorshipRequest, RateLimit}
use arcpass.Api.Errors.{Result, ok, err}
use arcpass.Api.Actions.{Action, ApiStore, pure, then_run, ◌>>=◌, ◌>>◌}
use arcpass.Api.Responses.{Reply, Violation, Fault, thrown, other, handle_error}
use arcpass.Api.RateLimits.{RateConfig, get_client_ip, or_address, limit_ip, limit_wallet}
use arcpass.Api.Replay.{Request, replay_protection}
use arcpass.Api.Wallets.{lift, normalize_wallet_address}
use arcpass.Api.Sponsorship.{create_sponsorship_request}

-- What the handler and the hook of the content type read of the headers besides.
pub record Headers : Type 0 where
  pub content_type : Option Text
  pub user_agent : Option Text

-- The readings of the clock, each later than the one before, and the ids of new rows.
pub record Platform : Type 0 where
  pub replay_now : ℕ
  pub ip_checked : ℕ
  pub ip_now : ℕ
  pub ip_later : ℕ
  pub wallet_checked : ℕ
  pub wallet_now : ℕ
  pub wallet_later : ℕ
  pub created_now : ℕ
  pub new_limit_id : List RateLimit → ℕ
  pub new_request_id : List SponsorshipRequest → ℕ

-- The reply 201 with the new request, or an error.
pub data PostReply : Type 0 where
  created : SponsorshipRequest → PostReply
  refused : Reply → PostReply

-- apps/api/src/plugins/content-type-check.js.
abbrev pub is_json_type : Option Text → Bool
is_json_type none = false
is_json_type (some content_type) = starts_with content_type (codes "application/json")

abbrev pub wrong_content_type : Reply
wrong_content_type = record {
  status = 400;
  error = codes "Content-Type must be application/json";
  error_name = none;
  retry_after = none;
}

-- The hook replies where the method is POST and the type is not JSON.
unfoldable pub check_content_type : Request → Headers → Option Reply
check_content_type request headers =
    if text_eq request.method (codes "POST") && not (is_json_type headers.content_type)
    then some wrong_content_type
    else none

-- `request.headers['x-forwarded-for'] || request.ip`.
abbrev pub ip_address_of : Option Text → Text → Text
ip_address_of none address = address
ip_address_of (some forwarded) address = or_address forwarded address

-- The error handler takes what the hooks and the handler throw.
abbrev pub with_errors : Bool → Result PostReply × ApiStore → PostReply × ApiStore
with_errors is_production (ok reply, s) = (reply, s)
with_errors is_production (err e, s) = (refused (handle_error is_production (thrown e)), s)

module _ (config : RateConfig) (platform : Platform) where
  -- The hook of server.js, on a route other than /health.
  abbrev pub ip_hook : Request → Action (Unit {0})
  ip_hook request =
      limit_ip config platform.new_limit_id platform.ip_checked platform.ip_now platform.ip_later
        (get_client_ip request.forwarded request.address)

  -- `walletRateLimitHandler`.
  abbrev pub wallet_hook : Option Text → Action (Unit {0})
  wallet_hook none = pure tt
  wallet_hook (some []) = pure tt
  wallet_hook (some (c ∷ wallet_address)) =
      limit_wallet config platform.new_limit_id platform.wallet_checked platform.wallet_now
        platform.wallet_later (c ∷ wallet_address)

  abbrev pub create_handler : Request → Headers → Action PostReply
  create_handler request headers = do
    address ← lift (normalize_wallet_address request.wallet_address)
    row ←
        create_sponsorship_request platform.new_request_id platform.created_now address
          (some (ip_address_of request.forwarded request.address)) headers.user_agent
    pure (created row)

  abbrev pub limited_handler : Request → Headers → Action PostReply
  limited_handler request headers = do
    ip_hook request
    wallet_hook request.wallet_address
    create_handler request headers

  abbrev pub after_replay : Request → Headers → Option Reply → Action PostReply
  after_replay request headers (some reply) = pure (refused reply)
  after_replay request headers none = limited_handler request headers

  abbrev pub after_content_type : Request → Headers → Option Reply → Action PostReply
  after_content_type request headers (some reply) = pure (refused reply)
  after_content_type request headers none = do
    reply ← replay_protection platform.new_limit_id platform.replay_now request
    after_replay request headers reply

  abbrev pub after_validation :
      Bool → Request → Headers → Option (List Violation) → ApiStore → PostReply × ApiStore
  after_validation is_production request headers (some violations) s = (
    refused (
        handle_error is_production (
          other (record {
            status_code = some 400;
            code = some (codes "FST_ERR_VALIDATION");
            message = [];
            validation = some violations;
          }))),
    s,
  )
  after_validation is_production request headers none s =
      with_errors is_production
        (after_content_type request headers (check_content_type request headers) s)

  unfoldable pub post_request :
      Bool
      → (Request → Option (List Violation))
      → Request
      → Headers
      → ApiStore
      → PostReply × ApiStore
  post_request is_production validate request headers s =
      after_validation is_production request headers (validate request) s
