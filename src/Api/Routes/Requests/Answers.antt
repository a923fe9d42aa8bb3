-- ===== src/Api/Routes/Requests/Answers.antt =====
-- The ways in which a POST of /sponsorship/request may end, with the conditions of each.
use arcpass.Prelude.{◌≤◌, ◌≡◌, true, false, Option, none, some, List, [], Text, length}
use arcpass.Store.{Database, Wallet, SponsorshipRequest}
use arcpass.Api.Errors.{ApiError, ok, err}
use arcpass.Api.Actions.{ApiStore}
use arcpass.Api.Responses.{Reply, Violation}
use arcpass.Api.RateLimits.{RateConfig, get_client_ip}
use arcpass.Api.Replay.{Request, replay_protection, composite_key}
use arcpass.Api.Wallets.{normalize_wallet_address, find_address}
use arcpass.Api.Sponsorship.{add_request, fits_row}
use arcpass.Api.Sponsorship.Eligibility.{IsEligible, IsTaken, row_for}
use arcpass.Api.Routes.{
  Headers, Platform, PostReply, created, refused, is_json_type, ip_address_of, ip_hook, wallet_hook,
}

abbrev pub or_empty : Option Text → Text
or_empty none = []
or_empty (some text) = text

-- The identifiers that the hooks write fit the column `identifier` of RateLimit.
abbrev pub FitsIdentifier : Request → Type 0
FitsIdentifier request =
    length (
      composite_key (or_empty request.wallet_address)
        (get_client_ip request.forwarded request.address))
    ≤ 255

module _ (config : RateConfig) (platform : Platform) (validate : Request → Option (List Violation))
    (request : Request) (headers : Headers) (s : ApiStore) where
  -- The row that the handler adds for a wallet.
  abbrev pub row_of : Database → Text → Wallet → SponsorshipRequest
  row_of d address w =
      row_for platform.new_request_id platform.created_now address
        (some (ip_address_of request.forwarded request.address)) headers.user_agent d w

  -- All three hooks that look at the table of limits let the request through.
  pub record HooksPass (v : ApiStore) : Type 0 where
    pub t : ApiStore
    pub u : ApiStore
    pub replay_passed :
        replay_protection platform.new_limit_id platform.replay_now request s ≡ (ok none, t)
    pub ip_passed : ip_hook config platform request t ≡ (ok tt, u)
    pub wallet_passed : wallet_hook config platform request.wallet_address u ≡ (ok tt, v)

  -- Why a request is refused, with the status that says so.
  pub data IsRefused (d : Database) (reply : Reply) : Type 0 where
    invalid :
        (violations : List Violation)
        → validate request ≡ some violations
        → reply.status ≡ 400
        → IsRefused d reply
    no_json : is_json_type headers.content_type ≡ false → reply.status ≡ 400 → IsRefused d reply
    repeated :
        (t : ApiStore)
        → replay_protection platform.new_limit_id platform.replay_now request s
          ≡ (ok (some reply), t)
        → reply.status ≡ 429
        → IsRefused d reply
    ip_limited :
        (t u : ApiStore) (e : ApiError)
        → replay_protection platform.new_limit_id platform.replay_now request s ≡ (ok none, t)
        → ip_hook config platform request t ≡ (err e, u)
        → reply.status ≡ 429
        → IsRefused d reply
    wallet_limited :
        (t u v : ApiStore) (e : ApiError)
        → replay_protection platform.new_limit_id platform.replay_now request s ≡ (ok none, t)
        → ip_hook config platform request t ≡ (ok tt, u)
        → wallet_hook config platform request.wallet_address u ≡ (err e, v)
        → reply.status ≡ 429
        → IsRefused d reply
    no_address :
        (e : ApiError)
        → normalize_wallet_address request.wallet_address ≡ err e
        → reply.status ≡ 400
        → IsRefused d reply
    unknown :
        (address : Text)
        → normalize_wallet_address request.wallet_address ≡ ok address
        → find_address address d ≡ none
        → reply.status ≡ 404
        → IsRefused d reply
    blocked :
        (address : Text) (w : Wallet)
        → normalize_wallet_address request.wallet_address ≡ ok address
        → find_address address d ≡ some w
        → w.is_blocked ≡ true
        → reply.status ≡ 403
        → IsRefused d reply
    taken :
        (address : Text)
        → normalize_wallet_address request.wallet_address ≡ ok address
        → IsTaken address d
        → reply.status ≡ 400
        → IsRefused d reply
    too_long :
        (address : Text) (w : Wallet)
        → normalize_wallet_address request.wallet_address ≡ ok address
        → IsEligible address d w
        → fits_row (row_of d address w) ≡ false
        → reply.status ≡ 500
        → IsRefused d reply

  -- The two ways in which a request may end, on a database.
  abbrev pub Answered : Database → PostReply × ApiStore → Type 0
  Answered d (created row, v) =
      (address : Text) × (w : Wallet) × (validate request ≡ none)
      × (is_json_type headers.content_type ≡ true)
      × ((limits : ApiStore) × HooksPass limits)
      × (normalize_wallet_address request.wallet_address ≡ ok address)
      × IsEligible address d w
      × (fits_row (row_of d address w) ≡ true)
      × (row ≡ row_of d address w)
      × (v.db ≡ add_request row d)
  Answered d (refused reply, v) = (v.db ≡ d) × IsRefused d reply
