-- ===== src/Api/Sponsorship.antt =====
-- apps/api/src/services/sponsorship.service.js and lib/sponsorship-validation.js: who may ask for a
-- sponsorship, new requests, and guarded updates of their status.
pub mod Eligibility
pub mod Transitions
pub mod Exclusive
use arcpass.Prelude.{
  ℕ, ◌==◌, Bool, true, false, ◌&&◌, ◌||◌, Option, none, some, List, [], ◌∷◌, ◌++◌, Text, codes, any,
  leb, length, if◌then◌else◌,
}
use arcpass.SponsorshipTypes.{
  SponsorshipStatus, pending, approved, rejected, relayed, completed, sponsorship_eq,
}
use arcpass.Store.{Database, Wallet, SponsorshipRequest, RelayTransaction}
use arcpass.Store.Table.{find_first, find_unique, update_row, keep_rows}
use arcpass.Worker.Lifecycle.{
  RequestTimestamp, approved_at, rejected_at, completed_at, failed_at, find_request, write_request,
  set_timestamp,
}
use arcpass.Worker.Processor.{find_wallet}
use arcpass.Api.Errors.{
  Result, ok, err, validation_error, blocked_wallet_error, wallet_not_found_error,
  sponsorship_not_found_error, invalid_status_transition_error, database_error,
}
use arcpass.Api.Actions.{Action, ApiStore, pure, throw, gets, modify_db, or_throw, ◌>>=◌, ◌>>◌}
use arcpass.Api.Wallets.{find_address}

unfoldable pub validate_wallet_exists : Text → Action Wallet
validate_wallet_exists address = do
  found ← gets (λ s. find_address address s.db)
  or_throw found (wallet_not_found_error (codes "Wallet not found"))

unfoldable pub validate_wallet_not_blocked : Wallet → Action (Unit {0})
validate_wallet_not_blocked w =
    if w.is_blocked then throw (blocked_wallet_error (codes "Wallet is blocked")) else pure tt

abbrev pub is_in_progress : SponsorshipStatus → Bool
is_in_progress status =
    sponsorship_eq status pending || sponsorship_eq status approved || sponsorship_eq status relayed

abbrev pub is_active_of : ℕ → SponsorshipRequest → Bool
is_active_of wallet_id r = (r.wallet_id == wallet_id) && is_in_progress r.status

abbrev pub is_done_of : ℕ → SponsorshipRequest → Bool
is_done_of wallet_id r = (r.wallet_id == wallet_id) && sponsorship_eq r.status completed

abbrev pub throw_if_found : Option SponsorshipRequest → Text → Action (Unit {0})
throw_if_found none message = pure tt
throw_if_found (some r) message = throw (validation_error message)

unfoldable pub validate_no_pending_request : ℕ → Action (Unit {0})
validate_no_pending_request wallet_id = do
  active ← gets (λ s. find_first (is_active_of wallet_id) s.db.requests)
  throw_if_found active (codes "sponsorship already in progress")
  completed_request ← gets (λ s. find_first (is_done_of wallet_id) s.db.requests)
  throw_if_found completed_request (codes "wallet has already been sponsored")

-- `text || null`.
abbrev pub text_or_null : Option Text → Option Text
text_or_null none = none
text_or_null (some []) = none
text_or_null (some (c ∷ s)) = some (c ∷ s)

abbrev pub new_request : ℕ → ℕ → ℕ → Option Text → Option Text → SponsorshipRequest
new_request id wallet_id now ip_address user_agent = record {
  id = id;
  wallet_id = wallet_id;
  status = pending;
  eligibility_reason = none;
  requested_at = now;
  approved_at = none;
  rejected_at = none;
  completed_at = none;
  failed_at = none;
  ip_address = text_or_null ip_address;
  user_agent = text_or_null user_agent;
}

abbrev pub add_request : SponsorshipRequest → Database → Database
add_request r db = record db { requests = db.requests ++ r ∷ [] }

-- The checks of `createSponsorshipRequest`.
unfoldable pub find_eligible : Text → Action Wallet
find_eligible address = do
  wallet ← validate_wallet_exists address
  validate_wallet_not_blocked wallet
  validate_no_pending_request wallet.id
  pure wallet

-- Whether a text fits a column of that many characters; the header of a request has one character
-- for each code unit, and no space at its end.
abbrev pub fits_column : ℕ → Option Text → Bool
fits_column size none = true
fits_column size (some text) = leb (length text) size

-- The columns `ipAddress` and `userAgent` of SponsorshipRequest.
abbrev pub fits_row : SponsorshipRequest → Bool
fits_row r = fits_column 45 r.ip_address && fits_column 1024 r.user_agent

-- Prisma's code for a value that is too long for its column.
abbrev pub value_too_long : Text
value_too_long = codes "P2000"

abbrev pub insert_row : SponsorshipRequest → Action SponsorshipRequest
insert_row r =
    if fits_row r
    then (do modify_db (add_request r); pure r)
    else throw (database_error value_too_long)

-- Its `create`: the id and the time are the database's, which refuses a text that is too long.
module _ (new_request_id : List SponsorshipRequest → ℕ) (now : ℕ) where
  unfoldable pub insert_request : ℕ → Option Text → Option Text → Action SponsorshipRequest
  insert_request wallet_id ip_address user_agent = do
    r ← gets (λ s. new_request (new_request_id s.db.requests) wallet_id now ip_address user_agent)
    insert_row r

  unfoldable pub create_sponsorship_request :
      Text → Option Text → Option Text → Action SponsorshipRequest
  create_sponsorship_request address ip_address user_agent = do
    wallet ← find_eligible address
    insert_request wallet.id ip_address user_agent

-- A request with its wallet and its relay transactions.
pub record RequestDetail : Type 0 where
  pub request : SponsorshipRequest
  pub wallet : Option Wallet
  pub relay_transactions : List RelayTransaction

abbrev pub is_relay_for : ℕ → RelayTransaction → Bool
is_relay_for id relay = relay.sponsorship_request_id == id

-- `by_attempt` is the database's order by `relayAttempt`.
unfoldable pub get_sponsorship_request :
    (List RelayTransaction → List RelayTransaction) → ℕ → Action RequestDetail
get_sponsorship_request by_attempt id = do
  found ← gets (λ s. find_request id s.db)
  r ← or_throw found (sponsorship_not_found_error (codes "Sponsorship request not found"))
  gets λ s. record {
    request = r;
    wallet = find_wallet r.wallet_id s.db;
    relay_transactions = by_attempt (keep_rows (is_relay_for id) s.db.relays);
  }

-- `VALID_TRANSITIONS` of the service.
unfoldable pub valid_transitions : SponsorshipStatus → List SponsorshipStatus
valid_transitions pending = approved ∷ rejected ∷ []
valid_transitions approved = relayed ∷ []
valid_transitions relayed = completed ∷ SponsorshipStatus.failed ∷ []
valid_transitions rejected = []
valid_transitions completed = []
valid_transitions SponsorshipStatus.failed = []

-- `STATUS_TIMESTAMP_MAP`.
abbrev pub status_timestamp_map : SponsorshipStatus → Option RequestTimestamp
status_timestamp_map approved = some approved_at
status_timestamp_map rejected = some rejected_at
status_timestamp_map completed = some completed_at
status_timestamp_map SponsorshipStatus.failed = some failed_at
status_timestamp_map _ = none

abbrev pub status_name : SponsorshipStatus → Text
status_name pending = codes "pending"
status_name approved = codes "approved"
status_name rejected = codes "rejected"
status_name relayed = codes "relayed"
status_name completed = codes "completed"
status_name SponsorshipStatus.failed = codes "failed"

-- The `data` of the update.
abbrev pub status_update :
    SponsorshipStatus → ℕ → Option RequestTimestamp → SponsorshipRequest → SponsorshipRequest
status_update new now none r = record r { status = new }
status_update new now (some field) r = set_timestamp field now (record r { status = new })

abbrev pub update_status_of :
    ℕ → ℕ → SponsorshipStatus → SponsorshipRequest → Action SponsorshipRequest
update_status_of now id new r =
    if any (sponsorship_eq new) (valid_transitions r.status)
    then (do
      modify_db (write_request id (status_update new now (status_timestamp_map new)))
      pure (status_update new now (status_timestamp_map new) r))
    else throw (
        invalid_status_transition_error (
          codes "Cannot transition from '"
          ++ (status_name r.status ++ (codes "' to '" ++ (status_name new ++ codes "'")))))

unfoldable pub update_sponsorship_status : ℕ → ℕ → SponsorshipStatus → Action SponsorshipRequest
unfolding valid_transitions
update_sponsorship_status now id new = do
  found ← gets (λ s. find_request id s.db)
  r ← or_throw found (sponsorship_not_found_error (codes "Sponsorship request not found"))
  update_status_of now id new r
