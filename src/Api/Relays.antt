-- ===== src/Api/Relays.antt =====
-- apps/api/src/services/relay.service.js: attempts of relay transactions, and their updates and lookups.
pub mod Attempts
use arcpass.Prelude.{
  ℕ, ◌+◌, ◌==◌, Bool, true, false, Option, none, some, List, [], ◌∷◌, ◌++◌, Text, codes, text_eq,
  if◌then◌else◌,
}
use Prim.Native.Nat.{max}
use arcpass.SponsorshipTypes.{RelayStatus, queued, submitted, confirmed}
use arcpass.Store.{Database, SponsorshipRequest, RelayTransaction}
use arcpass.Store.Table.{find_first, find_unique, update_row, keep_rows}
use arcpass.Worker.Lifecycle.{new_relay, find_request}
use arcpass.Api.Errors.{Result, sponsorship_not_found_error}
use arcpass.Api.Actions.{Action, ApiStore, pure, gets, modify_db, or_throw, ◌>>=◌, ◌>>◌}
use arcpass.Api.Sponsorship.{is_relay_for, text_or_null}

-- The highest attempt of a request: the first row by `relayAttempt`, descending.
abbrev pub highest : Option ℕ → ℕ → Option ℕ
highest none attempt = some attempt
highest (some other) attempt = some (max attempt other)

abbrev pub last_attempt : ℕ → List RelayTransaction → Option ℕ
last_attempt id [] = none
last_attempt id (r ∷ rs) =
    if is_relay_for id r then highest (last_attempt id rs) r.relay_attempt else last_attempt id rs

abbrev pub next_attempt : Option ℕ → ℕ
next_attempt none = 1
next_attempt (some last) = last + 1

abbrev pub next_relay : (List RelayTransaction → ℕ) → ℕ → List RelayTransaction → RelayTransaction
next_relay new_relay_id id relays =
    new_relay (new_relay_id relays) id (next_attempt (last_attempt id relays))

unfoldable pub add_attempt : (List RelayTransaction → ℕ) → ℕ → Action RelayTransaction
add_attempt new_relay_id id = do
  relay ← gets (λ s. next_relay new_relay_id id s.db.relays)
  modify_db (λ db. record db { relays = db.relays ++ relay ∷ [] })
  pure relay

abbrev pub set_if_given : Option Text → Option Text → Option Text
set_if_given none old = old
set_if_given (some []) old = old
set_if_given (some (c ∷ s)) old = some (c ∷ s)

abbrev pub stamp_relay : RelayStatus → ℕ → RelayTransaction → RelayTransaction
stamp_relay submitted now r = record r { submitted_at = some now }
stamp_relay confirmed now r = record r { confirmed_at = some now }
stamp_relay RelayStatus.failed now r = record r { failed_at = some now }
stamp_relay queued now r = r

-- The update, which asks nothing of the status before.
unfoldable pub relay_update :
    ℕ → RelayStatus → Option Text → Option Text → RelayTransaction → RelayTransaction
relay_update now status transaction_hash failure_reason r = stamp_relay status now (record r {
  status = status;
  transaction_hash = set_if_given transaction_hash r.transaction_hash;
  failure_reason = set_if_given failure_reason r.failure_reason;
})

-- A row that is not there makes the update fail; what it throws is the database's.
unfoldable pub write_relay_update :
    ℕ → ℕ → RelayStatus → Option Text → Option Text → List RelayTransaction → List RelayTransaction
write_relay_update now id status transaction_hash failure_reason relays =
    update_row (λ r. r.id) id (relay_update now status transaction_hash failure_reason) relays

unfoldable pub get_relay_transactions :
    (List RelayTransaction → List RelayTransaction) → ℕ → Action (List RelayTransaction)
get_relay_transactions by_attempt id =
    gets (λ s. by_attempt (keep_rows (is_relay_for id) s.db.relays))

unfoldable pub get_relay_by_id : ℕ → Action (Option RelayTransaction)
get_relay_by_id id = gets (λ s. find_unique (λ r. r.id) id s.db.relays)

abbrev pub has_hash : Text → RelayTransaction → Bool
has_hash hash r = is_hash r.transaction_hash
  where
    is_hash : Option Text → Bool
    is_hash none = false
    is_hash (some other) = text_eq other hash

-- `{ sponsorshipRequest, relayTransaction }`.
pub record RelayDetail : Type 0 where
  pub sponsorship_request : Option SponsorshipRequest
  pub relay_transaction : RelayTransaction

unfoldable pub get_relay_transaction_by_hash : Text → Action RelayDetail
get_relay_transaction_by_hash hash = do
  found ← gets (λ s. find_first (has_hash hash) s.db.relays)
  relay ← or_throw found (sponsorship_not_found_error (codes "Transaction not found"))
  gets λ s. record {
    sponsorship_request = find_request relay.sponsorship_request_id s.db;
    relay_transaction = relay;
  }
