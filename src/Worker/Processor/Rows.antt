-- ===== src/Worker/Processor/Rows.antt =====
-- apps/worker/src/processor.ts: the results, and the single reads and writes of processRequest.
use arcpass.Prelude.{
  ℕ, ◌+◌, Bool, true, false, ◌&&◌, ◌||◌, Option, none, some, [], ◌∷◌, ◌++◌, Text, codes,
  if◌then◌else◌, starts_with,
}
use arcpass.SponsorshipTypes.{
  SponsorshipStatus, pending, relayed, sponsorship_eq, RelayStatus, submitted, confirmed, relay_eq,
}
use arcpass.Store.{Database, Wallet, SponsorshipRequest, RelayTransaction}
use arcpass.Store.Table.{find_unique, update_row, find_first}
use arcpass.Worker.Tx.{
  Tx, RelayCall, ok, ProcessError, transition_failed, relay_update_failed, record_not_found, Branch,
  pure, throw, gets, modify, ◌>>=◌,
}
use arcpass.Worker.Relay.{RelayResult, Executor}
use arcpass.Worker.Lifecycle.{
  TransitionResult, success, failure, RelayData, no_data, find_request, write_request, is_relay_of,
}

-- The `error` of a `ProcessResult`.
pub data Note : Type 0 where
  not_found_or_locked : Note
  in_status : SponsorshipStatus → Note
  active_relay : RelayStatus → Note
  thrown : ProcessError → Note

pub record ProcessResult : Type 0 where
  pub request_id : ℕ
  pub success : Bool
  pub final_status : SponsorshipStatus
  pub error : Option Note

abbrev pub done : ℕ → SponsorshipStatus → ProcessResult
done id status = record { request_id = id; success = true; final_status = status; error = none }

abbrev pub skipped : ℕ → SponsorshipStatus → Note → ProcessResult
skipped id status note = record {
  request_id = id;
  success = true;
  final_status = status;
  error = some note;
}

-- `isAlreadySponsoredError`.
unfoldable pub is_already_sponsored_error : Option Text → Bool
is_already_sponsored_error none = false
is_already_sponsored_error (some reason) = starts_with reason (codes "AlreadySponsored")

-- `SELECT … WHERE id = … FOR UPDATE SKIP LOCKED`: no row if another transaction has it locked.
unfoldable pub select_for_update : (ℕ → Bool) → ℕ → Database → Option SponsorshipRequest
select_for_update locked id db = if locked id then none else find_request id db

abbrev pub is_processable : SponsorshipStatus → Bool
is_processable status = sponsorship_eq status pending || sponsorship_eq status relayed

abbrev pub find_wallet : ℕ → Database → Option Wallet
find_wallet id db = find_unique (λ w. w.id) id db.wallets

-- `wallet?.isBlocked`.
abbrev pub is_blocked : Option Wallet → Bool
is_blocked none = false
is_blocked (some wallet) = wallet.is_blocked

-- `status: { in: ['submitted', 'confirmed'] }`.
abbrev pub is_active_relay_of : ℕ → RelayTransaction → Bool
is_active_relay_of id relay =
    is_relay_of id relay && (relay_eq relay.status submitted || relay_eq relay.status confirmed)

abbrev pub find_active_relay : ℕ → Database → Option RelayTransaction
find_active_relay id db = find_first (is_active_relay_of id) db.relays

abbrev pub write_wallet : ℕ → (Wallet → Wallet) → Database → Database
write_wallet id f db = record db { wallets = update_row (λ w. w.id) id f db.wallets }

-- `wallet.update({ data: { sponsorshipCount: { increment: 1 } } })`, which throws without a row.
abbrev pub increment_count : Wallet → Wallet
increment_count w = record w { sponsorship_count = w.sponsorship_count + 1 }

abbrev pub increment_found : ℕ → Option Wallet → Tx (Unit {0})
increment_found wallet_id none = throw record_not_found
increment_found wallet_id (some w) = modify (write_wallet wallet_id increment_count)

unfoldable pub increment_sponsorship_count : ℕ → Tx (Unit {0})
increment_sponsorship_count wallet_id = do
  wallet ← gets (find_wallet wallet_id)
  increment_found wallet_id wallet

-- `if (!result.success) throw new Error(…)`.
abbrev pub expect_transition : SponsorshipStatus → Branch → TransitionResult → Tx (Unit {0})
expect_transition status branch success = pure tt
expect_transition status branch (failure e) = throw (transition_failed status branch e)

abbrev pub expect_relay : RelayStatus → Branch → TransitionResult → Tx (Unit {0})
expect_relay status branch success = pure tt
expect_relay status branch (failure e) = throw (relay_update_failed status branch e)

abbrev pub explain_blocked : SponsorshipRequest → SponsorshipRequest
explain_blocked r = record r { eligibility_reason = some (codes "Wallet is blocked") }

-- `sponsorshipRequest.update`, which throws without a row.
abbrev pub update_request_found :
    ℕ → (SponsorshipRequest → SponsorshipRequest) → Option SponsorshipRequest → Tx (Unit {0})
update_request_found id f none = throw record_not_found
update_request_found id f (some r) = modify (write_request id f)

abbrev pub update_request : ℕ → (SponsorshipRequest → SponsorshipRequest) → Tx (Unit {0})
update_request id f = do request ← gets (find_request id); update_request_found id f request

-- `x ?? null` in the data of an update.
abbrev pub or_null : {A : Type 0} → Option (Option A) → Option (Option A)
or_null none = some none
or_null (some value) = some value

abbrev pub confirmed_data : RelayResult → RelayData
confirmed_data result = record {
  transaction_hash = result.transaction_hash;
  failure_reason = none;
  block_number = or_null result.block_number;
  event_name = some (some (codes "SponsorshipGranted"));
  event_data = or_null result.event_data;
  explorer_url = or_null result.explorer_url;
}

abbrev pub already_data : RelayResult → RelayData
already_data result = record {
  transaction_hash = result.transaction_hash;
  failure_reason = none;
  block_number = or_null result.block_number;
  event_name = none;
  event_data = none;
  explorer_url = or_null result.explorer_url;
}

abbrev pub failed_data : RelayResult → RelayData
failed_data result = record no_data { failure_reason = result.failure_reason }

-- The call of the executor, noted in the state.
unfoldable pub invoke : Executor → RelayCall → Tx RelayResult
invoke execute call s = (ok (execute call), record s { calls = s.calls ++ call ∷ [] })
