-- ===== src/Worker/Processor.antt =====
-- apps/worker/src/processor.ts: one sponsorship request is taken through its lifecycle within a
-- database transaction. The log lines are left out; `getRetryCount` is read for one of them too.
mod Rows
pub mod Calls
pub mod Accounting
pub mod Settling
pub mod Results
pub mod Progress
pub mod Flights
pub mod Liveness
pub mod Limits
pub mod Traces
pub mod Safety
unfoldable pub use Rows.*
use arcpass.Prelude.{
  ℕ, ◌+◌, Bool, true, false, ◌&&◌, ◌||◌, Option, none, some, [], ◌∷◌, ◌++◌, Text, codes, leb,
  if◌then◌else◌, starts_with,
}
use arcpass.SponsorshipTypes.{
  SponsorshipStatus, pending, approved, rejected, relayed, completed, sponsorship_eq, RelayStatus,
  submitted, confirmed, relay_eq,
}
use arcpass.Store.{Database, Wallet, SponsorshipRequest, RelayTransaction}
use arcpass.Store.Table.{find_unique, update_row, find_first}
use arcpass.Worker.Tx.{
  Tx, State, Host, RelayCall, Result, ok, err, ProcessError, transition_failed, relay_update_failed,
  record_not_found, aborted, Branch, plain, already_sponsored, pure, throw, gets, modify, ◌>>=◌,
  ◌>>◌,
}
use arcpass.Worker.Relay.{RelayResult, Executor}
use arcpass.Worker.Lifecycle.{
  TransitionResult, success, failure, transition_sponsorship_status, create_relay_transaction,
  CreatedRelay, update_relay_transaction, RelayData, no_data, get_retry_count, find_request,
  write_request, is_relay_of, default_max_relay_attempts,
}

module _ (host : Host) (id : ℕ) where
  -- The status of the request is changed, or the transaction is given up.
  unfoldable pub must_transition : SponsorshipStatus → Branch → Tx (Unit {0})
  must_transition status branch = do
    result ← transition_sponsorship_status host id status
    expect_transition status branch result

  unfoldable pub must_update : ℕ → RelayStatus → Branch → RelayData → Tx (Unit {0})
  must_update relay_id status branch relay_data = do
    result ← update_relay_transaction host relay_id status relay_data
    expect_relay status branch result

  -- Step 3, the rejection: the result of the transition is not looked at.
  unfoldable pub reject_blocked : Tx ProcessResult
  reject_blocked = do
    ignored ← transition_sponsorship_status host id rejected
    update_request id explain_blocked
    pure (done id rejected)

  -- Step 4, where a relay transaction is submitted or confirmed already.
  unfoldable pub finish_active : SponsorshipStatus → ℕ → RelayTransaction → Tx ProcessResult
  finish_active status wallet_id relay =
      if relay_eq relay.status confirmed
      then (do
        must_transition completed plain
        increment_sponsorship_count wallet_id
        pure (done id completed))
      else pure (skipped id status (active_relay relay.status))

  -- Step 5, the limit.
  unfoldable pub give_up : Tx ProcessResult
  give_up = do
    must_transition SponsorshipStatus.failed plain
    pure (done id SponsorshipStatus.failed)

  -- Step 6: from `pending` through `approved` to `relayed`; a stale request is relayed already.
  unfoldable pub prepare_pending : Tx CreatedRelay
  prepare_pending = do
    must_transition approved plain
    relay ← create_relay_transaction host id default_max_relay_attempts
    must_transition relayed plain
    pure relay

  abbrev pub prepare : SponsorshipStatus → Tx CreatedRelay
  prepare pending = prepare_pending
  prepare status = create_relay_transaction host id default_max_relay_attempts

  -- Step 11, by the relay's result.
  unfoldable pub settle_success : ℕ → ℕ → Branch → RelayData → Tx ProcessResult
  settle_success wallet_id relay_id branch relay_data = do
    must_update relay_id confirmed branch relay_data
    must_transition completed branch
    increment_sponsorship_count wallet_id
    pure (done id completed)

  unfoldable pub settle_failure : ℕ → RelayData → Tx ProcessResult
  settle_failure relay_id relay_data = do
    must_update relay_id RelayStatus.failed plain relay_data
    must_transition SponsorshipStatus.failed plain
    pure (done id SponsorshipStatus.failed)

  unfoldable pub settle : ℕ → ℕ → RelayResult → Tx ProcessResult
  settle wallet_id relay_id result =
      if result.success
      then settle_success wallet_id relay_id plain (confirmed_data result)
      else if is_already_sponsored_error result.failure_reason
      then settle_success wallet_id relay_id already_sponsored (already_data result)
      else settle_failure relay_id (failed_data result)

  module _ (execute : Executor) where
    -- Steps 6 to 11.
    unfoldable pub run_relay : SponsorshipStatus → ℕ → Tx ProcessResult
    run_relay status wallet_id = do
      relay ← prepare status
      must_update relay.id submitted plain no_data
      result ←
          invoke execute
            (record { request_id = id; relay_id = relay.id; attempt = relay.relay_attempt })
      settle wallet_id relay.id result

    -- Step 5.
    unfoldable pub check_retries : ℕ → SponsorshipStatus → ℕ → Tx ProcessResult
    check_retries max_retries status wallet_id = do
      retries ← get_retry_count id
      if leb max_retries retries then give_up else run_relay status wallet_id

    -- Step 4.
    abbrev pub check_active : ℕ → SponsorshipStatus → ℕ → Option RelayTransaction → Tx ProcessResult
    check_active max_retries status wallet_id none = check_retries max_retries status wallet_id
    check_active max_retries status wallet_id (some relay) = finish_active status wallet_id relay

    -- Step 3.
    unfoldable pub check_wallet : ℕ → SponsorshipStatus → ℕ → Tx ProcessResult
    check_wallet max_retries status wallet_id = do
      wallet ← gets (find_wallet wallet_id)
      if sponsorship_eq status pending && is_blocked wallet then reject_blocked else (do
        active ← gets (find_active_relay id)
        check_active max_retries status wallet_id active)

    unfoldable pub process_row : ℕ → Option SponsorshipRequest → Tx ProcessResult
    process_row max_retries none = pure (skipped id pending not_found_or_locked)
    process_row max_retries (some row) =
        if is_processable row.status
        then check_wallet max_retries row.status row.wallet_id
        else pure (skipped id row.status (in_status row.status))

    -- The body of the transaction.
    unfoldable pub process_body : ℕ → (ℕ → Bool) → Tx ProcessResult
    process_body max_retries locked = do
      row ← gets (select_for_update locked id)
      process_row max_retries row

abbrev pub failed_result : ℕ → ProcessError → ProcessResult
failed_result id e = record {
  request_id = id;
  success = false;
  final_status = pending;
  error = some (thrown e);
}

-- The end of the transaction: a throw, and a commit that the database refuses, leave the rows as
-- they were. The clock and the executor are not turned back.
abbrev pub close_transaction :
    ℕ → Bool → Database → Result ProcessResult × State → ProcessResult × State
close_transaction id true db (ok result, s) = (result, s)
close_transaction id false db (ok result, s) = (failed_result id aborted, record s { db = db })
close_transaction id commits db (err e, s) = (failed_result id e, record s { db = db })

-- `processRequest`; the executor reads the database outside the transaction.
unfoldable pub process_request :
    Host
    → (Database → Executor)
    → (locked : ℕ → Bool) (commits : Bool) (max_retries id : ℕ) → State
    → ProcessResult × State
process_request host execute locked commits max_retries id s =
    close_transaction id commits s.db (process_body host id (execute s.db) max_retries locked s)
