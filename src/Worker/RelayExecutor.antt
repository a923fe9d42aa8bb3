-- ===== src/Worker/RelayExecutor.antt =====
-- apps/worker/src/relay-executor.ts: the relay of one request, with a deadline. Reading the
-- request and running the timer are the platform's: how they turn out is an argument.
pub mod Results
use arcpass.Prelude.{ℕ, Bool, true, false, Option, none, some, Text, codes, ◌++◌, if◌then◌else◌}
use arcpass.Store.{Database, SponsorshipRequest, Wallet}
use arcpass.Worker.Tx.{RelayCall}
use arcpass.Worker.Relay.{RelayResult, Executor}
use arcpass.Worker.Lifecycle.{find_request}
use arcpass.Worker.Processor.{find_wallet}
use arcpass.Worker.ContractClient.{Chain, ContractRelayResult, execute_contract_relay}

-- The module's state: what `initializeRelayExecutor` has stored, and the contract client's.
pub record Clients : Type 0 where
  pub initialized : Bool
  pub sponsorship_amount : ℕ
  pub contract_client : Option (Chain × Text)

-- How one call turns out: the message of the error that the query throws, if it does; whether the
-- timer fires before the contract relay has settled; and the printed identifier of a request.
pub record Weather : Type 0 where
  pub query_error : RelayCall → Option Text
  pub deadline_passes : RelayCall → Bool
  pub print_id : ℕ → Text

abbrev pub early_failure : Text → RelayResult
early_failure reason = record {
  success = false;
  transaction_hash = none;
  failure_reason = some reason;
  block_number = none;
  explorer_url = none;
  event_data = none;
}

-- The results of the `catch`, where the optional fields are `null`.
abbrev pub caught_failure : Text → RelayResult
caught_failure reason = record {
  success = false;
  transaction_hash = none;
  failure_reason = some reason;
  block_number = some none;
  explorer_url = some none;
  event_data = some none;
}

-- Step 4.
abbrev pub relay_result : ContractRelayResult → RelayResult
relay_result r = record {
  success = r.success;
  transaction_hash = r.transaction_hash;
  failure_reason = r.failure_reason;
  block_number = some r.block_number;
  explorer_url = some r.explorer_url;
  event_data = some r.event_data;
}

-- `executeContractRelayWithAbort`, and the `catch` for its `AbortError`: the contract relay goes
-- on after the deadline, but its result is no longer looked at.
unfoldable pub relay_with_deadline : Clients → Bool → Text → RelayResult
relay_with_deadline clients deadline_passes wallet_address =
    if deadline_passes
    then caught_failure (codes "Transaction confirmation timeout")
    else relay_result
        (execute_contract_relay clients.contract_client wallet_address clients.sponsorship_amount)

-- `findUnique` with the wallet of the request; a request without its wallet cannot be stored.
abbrev pub wallet_of : Database → Option SponsorshipRequest → Option Wallet
wallet_of db none = none
wallet_of db (some request) = find_wallet request.wallet_id db

abbrev pub relay_wallet : Clients → Weather → RelayCall → Option Wallet → RelayResult
relay_wallet clients weather call none =
    early_failure (codes "Sponsorship request not found: " ++ weather.print_id call.request_id)
relay_wallet clients weather call (some wallet) =
    relay_with_deadline clients (weather.deadline_passes call) wallet.wallet_address

abbrev pub after_query : Clients → Weather → Database → RelayCall → Option Text → RelayResult
after_query clients weather db call (some message) = caught_failure message
after_query clients weather db call none =
    relay_wallet clients weather call (wallet_of db (find_request call.request_id db))

-- `executeRelay`.
unfoldable pub execute_relay : Clients → Weather → Database → Executor
execute_relay clients weather db call =
    if clients.initialized
    then after_query clients weather db call (weather.query_error call)
    else early_failure
        (codes "Relay executor not initialized — call initializeRelayExecutor() first")

-- `initializeRelayExecutor`; of the configuration only the amount enters a result.
unfoldable pub initialize_relay_executor : ℕ → Clients → Clients
initialize_relay_executor amount clients = record clients {
  initialized = true;
  sponsorship_amount = amount;
}
