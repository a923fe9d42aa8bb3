-- ===== src/Worker/RelayExecutor/Results.antt =====
-- What the results of a relay always tell the processor.
use arcpass.Prelude.{◌≡◌, ◌⊎◌, true, false, Option, none, some, Text}
use arcpass.Store.{Database, Wallet}
use arcpass.Worker.Tx.{RelayCall}
use arcpass.Worker.Relay.{RelayResult}
use arcpass.Worker.Lifecycle.{find_request}
use arcpass.Worker.ContractClient.{ContractRelayResult}
use arcpass.Worker.ContractClient.Results.{IsConfirmed, IsAccepted}
use arcpass.Worker.RelayExecutor.{Clients, Weather, relay_result, wallet_of}

-- A successful relay went to the wallet of the request, for the configured amount, was confirmed
-- before the deadline, and is handed on as it was.
pub record IsRelayed (clients : Clients) (weather : Weather) (db : Database) (call : RelayCall)
    (r : RelayResult) : Type 0 where
  pub wallet : Wallet
  pub contract : ContractRelayResult
  pub ready : clients.initialized ≡ true
  pub owned : wallet_of db (find_request call.request_id db) ≡ some wallet
  pub in_time : weather.deadline_passes call ≡ false
  pub confirmed :
      IsConfirmed clients.contract_client wallet.wallet_address clients.sponsorship_amount contract
  pub is : r ≡ relay_result contract

-- What it takes for a relay to succeed.
pub record IsRelayable (clients : Clients) (weather : Weather) (db : Database) (call : RelayCall)
    : Type 0 where
  pub wallet : Wallet
  pub ready : clients.initialized ≡ true
  pub read : weather.query_error call ≡ none
  pub owned : wallet_of db (find_request call.request_id db) ≡ some wallet
  pub in_time : weather.deadline_passes call ≡ false
  pub accepted : IsAccepted clients.contract_client wallet.wallet_address clients.sponsorship_amount

-- A failed relay could not succeed, and gives a reason.
pub record IsFailure (clients : Clients) (weather : Weather) (db : Database) (call : RelayCall)
    (r : RelayResult) : Type 0 where
  pub never : ¬ IsRelayable clients weather db call
  pub reason : Text
  pub failed : r.success ≡ false
  pub given : r.failure_reason ≡ some reason

abbrev pub Relayed : Clients → Weather → Database → RelayCall → RelayResult → Type 0
Relayed clients weather db call r =
    IsRelayed clients weather db call r ⊎ IsFailure clients weather db call r

-- The chain has accepted the transfer to a wallet.
abbrev IsAcceptedFor : Clients → Option Wallet → Type 0
IsAcceptedFor clients none = ⊥
IsAcceptedFor clients (some w) =
    IsAccepted clients.contract_client w.wallet_address clients.sponsorship_amount
