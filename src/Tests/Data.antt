-- ===== src/Tests/Data.antt =====
-- A small database: a wallet with a completed and a pending request, and one with none.
use arcpass.Prelude.{ℕ, ◌+◌, Bool, true, false, none, some, List, [], ◌∷◌, codes, length}
use arcpass.SponsorshipTypes.{SponsorshipStatus, completed, RelayStatus}
use arcpass.Store.{Wallet, SponsorshipRequest, RelayTransaction, Database}
use arcpass.Worker.Tx.{State, Host}
use arcpass.Worker.Relay.{Executor}
use arcpass.Worker.Lifecycle.{new_relay}

abbrev pub wallet : ℕ → ℕ → Wallet
wallet id count = record {
  id = id;
  wallet_address = codes "0xabc";
  first_seen_at = 0;
  last_seen_at = 0;
  sponsorship_count = count;
  is_blocked = false;
  block_reason = none;
}

abbrev pub request : ℕ → ℕ → SponsorshipStatus → SponsorshipRequest
request id wallet_id status = record {
  id = id;
  wallet_id = wallet_id;
  status = status;
  eligibility_reason = none;
  requested_at = id;
  approved_at = none;
  rejected_at = none;
  completed_at = none;
  failed_at = none;
  ip_address = none;
  user_agent = none;
}

abbrev pub old_request : SponsorshipRequest
old_request = record (request 1 7 completed) { approved_at = some 1; completed_at = some 2 }

abbrev pub failed_relay_row : ℕ → RelayTransaction
failed_relay_row id = record (new_relay id 2 1) { status = RelayStatus.failed }

abbrev pub database : SponsorshipStatus → List RelayTransaction → Database
database status relays = record {
  wallets = wallet 7 1 ∷ wallet 8 0 ∷ [];
  requests = old_request ∷ request 2 7 status ∷ [];
  relays = relays;
}

abbrev pub state : SponsorshipStatus → List RelayTransaction → State
state status relays = record { db = database status relays; reads = 0; calls = [] }

abbrev pub host : Host
host = record { clock = λ n. n + 50; new_relay_id = λ rs. length rs + 100 }

abbrev pub confirming : Database → Executor
confirming db call = record {
  success = true;
  transaction_hash = some (codes "0x1");
  failure_reason = none;
  block_number = some (some 9);
  explorer_url = none;
  event_data = none;
}

abbrev pub refusing : Database → Executor
refusing db call = record {
  success = false;
  transaction_hash = none;
  failure_reason = some (codes "Nonce error: nonce too low");
  block_number = none;
  explorer_url = none;
  event_data = none;
}

abbrev pub unlocked : ℕ → Bool
unlocked id = false

abbrev pub three_failed : List RelayTransaction
three_failed = failed_relay_row 100 ∷ failed_relay_row 101 ∷ failed_relay_row 102 ∷ []
