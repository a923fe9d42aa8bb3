-- ===== src/Worker/ContractClient/Results.antt =====
-- What a `ContractRelayResult` always tells.
use arcpass.Prelude.{
  ℕ, ◌≤◌, ◌≡◌, refl, true, Option, none, some, ◌++◌, Text, length, arith, ◌⊎◌, inl, inr, Bool-cases,
}
use arcpass.Worker.ContractClient.{
  Attempt, returned, threw, Thrown, Receipt, Chain, ContractRelayResult, failed_relay,
  relay_outcome, relay_error, await_receipt, await_broadcast, execute_contract_relay,
  handle_execution_error, truncate_reason, decode_revert_reason, extract_sponsorship_granted_event,
}
use arcpass.Worker.ContractClient.Reasons.{length-truncate_reason}

-- A successful relay names a broadcast transaction whose receipt says so, its block, its page in
-- the explorer and the receipt's event.
pub record IsConfirmed (client : Option (Chain × Text)) (recipient : Text) (amount : ℕ)
    (r : ContractRelayResult) : Type 0 where
  pub chain : Chain
  pub base : Text
  pub hash : Text
  pub receipt : Receipt
  pub configured : client ≡ some (chain, base)
  pub broadcast : chain.write_contract recipient amount ≡ returned hash
  pub awaited : chain.wait_for_receipt hash ≡ returned receipt
  pub accepted : receipt.succeeded ≡ true
  pub is : r ≡ record {
    success = true;
    transaction_hash = some hash;
    block_number = some receipt.block_number;
    failure_reason = none;
    explorer_url = some (base ++ hash);
    event_data = extract_sponsorship_granted_event receipt.logs;
  }

-- The chain has accepted the transfer: it returned the hash of a transaction, and for this hash a
-- receipt with the status `success`.
pub record IsAcceptedBy (chain : Chain) (recipient : Text) (amount : ℕ) : Type 0 where
  pub hash : Text
  pub receipt : Receipt
  pub broadcast : chain.write_contract recipient amount ≡ returned hash
  pub awaited : chain.wait_for_receipt hash ≡ returned receipt
  pub accepted : receipt.succeeded ≡ true

abbrev pub IsAccepted : Option (Chain × Text) → Text → ℕ → Type 0
IsAccepted none recipient amount = ⊥
IsAccepted (some (chain, base)) recipient amount = IsAcceptedBy chain recipient amount

-- A failed relay was not accepted; it gives a reason that fits its column, and no event or page in the
-- explorer.
pub record IsRefused (client : Option (Chain × Text)) (recipient : Text) (amount : ℕ)
    (r : ContractRelayResult) : Type 0 where
  pub never : ¬ IsAccepted client recipient amount
  pub reason : Text
  pub hash : Option Text
  pub block : Option ℕ
  pub short : length reason ≤ 1000
  pub is : r ≡ failed_relay hash block reason

abbrev pub Explained : Option (Chain × Text) → Text → ℕ → ContractRelayResult → Type 0
Explained client recipient amount r =
    IsConfirmed client recipient amount r ⊎ IsRefused client recipient amount r

error-IsRefused :
    (chain : Chain) (base recipient : Text) (amount : ℕ) (hash : Option Text) (e : Thrown)
    → ¬ IsAcceptedBy chain recipient amount
    → IsRefused (some (chain, base)) recipient amount (relay_error chain hash e)
error-IsRefused chain base recipient amount hash e never = record {
  never = never;
  reason = truncate_reason (handle_execution_error chain.decode_error e);
  hash = hash;
  block = none;
  short = length-truncate_reason _;
  is = refl;
}

module _ (chain : Chain) (base recipient : Text) (amount : ℕ) where
  outcome-Explained :
      (hash : Text) (receipt : Receipt)
      → chain.write_contract recipient amount ≡ returned hash
      → chain.wait_for_receipt hash ≡ returned receipt
      → Explained (some (chain, base)) recipient amount (relay_outcome base hash receipt)
  unfolding relay_outcome
  outcome-Explained hash receipt sent got = elim (Bool-cases receipt.succeeded) [
    | inl good ↦ inl (record {
      chain = chain;
      base = base;
      hash = hash;
      receipt = receipt;
      configured = refl;
      broadcast = sent;
      awaited = got;
      accepted = good;
      is = rw good;
    })
    | inr bad ↦ inr (record {
      never = λ a. ground (arith, sent, got, bad, a.broadcast, a.awaited, a.accepted);
      reason = truncate_reason (decode_revert_reason receipt);
      hash = some hash;
      block = some receipt.block_number;
      short = length-truncate_reason _;
      is = rw bad;
    })
  ]

  receipt-Explained :
      (hash : Text) (a : Attempt Receipt)
      → chain.write_contract recipient amount ≡ returned hash
      → chain.wait_for_receipt hash ≡ a
      → Explained (some (chain, base)) recipient amount (await_receipt chain base hash a)
  receipt-Explained hash (returned receipt) sent got = outcome-Explained hash receipt sent got
  receipt-Explained hash (threw e) sent got = inr (
      error-IsRefused chain base recipient amount (some hash) e
        λ a. ground (arith, sent, got, a.broadcast, a.awaited))

  broadcast-Explained :
      (a : Attempt Text)
      → chain.write_contract recipient amount ≡ a
      → Explained (some (chain, base)) recipient amount (await_broadcast chain base a)
  broadcast-Explained (returned hash) sent = receipt-Explained hash _ sent refl
  broadcast-Explained (threw e) sent =
      inr
        (error-IsRefused chain base recipient amount none e λ a. ground (arith, sent, a.broadcast))

-- Every call of `executeContractRelay` ends in one of two ways, whatever viem answers. If the client is
-- initialised, the broadcast and the wait for the receipt returned and the receipt has the status
-- `success`, then the result is a success with that hash and block, the explorer's page of the hash,
-- and the first `SponsorshipGranted` of the logs. If not, it is a failure, with a reason of at most
-- 1000 code units, no page and no event.
pub execute_contract_relay-Explained :
    (client : Option (Chain × Text)) (recipient : Text) (amount : ℕ)
    → Explained client recipient amount (execute_contract_relay client recipient amount)
unfolding execute_contract_relay
execute_contract_relay-Explained none recipient amount = inr (record {
  never = λ a. a;
  reason = _;
  hash = none;
  block = none;
  short = omega arith;
  is = refl;
})
execute_contract_relay-Explained (some (chain, base)) recipient amount =
    broadcast-Explained chain base recipient amount _ refl
