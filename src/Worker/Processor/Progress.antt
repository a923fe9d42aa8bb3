-- ===== src/Worker/Processor/Progress.antt =====
-- Calls of the processor that cannot throw, since what they look for is there.
use arcpass.Prelude.{
  ℕ, ◌+◌, ◌≡◌, refl, ◌∙◌, ap, true, false, Option, none, some, List, leb, ==_self,
}
use arcpass.SponsorshipTypes.{
  SponsorshipStatus, RelayStatus, queued, is_valid_sponsorship_transition,
  is_valid_relay_transition,
}
use arcpass.Store.{SponsorshipRequest, RelayTransaction, Wallet}
use arcpass.Store.Table.{find_unique-update_self, find_unique-append}
use arcpass.Worker.Tx.{State, Host, RelayCall, ProcessError, Outcome, Branch}
use arcpass.Worker.Lifecycle.{
  find_request, find_relay, create_relay_transaction, RelayData, RelayTimestamp, set_relay,
  retry_count, default_max_relay_attempts,
}
use arcpass.Worker.Lifecycle.Effects.{
  transition-valid, update-valid, create-below, after_transition, created_at,
}
use arcpass.Worker.Processor.{
  find_wallet, increment_sponsorship_count, increment_count, increment_found, must_transition,
  must_update,
}
use arcpass.Worker.Steps.Safety.{set_status-id, set_status-status}

-- The code does not throw.
abbrev pub Never : ProcessError → State → Type 0
Never e s = ⊥

set_relay-id :
    (new : RelayStatus) (stamp : Option (RelayTimestamp × ℕ)) (d : RelayData) (r : RelayTransaction)
    → (set_relay new stamp d r).id ≡ r.id
set_relay-id new none d r = refl
set_relay-id new (some (RelayTimestamp.submitted_at, t)) d r = refl
set_relay-id new (some (RelayTimestamp.confirmed_at, t)) d r = refl
set_relay-id new (some (RelayTimestamp.failed_at, t)) d r = refl

set_relay-status :
    (new : RelayStatus) (stamp : Option (RelayTimestamp × ℕ)) (d : RelayData) (r : RelayTransaction)
    → (set_relay new stamp d r).status ≡ new
set_relay-status new none d r = refl
set_relay-status new (some (RelayTimestamp.submitted_at, t)) d r = refl
set_relay-status new (some (RelayTimestamp.confirmed_at, t)) d r = refl
set_relay-status new (some (RelayTimestamp.failed_at, t)) d r = refl

module _ (id wallet_id : ℕ) where
  -- The request in a status, its wallet, the wallet's count, and the calls of the executor.
  pub record Request (status : SponsorshipStatus) (count : ℕ) (calls : List RelayCall) (s : State)
      : Type 0 where
    pub row : SponsorshipRequest
    pub found : find_request id s.db ≡ some row
    pub in_status : row.status ≡ status
    pub wallet : Wallet
    pub owner : find_wallet wallet_id s.db ≡ some wallet
    pub counted : wallet.sponsorship_count ≡ count
    pub called : s.calls ≡ calls

  -- A relay transaction in a status.
  pub record Relay (relay_id : ℕ) (status : RelayStatus) (s : State) : Type 0 where
    pub relay : RelayTransaction
    pub relay_found : find_relay relay_id s.db ≡ some relay
    pub relay_status : relay.status ≡ status

  module _ (host : Host) where
    -- Room for another relay transaction, under an identifier that is not taken.
    pub record Room (attempts : ℕ) (s : State) : Type 0 where
      pub fresh : find_relay (host.new_relay_id s.db.relays) s.db ≡ none
      pub counted_relays : retry_count id s.db ≡ attempts

    pub transition-Request :
        {status : SponsorshipStatus} {count : ℕ} {calls : List RelayCall} (new : SponsorshipStatus)
        (branch : Branch) (s : State) (P : State → Type 0)
        → is_valid_sponsorship_transition status new ≡ true
        → Request status count calls s
        → P (after_transition host id new s)
        → Outcome Never
            (λ a s. Request new count calls s × P s)
            (must_transition host id new branch s)
    unfolding must_transition
    transition-Request new branch s P valid q p =
        rw (transition-valid host id new s q.row q.found (rw q.in_status valid)) (
          record {
            row = _;
            found =
                find_unique-update_self (λ r. r.id) id _ s.db.requests q.row (set_status-id new _)
                  q.found;
            in_status = set_status-status new _ q.row;
            wallet = q.wallet;
            owner = q.owner;
            counted = q.counted;
            called = q.called;
          },
          p,
        )

    pub update-Request :
        {status : SponsorshipStatus} {count : ℕ} {calls : List RelayCall} (relay_id : ℕ)
        {old : RelayStatus} (new : RelayStatus) (branch : Branch) (d : RelayData) (s : State)
        → is_valid_relay_transition old new ≡ true
        → Request status count calls s
        → Relay relay_id old s
        → Outcome Never
            (λ a s. Request status count calls s × Relay relay_id new s)
            (must_update host id relay_id new branch d s)
    unfolding must_update
    update-Request relay_id new branch d s valid q x =
        rw (update-valid host relay_id new d s x.relay x.relay_found (rw x.relay_status valid)) (
          record {
            row = q.row;
            found = q.found;
            in_status = q.in_status;
            wallet = q.wallet;
            owner = q.owner;
            counted = q.counted;
            called = q.called;
          },
          record {
            relay = _;
            relay_found =
                find_unique-update_self (λ r. r.id) relay_id _ s.db.relays x.relay
                  (set_relay-id new _ d) x.relay_found;
            relay_status = set_relay-status new _ d x.relay;
          },
        )

    pub create-Request :
        {status : SponsorshipStatus} {count : ℕ} {calls : List RelayCall} {attempts : ℕ} (s : State)
        → leb default_max_relay_attempts attempts ≡ false
        → Request status count calls s
        → Room attempts s
        → Outcome Never
            (λ c s'.
              Request status count calls s'
              × Relay c.id queued s'
              × (c.relay_attempt ≡ attempts + 1)
              × (c.id ≡ host.new_relay_id s.db.relays))
            (create_relay_transaction host id default_max_relay_attempts s)
    create-Request s few q room =
        rw (create-below host id default_max_relay_attempts s (rw room.counted_relays few)) (
          record {
            row = q.row;
            found = q.found;
            in_status = q.in_status;
            wallet = q.wallet;
            owner = q.owner;
            counted = q.counted;
            called = q.called;
          },
          record {
            relay = created_at host id s;
            relay_found =
                find_unique-append (λ r. r.id) (host.new_relay_id s.db.relays) s.db.relays
                  (created_at host id s) room.fresh
                ∙ rw (==_self (host.new_relay_id s.db.relays));
            relay_status = refl;
          },
          ap (λ n. n + 1) room.counted_relays,
          refl,
        )

  pub increment-Request :
      {status : SponsorshipStatus} {count : ℕ} {calls : List RelayCall} (relay_id : ℕ)
      {old : RelayStatus} (s : State)
      → Request status count calls s
      → Relay relay_id old s
      → Outcome Never
          (λ a s. Request status (count + 1) calls s × Relay relay_id old s)
          (increment_sponsorship_count wallet_id s)
  unfolding increment_sponsorship_count
  increment-Request relay_id s q x =
      rw (q.owner, increment_found)
        (
          record {
            row = q.row;
            found = q.found;
            in_status = q.in_status;
            wallet = increment_count q.wallet;
            owner =
                find_unique-update_self (λ w. w.id) wallet_id increment_count s.db.wallets q.wallet
                  (λ y. refl) q.owner;
            counted = ap (λ n. n + 1) q.counted;
            called = q.called;
          },
          record { relay = x.relay; relay_found = x.relay_found; relay_status = x.relay_status },
        )
