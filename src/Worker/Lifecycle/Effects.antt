-- ===== src/Worker/Lifecycle/Effects.antt =====
-- Every call of a lifecycle operation either changes nothing or makes exactly one known write.
use arcpass.Prelude.{ℕ, suc, ◌+◌, ◌≡◌, true, false, Option, none, some, leb}
use arcpass.SponsorshipTypes.{
  SponsorshipStatus, approved, RelayStatus, submitted, is_valid_sponsorship_transition,
  is_valid_relay_transition,
}
use arcpass.Store.{SponsorshipRequest, RelayTransaction}
use arcpass.Worker.Tx.{
  State, Host, ok, err, max_relay_attempts, request_not_found, invalid_transition, relay_not_found,
  invalid_relay_transition,
}
use arcpass.Worker.Lifecycle.{
  success, failure, status_timestamp_field, set_status, find_request, write_request, transition_row,
  transition_found, transition_sponsorship_status, create_relay_transaction, retry_count, new_relay,
  add_relay, relay_timestamp_field, RelayData, set_relay, find_relay, write_relay, update_found,
  update_relay_row, update_relay_transaction,
}

-- The stamp for a status at the clock's n-th reading, and the readings after it.
abbrev pub stamp_at : {F : Type 0} → Host → Option F → ℕ → Option (F × ℕ)
stamp_at host none n = none
stamp_at host (some field) n = some (field, host.clock n)

abbrev pub reads_after : {F : Type 0} → Option F → ℕ → ℕ
reads_after none n = n
reads_after (some field) n = suc n

abbrev pub after_transition : Host → ℕ → SponsorshipStatus → State → State
after_transition host id new s = record s {
  db = write_request id (set_status new (stamp_at host (status_timestamp_field new) s.reads)) s.db;
  reads = reads_after (status_timestamp_field new) s.reads;
}

abbrev pub after_update : Host → ℕ → RelayStatus → RelayData → State → State
after_update host id new d s = record s {
  db = write_relay id (set_relay new (stamp_at host (relay_timestamp_field new) s.reads) d) s.db;
  reads = reads_after (relay_timestamp_field new) s.reads;
}

abbrev pub created_at : Host → ℕ → State → RelayTransaction
created_at host id s = new_relay (host.new_relay_id s.db.relays) id (retry_count id s.db + 1)

abbrev pub after_create : Host → ℕ → State → State
after_create host id s = record s { db = add_relay (created_at host id s) s.db }

module _ (host : Host) (id : ℕ) where
  -- A valid transition of a request that is there succeeds.
  pub transition-valid :
      (new : SponsorshipStatus) (s : State) (r : SponsorshipRequest)
      → find_request id s.db ≡ some r
      → is_valid_sponsorship_transition r.status new ≡ true
      → transition_sponsorship_status host id new s ≡ (ok success, after_transition host id new s)
  unfolding transition_sponsorship_status transition_found
  transition-valid approved s r found valid = rw (found, transition_row) (rw valid)
  transition-valid _ s r found valid = rw (found, transition_row) (rw valid)

  -- Any other call reports why, and changes nothing.
  pub transition-invalid :
      (new : SponsorshipStatus) (s : State) (r : SponsorshipRequest)
      → find_request id s.db ≡ some r
      → is_valid_sponsorship_transition r.status new ≡ false
      → transition_sponsorship_status host id new s
        ≡ (ok (failure (invalid_transition r.status new)), s)
  unfolding transition_sponsorship_status transition_found
  transition-invalid new s r found valid = rw (found, transition_row) (rw valid)

  pub transition-missing :
      (new : SponsorshipStatus) (s : State)
      → find_request id s.db ≡ none
      → transition_sponsorship_status host id new s ≡ (ok (failure request_not_found), s)
  unfolding transition_sponsorship_status
  transition-missing new s found = rw (found, transition_row)

  pub update-valid :
      (new : RelayStatus) (d : RelayData) (s : State) (r : RelayTransaction)
      → find_relay id s.db ≡ some r
      → is_valid_relay_transition r.status new ≡ true
      → update_relay_transaction host id new d s ≡ (ok success, after_update host id new d s)
  unfolding update_relay_transaction update_found
  update-valid submitted d s r found valid = rw (found, update_relay_row) (rw valid)
  update-valid _ d s r found valid = rw (found, update_relay_row) (rw valid)

  pub update-invalid :
      (new : RelayStatus) (d : RelayData) (s : State) (r : RelayTransaction)
      → find_relay id s.db ≡ some r
      → is_valid_relay_transition r.status new ≡ false
      → update_relay_transaction host id new d s
        ≡ (ok (failure (invalid_relay_transition r.status new)), s)
  unfolding update_relay_transaction update_found
  update-invalid new d s r found valid = rw (found, update_relay_row) (rw valid)

  pub update-missing :
      (new : RelayStatus) (d : RelayData) (s : State)
      → find_relay id s.db ≡ none
      → update_relay_transaction host id new d s ≡ (ok (failure relay_not_found), s)
  unfolding update_relay_transaction
  update-missing new d s found = rw (found, update_relay_row)

  pub create-below :
      (most : ℕ) (s : State)
      → leb most (retry_count id s.db) ≡ false
      → create_relay_transaction host id most s ≡ (
        ok (record { id = host.new_relay_id s.db.relays; relay_attempt = retry_count id s.db + 1 }),
        after_create host id s,
      )
  unfolding create_relay_transaction
  create-below most s below = rw below

  pub create-full :
      (most : ℕ) (s : State)
      → leb most (retry_count id s.db) ≡ true
      → create_relay_transaction host id most s ≡ (err (max_relay_attempts most id), s)
  unfolding create_relay_transaction
  create-full most s full = rw full
