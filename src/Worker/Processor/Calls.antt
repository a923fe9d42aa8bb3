-- ===== src/Worker/Processor/Calls.antt =====
-- What each call of the processor does: it throws and leaves the state as it was, or it makes one
-- known write. Each rule proves a condition on the end of the call from the two.
use arcpass.Prelude.{ℕ, ◌+◌, ◌≡◌, true, false, inl, inr, some, leb, Bool-cases, Option-cases}
use arcpass.SponsorshipTypes.{
  SponsorshipStatus, RelayStatus, is_valid_sponsorship_transition, is_valid_relay_transition,
}
use arcpass.Store.{SponsorshipRequest, RelayTransaction, Wallet}
use arcpass.Worker.Tx.{State, Host, ProcessError, Branch, Outcome}
use arcpass.Worker.Lifecycle.{
  find_request, write_request, CreatedRelay, create_relay_transaction, retry_count, RelayData,
  find_relay,
}
use arcpass.Worker.Lifecycle.Effects.{
  after_transition, after_update, after_create, transition-valid, transition-invalid,
  transition-missing, update-valid, update-invalid, update-missing, create-below, create-full,
}
use arcpass.Worker.Processor.{
  must_transition, must_update, find_wallet, write_wallet, increment_count, increment_found,
  increment_sponsorship_count, explain_blocked, update_request, update_request_found,
}

module _ (E : ProcessError → State → Type 0) (s : State) (throws : (e : ProcessError) → E e s) where
  module _ (host : Host) (id : ℕ) where
    pub must_transition-Outcome :
        (new : SponsorshipStatus) (branch : Branch) (Q : Unit {0} → State → Type 0)
        → ((r : SponsorshipRequest)
            → find_request id s.db ≡ some r
            → is_valid_sponsorship_transition r.status new ≡ true
            → Q tt (after_transition host id new s))
        → Outcome E Q (must_transition host id new branch s)
    unfolding must_transition
    must_transition-Outcome new branch Q k = elim (Option-cases (find_request id s.db)) [
      | inl missing ↦ rw (transition-missing host id new s missing) (throws _)
      | inr (r, found) ↦ elim (Bool-cases (is_valid_sponsorship_transition r.status new)) [
        | inl valid ↦ rw (transition-valid host id new s r found valid) (k r found valid)
        | inr invalid ↦ rw (transition-invalid host id new s r found invalid) (throws _)
      ]
    ]

    pub must_update-Outcome :
        (relay_id : ℕ) (new : RelayStatus) (branch : Branch) (d : RelayData)
        (Q : Unit {0} → State → Type 0)
        → ((r : RelayTransaction)
            → find_relay relay_id s.db ≡ some r
            → is_valid_relay_transition r.status new ≡ true
            → Q tt (after_update host relay_id new d s))
        → Outcome E Q (must_update host id relay_id new branch d s)
    unfolding must_update
    must_update-Outcome relay_id new branch d Q k = elim (Option-cases (find_relay relay_id s.db)) [
      | inl missing ↦ rw (update-missing host relay_id new d s missing) (throws _)
      | inr (r, found) ↦ elim (Bool-cases (is_valid_relay_transition r.status new)) [
        | inl valid ↦ rw (update-valid host relay_id new d s r found valid) (k r found valid)
        | inr invalid ↦ rw (update-invalid host relay_id new d s r found invalid) (throws _)
      ]
    ]

    pub create-Outcome :
        (most : ℕ) (Q : CreatedRelay → State → Type 0)
        → (leb most (retry_count id s.db) ≡ false
            → Q
                (record {
                  id = host.new_relay_id s.db.relays;
                  relay_attempt = retry_count id s.db + 1;
                })
                (after_create host id s))
        → Outcome E Q (create_relay_transaction host id most s)
    create-Outcome most Q k = elim (Bool-cases (leb most (retry_count id s.db))) [
      | inl full ↦ rw (create-full host id most s full) (throws _)
      | inr below ↦ rw (create-below host id most s below) (k below)
    ]

  pub increment-Outcome :
      (wallet_id : ℕ) (Q : Unit {0} → State → Type 0)
      → ((w : Wallet)
          → find_wallet wallet_id s.db ≡ some w
          → Q tt (record s { db = write_wallet wallet_id increment_count s.db }))
      → Outcome E Q (increment_sponsorship_count wallet_id s)
  unfolding increment_sponsorship_count
  increment-Outcome wallet_id Q k = elim (Option-cases (find_wallet wallet_id s.db)) [
    | inl missing ↦ rw (missing, increment_found) (throws _)
    | inr (w, found) ↦ rw (found, increment_found) (k w found)
  ]

  pub explain-Outcome :
      (id : ℕ) (Q : Unit {0} → State → Type 0)
      → ((r : SponsorshipRequest)
          → find_request id s.db ≡ some r
          → Q tt (record s { db = write_request id explain_blocked s.db }))
      → Outcome E Q (update_request id explain_blocked s)
  explain-Outcome id Q k = elim (Option-cases (find_request id s.db)) [
    | inl missing ↦ rw (missing, update_request_found) (throws _)
    | inr (r, found) ↦ rw (found, update_request_found) (k r found)
  ]
