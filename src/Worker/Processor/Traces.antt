-- ===== src/Worker/Processor/Traces.antt =====
-- Whatever the processor does to the database is a sequence of the writes of `Step`.
use arcpass.Prelude.{
  ℕ, ◌≡◌, refl, Bool, true, false, ◌&&◌, Option, none, some, leb, inl, inr, Bool-cases,
  if◌then◌else◌, Option-cases,
}
use arcpass.SponsorshipTypes.{
  SponsorshipStatus, approved, rejected, relayed, completed, pending, RelayStatus, submitted,
  confirmed, is_valid_sponsorship_transition, sponsorship_eq, relay_eq,
}
use arcpass.Store.{Database, SponsorshipRequest, RelayTransaction}
use arcpass.Worker.Tx.{
  Tx, State, Host, Result, ok, err, Outcome, Triple, bind-Triple, gets, ◌>>=◌, Branch, plain,
  already_sponsored,
}
use arcpass.Worker.Relay.{RelayResult, Executor}
use arcpass.Worker.Lifecycle.{
  transition_sponsorship_status, find_request, create_relay_transaction, RelayData, no_data,
  get_retry_count, retry_count, default_max_relay_attempts,
}
use arcpass.Worker.Lifecycle.Effects.{
  stamp_at, transition-valid, transition-invalid, transition-missing,
}
use arcpass.Worker.Processor.{
  ProcessResult, select_for_update, find_wallet, find_active_relay, is_already_sponsored_error,
  is_processable, is_blocked, increment_sponsorship_count, invoke, must_transition, must_update,
  reject_blocked, finish_active, give_up, prepare_pending, prepare, settle_success, settle_failure,
  settle, run_relay, check_retries, check_active, check_wallet, process_row, process_body,
  close_transaction, process_request,
}
use arcpass.Worker.Processor.Calls.{
  must_transition-Outcome, must_update-Outcome, create-Outcome, increment-Outcome, explain-Outcome,
}
use arcpass.Worker.Steps.{
  field_of, Steps, here, next, transitioned, explained, relay_created, relay_updated, counted,
}

field_of-stamp_at :
    {F : Type 0} (host : Host) (o : Option F) (n : ℕ) → field_of (stamp_at host o n) ≡ o
field_of-stamp_at host none n = refl
field_of-stamp_at host (some field) n = refl

-- `d` is the database at the start of the transaction.
module _ (id : ℕ) (d : Database) where
  abbrev Reached : State → Type 0
  Reached s = Steps id d s.db

  abbrev Traced : {A : Type 0} → Tx A → Type 0
  Traced m = Triple (λ e s. Reached s) Reached m (λ a s. Reached s)

  bind-Traced :
      {A B : Type 0} (m : Tx A) (f : A → Tx B)
      → Traced m
      → ((a : A) → Traced (f a))
      → Traced (m >>= f)
  bind-Traced m f h k = bind-Triple (λ e s. Reached s) Reached m f (λ a. Reached) (λ b. Reached) h k

  if-Traced :
      {A : Type 0} (b : Bool) (m k : Tx A) → Traced m → Traced k → Traced (if b then m else k)
  if-Traced true m k h j = h
  if-Traced false m k h j = j

  gets-Traced :
      {A B : Type 0} (f : Database → A) (k : A → Tx B)
      → ((a : A) → Traced (k a))
      → Traced (gets f >>= k)
  gets-Traced f k h = bind-Traced (gets f) k (λ s g. g) h

  increment-Traced : (wallet_id : ℕ) → Traced (increment_sponsorship_count wallet_id)
  increment-Traced wallet_id s h =
      increment-Outcome (λ e s. Reached s) s (λ e. h) wallet_id (λ a s. Reached s)
        (λ w found. next h (counted wallet_id))

  module _ (host : Host) where
    transition-Traced :
        (new : SponsorshipStatus) → Traced (transition_sponsorship_status host id new)
    transition-Traced new s h = elim (Option-cases (find_request id s.db)) [
      | inl missing ↦ rw (transition-missing host id new s missing) h
      | inr (r, found) ↦ elim (Bool-cases (is_valid_sponsorship_transition r.status new)) [
        | inl valid ↦
            rw (transition-valid host id new s r found valid)
              (next h (transitioned r new _ found valid (field_of-stamp_at host _ _)))
        | inr invalid ↦ rw (transition-invalid host id new s r found invalid) h
      ]
    ]

    must_transition-Traced :
        (new : SponsorshipStatus) (branch : Branch) → Traced (must_transition host id new branch)
    must_transition-Traced new branch s h =
        must_transition-Outcome (λ e s. Reached s) s (λ e. h) host id new branch (λ a s. Reached s)
          (λ r found valid. next h (transitioned r new _ found valid (field_of-stamp_at host _ _)))

    must_update-Traced :
        (relay_id : ℕ) (new : RelayStatus) (branch : Branch) (relay_data : RelayData)
        → Traced (must_update host id relay_id new branch relay_data)
    must_update-Traced relay_id new branch relay_data s h =
        must_update-Outcome (λ e s. Reached s) s (λ e. h) host id relay_id new branch relay_data
          (λ a s. Reached s)
          (λ r found valid. next h (relay_updated relay_id r new _ relay_data found valid))

    create-Traced : (most : ℕ) → Traced (create_relay_transaction host id most)
    create-Traced most s h =
        create-Outcome (λ e s. Reached s) s (λ e. h) host id most (λ a s. Reached s)
          (λ below. next h (relay_created _ _))

    reject_blocked-Traced : Traced (reject_blocked host id)
    unfolding reject_blocked
    reject_blocked-Traced = bind-Traced _ _ (transition-Traced rejected) (λ ignored.
        bind-Traced _ _
          (λ s h.
            explain-Outcome (λ e s. Reached s) s (λ e. h) id (λ a s. Reached s)
              (λ r found. next h explained))
          (λ _ s h. h))

    settle_success-Traced :
        (wallet_id relay_id : ℕ) (branch : Branch) (relay_data : RelayData)
        → Traced (settle_success host id wallet_id relay_id branch relay_data)
    unfolding settle_success
    settle_success-Traced wallet_id relay_id branch relay_data =
        bind-Traced _ _ (must_update-Traced relay_id confirmed branch relay_data) (λ _.
          bind-Traced _ _ (must_transition-Traced completed branch)
            (λ _. bind-Traced _ _ (increment-Traced wallet_id) (λ _ s h. h)))

    settle_failure-Traced :
        (relay_id : ℕ) (relay_data : RelayData)
        → Traced (settle_failure host id relay_id relay_data)
    unfolding settle_failure
    settle_failure-Traced relay_id relay_data =
        bind-Traced _ _ (must_update-Traced relay_id RelayStatus.failed plain relay_data) (λ _.
          bind-Traced _ _ (must_transition-Traced SponsorshipStatus.failed plain) (λ _ s h. h))

    settle-Traced :
        (wallet_id relay_id : ℕ) (result : RelayResult)
        → Traced (settle host id wallet_id relay_id result)
    unfolding settle
    settle-Traced wallet_id relay_id result =
        if-Traced result.success _ _ (settle_success-Traced wallet_id relay_id plain _) (
          if-Traced (is_already_sponsored_error result.failure_reason) _ _
            (settle_success-Traced wallet_id relay_id already_sponsored _)
            (settle_failure-Traced relay_id _))

    finish_active-Traced :
        (status : SponsorshipStatus) (wallet_id : ℕ) (relay : RelayTransaction)
        → Traced (finish_active host id status wallet_id relay)
    unfolding finish_active
    finish_active-Traced status wallet_id relay =
        if-Traced (relay_eq relay.status confirmed) _ _
          (bind-Traced _ _ (must_transition-Traced completed plain)
            (λ _. bind-Traced _ _ (increment-Traced wallet_id) (λ _ s h. h)))
          (λ s h. h)

    give_up-Traced : Traced (give_up host id)
    unfolding give_up
    give_up-Traced =
        bind-Traced _ _ (must_transition-Traced SponsorshipStatus.failed plain) (λ _ s h. h)

    prepare_pending-Traced : Traced (prepare_pending host id)
    unfolding prepare_pending
    prepare_pending-Traced = bind-Traced _ _ (must_transition-Traced approved plain) (λ _.
        bind-Traced _ _ (create-Traced default_max_relay_attempts)
          (λ relay. bind-Traced _ _ (must_transition-Traced relayed plain) (λ _ s h. h)))

    prepare-Traced : (status : SponsorshipStatus) → Traced (prepare host id status)
    prepare-Traced pending = prepare_pending-Traced
    prepare-Traced _ = create-Traced default_max_relay_attempts

    module _ (execute : Executor) where
      run_relay-Traced :
          (status : SponsorshipStatus) (wallet_id : ℕ)
          → Traced (run_relay host id execute status wallet_id)
      unfolding run_relay invoke
      run_relay-Traced status wallet_id = bind-Traced _ _ (prepare-Traced status) (λ relay.
          bind-Traced _ _ (must_update-Traced relay.id submitted plain no_data) (λ _.
            bind-Traced (invoke execute _) _ (λ s h. h)
              (λ result. settle-Traced wallet_id relay.id result)))

      check_retries-Traced :
          (max_retries : ℕ) (status : SponsorshipStatus) (wallet_id : ℕ)
          → Traced (check_retries host id execute max_retries status wallet_id)
      unfolding check_retries get_retry_count
      check_retries-Traced max_retries status wallet_id = gets-Traced (retry_count id) _ (λ retries.
          if-Traced (leb max_retries retries) _ _ give_up-Traced
            (run_relay-Traced status wallet_id))

      check_active-Traced :
          (max_retries : ℕ) (status : SponsorshipStatus) (wallet_id : ℕ)
          (active : Option RelayTransaction)
          → Traced (check_active host id execute max_retries status wallet_id active)
      check_active-Traced max_retries status wallet_id none =
          check_retries-Traced max_retries status wallet_id
      check_active-Traced max_retries status wallet_id (some relay) =
          finish_active-Traced status wallet_id relay

      check_wallet-Traced :
          (max_retries : ℕ) (status : SponsorshipStatus) (wallet_id : ℕ)
          → Traced (check_wallet host id execute max_retries status wallet_id)
      unfolding check_wallet
      check_wallet-Traced max_retries status wallet_id =
          gets-Traced (find_wallet wallet_id) _ (λ wallet.
            if-Traced (sponsorship_eq status pending && is_blocked wallet) _ _ reject_blocked-Traced
              (gets-Traced (find_active_relay id) _
                (λ active. check_active-Traced max_retries status wallet_id active)))

      process_row-Traced :
          (max_retries : ℕ) (row : Option SponsorshipRequest)
          → Traced (process_row host id execute max_retries row)
      unfolding process_row
      process_row-Traced max_retries none = λ s h. h
      process_row-Traced max_retries (some row) =
          if-Traced (is_processable row.status) _ _
            (check_wallet-Traced max_retries row.status row.wallet_id) (λ s h. h)

      process_body-Traced :
          (max_retries : ℕ) (locked : ℕ → Bool)
          → Traced (process_body host id execute max_retries locked)
      unfolding process_body
      process_body-Traced max_retries locked =
          gets-Traced (select_for_update locked id) _ (λ row. process_row-Traced max_retries row)

close_transaction-Steps :
    (id : ℕ) (commits : Bool) (d : Database) (r : Result ProcessResult × State)
    → Outcome (λ e s. Steps id d s.db) (λ a s. Steps id d s.db) r
    → Steps id d (close_transaction id commits d r).1.db
close_transaction-Steps id true d (ok result, s) h = h
close_transaction-Steps id false d (ok result, s) h = here
close_transaction-Steps id true d (err e, s) h = here
close_transaction-Steps id false d (err e, s) h = here

-- However a call of `processRequest` ends, what it has done to the database is a sequence of the
-- single writes of `Step`, each for the request that was asked for.
pub process_request-Steps :
    (host : Host) (execute : Database → Executor) (locked : ℕ → Bool) (commits : Bool)
    (max_retries id : ℕ) (s : State)
    → Steps id s.db (process_request host execute locked commits max_retries id s).1.db
unfolding process_request
process_request-Steps host execute locked commits max_retries id s =
    close_transaction-Steps id commits s.db _
      (process_body-Traced id s.db host (execute s.db) max_retries locked s here)
