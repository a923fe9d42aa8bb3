-- ===== src/Worker/Processor/Settling.antt =====
-- At the end of a transaction the wallet has been counted for a completion, and the status that is
-- reported is the one that the request has.
use arcpass.Prelude.{ℕ, ◌≡◌, refl, Bool, true, false, Option, none, some, arith, leb, if◌then◌else◌}
use arcpass.SponsorshipTypes.{
  SponsorshipStatus, pending, approved, rejected, relayed, completed, RelayStatus, submitted,
  confirmed, relay_eq, is_valid_sponsorship_transition,
}
use arcpass.Store.{SponsorshipRequest, RelayTransaction}
use arcpass.Worker.Tx.{
  Tx, State, Host, ok, Outcome, Triple, bind-Triple, gets, ◌>>=◌, Branch, plain, already_sponsored,
}
use arcpass.Worker.Relay.{RelayResult, Executor}
use arcpass.Worker.Lifecycle.{
  status_timestamp_field, transition_sponsorship_status, create_relay_transaction, RelayData,
  no_data, get_retry_count, retry_count, default_max_relay_attempts,
}
use arcpass.Worker.Lifecycle.Effects.{stamp_at, transition-valid}
use arcpass.Worker.Processor.{
  ProcessResult, done, is_already_sponsored_error, is_processable, is_blocked, select_for_update,
  find_wallet, find_active_relay, increment_sponsorship_count, invoke, must_transition, must_update,
  reject_blocked, finish_active, give_up, prepare_pending, settle_success, settle_failure, settle,
  run_relay, check_retries, check_active, check_wallet, process_row, process_body,
}
use arcpass.Worker.Processor.Calls.{
  must_transition-Outcome, must_update-Outcome, create-Outcome, increment-Outcome, explain-Outcome,
}
use arcpass.Worker.Processor.Accounting.{
  At, owed_for, At-transition, At-explain, At-increment, At-relays, completed_of, count_of,
}

-- Nothing is asked of a throw, since the database is put back.
abbrev pub Any : {X : Type 0} → X → State → Type 0
Any x s = Unit {0}

module _ (plus minus : ℕ → ℕ) (id wallet_id : ℕ) where
  abbrev pub Owes : SponsorshipStatus → ℕ → State → Type 0
  Owes status owed s = At plus minus id wallet_id status owed s.db

  -- The request is settled in the status that is reported.
  abbrev pub Reports : ProcessResult → State → Type 0
  Reports result s = Owes result.final_status 0 s × (result.success ≡ true)

  abbrev Settles : SponsorshipStatus → Tx ProcessResult → Type 0
  Settles status m = Triple Any (Owes status 0) m Reports

  if-Settles :
      {status : SponsorshipStatus} (b : Bool) (m k : Tx ProcessResult)
      → Settles status m
      → Settles status k
      → Settles status (if b then m else k)
  if-Settles true m k h j = h
  if-Settles false m k h j = j

  -- A call between two known points.
  abbrev Moves : SponsorshipStatus → ℕ → {A : Type 0} → Tx A → SponsorshipStatus → ℕ → Type 0
  Moves status owed m status' owed' = Triple Any (Owes status owed) m (λ a. Owes status' owed')

  after :
      {A : Type 0} {status status' : SponsorshipStatus} {owed owed' : ℕ} (m : Tx A)
      (f : A → Tx ProcessResult)
      → Moves status owed m status' owed'
      → ((a : A) → Triple Any (Owes status' owed') (f a) Reports)
      → Triple Any (Owes status owed) (m >>= f) Reports
  after m f h k = bind-Triple Any (Owes _ _) m f (λ a. Owes _ _) Reports h k

  sequence :
      {A B : Type 0} {a b : SponsorshipStatus} {m n : ℕ} (c : SponsorshipStatus) (k : ℕ) (p : Tx A)
      (f : A → Tx B)
      → Moves a m p b n
      → ((x : A) → Moves b n (f x) c k)
      → Moves a m (p >>= f) c k
  sequence c k p f h g = bind-Triple Any (Owes _ _) p f (λ x. Owes _ _) (λ y. Owes c k) h g

  increment-Moves :
      {status : SponsorshipStatus} → Moves status 1 (increment_sponsorship_count wallet_id) status 0
  increment-Moves {status} s h =
      increment-Outcome Any s (λ e. tt) wallet_id (λ a. Owes status 0)
        (λ w found. At-increment w found h)

  module _ (host : Host) where
    must_transition-Moves :
        {status : SponsorshipStatus} (new : SponsorshipStatus) (branch : Branch)
        → Moves status 0 (must_transition host id new branch) new (owed_for new)
    must_transition-Moves new branch s h =
        must_transition-Outcome Any s (λ e. tt) host id new branch (λ a. Owes new (owed_for new))
          (λ r found valid. At-transition new _ r found valid h)

    must_update-Moves :
        {status : SponsorshipStatus} {owed : ℕ} (relay_id : ℕ) (new : RelayStatus) (branch : Branch)
        (relay_data : RelayData)
        → Moves status owed (must_update host id relay_id new branch relay_data) status owed
    must_update-Moves {status} {owed} relay_id new branch relay_data s h =
        must_update-Outcome Any s (λ e. tt) host id relay_id new branch relay_data
          (λ a. Owes status owed) (λ r found valid. At-relays _ h)

    create-Moves :
        {status : SponsorshipStatus} {owed : ℕ} (most : ℕ)
        → Moves status owed (create_relay_transaction host id most) status owed
    create-Moves {status} {owed} most s h =
        create-Outcome Any s (λ e. tt) host id most (λ a. Owes status owed) (λ below. At-relays _ h)

    complete-Settles :
        {status : SponsorshipStatus} (branch : Branch)
        → Settles status (
            must_transition host id completed branch >>= λ _.
            increment_sponsorship_count wallet_id >>= λ _ s. (ok (done id completed), s))
    complete-Settles branch =
        after _ _ (must_transition-Moves completed branch)
          (λ _. after _ _ increment-Moves (λ _ s h. (h, refl)))

    -- A pending request can be rejected, so the result need not be looked at.
    rejects-Moves : Moves pending 0 (transition_sponsorship_status host id rejected) rejected 0
    unfolding is_valid_sponsorship_transition
    rejects-Moves s h =
        let valid : is_valid_sponsorship_transition h.row.status rejected ≡ true = rw h.in_status in
        rw (transition-valid host id rejected s h.row h.found valid) (
          At-transition rejected (stamp_at host (status_timestamp_field rejected) s.reads) h.row
            h.found valid h)

    reject_blocked-Settles : Settles pending (reject_blocked host id)
    unfolding reject_blocked
    reject_blocked-Settles = after _ _ rejects-Moves (λ ignored.
        after _ _
          (λ s h.
            explain-Outcome Any s (λ e. tt) id (λ a. Owes rejected 0) (λ r found. At-explain h))
          (λ _ s h. (h, refl)))

    settle_success-Settles :
        {status : SponsorshipStatus} (relay_id : ℕ) (branch : Branch) (relay_data : RelayData)
        → Settles status (settle_success host id wallet_id relay_id branch relay_data)
    unfolding settle_success
    settle_success-Settles relay_id branch relay_data =
        after _ _ (must_update-Moves relay_id confirmed branch relay_data)
          (λ _. complete-Settles branch)

    settle_failure-Settles :
        {status : SponsorshipStatus} (relay_id : ℕ) (relay_data : RelayData)
        → Settles status (settle_failure host id relay_id relay_data)
    unfolding settle_failure
    settle_failure-Settles relay_id relay_data =
        after _ _ (must_update-Moves relay_id RelayStatus.failed plain relay_data) (λ _.
          after _ _ (must_transition-Moves SponsorshipStatus.failed plain) (λ _ s h. (h, refl)))

    settle-Settles :
        {status : SponsorshipStatus} (relay_id : ℕ) (result : RelayResult)
        → Settles status (settle host id wallet_id relay_id result)
    unfolding settle
    settle-Settles relay_id result =
        if-Settles result.success _ _ (settle_success-Settles relay_id plain _) (
          if-Settles (is_already_sponsored_error result.failure_reason) _ _
            (settle_success-Settles relay_id already_sponsored _)
            (settle_failure-Settles relay_id _))

    finish_active-Settles :
        {status : SponsorshipStatus} (relay : RelayTransaction)
        → Settles status (finish_active host id status wallet_id relay)
    unfolding finish_active
    finish_active-Settles relay =
        if-Settles (relay_eq relay.status confirmed) _ _ (complete-Settles plain) (λ s h. (h, refl))

    give_up-Settles : {status : SponsorshipStatus} → Settles status (give_up host id)
    unfolding give_up
    give_up-Settles =
        after _ _ (must_transition-Moves SponsorshipStatus.failed plain) (λ _ s h. (h, refl))

    prepare_pending-Moves : Moves pending 0 (prepare_pending host id) relayed 0
    unfolding prepare_pending
    prepare_pending-Moves = sequence relayed 0 _ _ (must_transition-Moves approved plain) (λ _.
        sequence relayed 0 _ _ (create-Moves default_max_relay_attempts)
          (λ relay. sequence relayed 0 _ _ (must_transition-Moves relayed plain) (λ _ s h. h)))

    module _ (execute : Executor) where
      relay_prepared :
          {status : SponsorshipStatus} (relay_id attempt : ℕ)
          → Settles status (
              must_update host id relay_id submitted plain no_data >>= λ _.
              invoke execute (record { request_id = id; relay_id = relay_id; attempt = attempt })
              >>= λ result. settle host id wallet_id relay_id result)
      unfolding invoke
      relay_prepared relay_id attempt =
          after _ _ (must_update-Moves relay_id submitted plain no_data)
            (λ _. after (invoke execute _) _ (λ s h. h) (λ result. settle-Settles relay_id result))

      run_relay-Settles :
          (status : SponsorshipStatus) → Settles status (run_relay host id execute status wallet_id)
      unfolding run_relay
      run_relay-Settles pending =
          after _ _ prepare_pending-Moves (λ relay. relay_prepared relay.id relay.relay_attempt)
      run_relay-Settles _ =
          after _ _ (create-Moves default_max_relay_attempts)
            (λ relay. relay_prepared relay.id relay.relay_attempt)

      check_retries-Settles :
          (max_retries : ℕ) (status : SponsorshipStatus)
          → Settles status (check_retries host id execute max_retries status wallet_id)
      unfolding check_retries get_retry_count
      check_retries-Settles max_retries status =
          after (gets (retry_count id)) _ (λ s h. h)
            (λ retries.
              if-Settles (leb max_retries retries) _ _ give_up-Settles (run_relay-Settles status))

      check_active-Settles :
          (max_retries : ℕ) (status : SponsorshipStatus) (active : Option RelayTransaction)
          → Settles status (check_active host id execute max_retries status wallet_id active)
      check_active-Settles max_retries status none = check_retries-Settles max_retries status
      check_active-Settles max_retries status (some relay) = finish_active-Settles relay

      check_wallet-Settles :
          (max_retries : ℕ) (status : SponsorshipStatus)
          → Settles status (check_wallet host id execute max_retries status wallet_id)
      unfolding check_wallet
      check_wallet-Settles max_retries pending =
          after (gets (find_wallet wallet_id)) _ (λ s h. h)
            (λ wallet. if-Settles (is_blocked wallet) _ _ reject_blocked-Settles (
              after (gets (find_active_relay id)) _ (λ s h. h)
                (λ active. check_active-Settles max_retries pending active)))
      check_wallet-Settles max_retries status =
          after (gets (find_wallet wallet_id)) _ (λ s h. h)
            (λ wallet.
              after (gets (find_active_relay id)) _ (λ s h. h)
                (λ active. check_active-Settles max_retries status active))

      process_row-Settles :
          (max_retries : ℕ) (row : SponsorshipRequest)
          → row.wallet_id ≡ wallet_id
          → Settles row.status (process_row host id execute max_retries (some row))
      unfolding process_row
      process_row-Settles max_retries row owner =
          if-Settles (is_processable row.status) _ _
            (rw owner (check_wallet-Settles max_retries row.status)) (λ s h. (h, refl))

module _ (host : Host) (execute : Executor) (id : ℕ) where
  -- The differences at the start are those of the database that the transaction found.
  pub process_body-Settles :
      (max_retries : ℕ) (locked : ℕ → Bool) (row : SponsorshipRequest) (s : State)
      → select_for_update locked id s.db ≡ some row
      → Outcome Any
          (Reports (λ v. count_of v s.db) (λ v. completed_of v s.db) id row.wallet_id)
          (process_body host id execute max_retries locked s)
  unfolding process_body select_for_update
  process_body-Settles max_retries locked row s selected =
      rw (selected, gets)
        (process_row-Settles (λ v. count_of v s.db) (λ v. completed_of v s.db) id row.wallet_id host
          execute max_retries row refl s
          (record {
            row = row;
            found = ground arith;
            owner = refl;
            in_status = refl;
            balance = λ v. ground arith;
          }))
