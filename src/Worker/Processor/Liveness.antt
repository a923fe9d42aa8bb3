-- ===== src/Worker/Processor/Liveness.antt =====
-- A pending request that nothing stands in the way of is settled by one call.
use arcpass.Prelude.{
  ℕ, ◌+◌, ◌<◌, ◌≡◌, refl, ◌∙◌, subst, ap, Bool, true, false, none, some, List, [], ◌∷◌, ◌++◌, arith,
  leb, lt→leb_false,
}
use arcpass.SponsorshipTypes.{
  SponsorshipStatus, pending, approved, relayed, queued, submitted, is_valid_sponsorship_transition,
  is_valid_relay_transition,
}
use arcpass.Store.{Database, SponsorshipRequest, Wallet}
use arcpass.Worker.Tx.{
  State, Host, RelayCall, Result, ok, err, Outcome, Triple, Triple, Outcome-map, bind-Triple, gets,
  ◌>>=◌, plain,
}
use arcpass.Worker.Relay.{Executor}
use arcpass.Worker.Lifecycle.{
  find_relay, create_relay_transaction, CreatedRelay, no_data, get_retry_count, retry_count,
  default_max_relay_attempts,
}
use arcpass.Worker.Processor.{
  ProcessResult, find_wallet, find_active_relay, invoke, must_transition, must_update,
  prepare_pending, settle, run_relay, check_retries, check_wallet, process_row, process_body,
  close_transaction, process_request, select_for_update,
}
use arcpass.Worker.Processor.Progress.{
  Never, Request, Relay, Room, transition-Request, create-Request,
}
use arcpass.Worker.Processor.Flights.{confirms, Flight, Settled, update-Flight, settle-Settled}

module _ (id wallet_id : ℕ) where
  module _ (host : Host) (execute : Executor) (count attempts : ℕ) (calls : List RelayCall)
      (relay_id : ℕ) where
    -- The call of the executor that the transaction makes.
    abbrev the_call : RelayCall
    the_call = record { request_id = id; relay_id = relay_id; attempt = attempts + 1 }

    abbrev Ready : State → Type 0
    Ready s = Room id wallet_id host attempts s × (host.new_relay_id s.db.relays ≡ relay_id)

    -- A request with room for a relay transaction, which will have the identifier `relay_id`.
    abbrev Waiting : SponsorshipStatus → State → Type 0
    Waiting status s = Request id wallet_id status count calls s × Ready s

    abbrev Tag : CreatedRelay → Type 0
    Tag c = (c.id ≡ relay_id) × (c.relay_attempt ≡ attempts + 1)

    abbrev Prepared : SponsorshipStatus → CreatedRelay → State → Type 0
    Prepared status c s = Flight id wallet_id status queued count calls relay_id s × Tag c

    approve :
        Triple Never
          (Waiting pending)
          (must_transition host id approved plain)
          (λ a. Waiting approved)
    unfolding is_valid_sponsorship_transition
    approve s (q, ready) =
        transition-Request id wallet_id host approved plain s Ready refl q
          (record { fresh = ready.0.fresh; counted_relays = ready.0.counted_relays }, ready.1)

    create :
        leb default_max_relay_attempts attempts ≡ false
        → Triple Never
            (Waiting approved)
            (create_relay_transaction host id default_max_relay_attempts)
            (Prepared approved)
    create few s (q, ready) =
        Outcome-map Never (create_relay_transaction host id default_max_relay_attempts s) _ _
          (create-Request id wallet_id host s few q ready.0)
          (λ c s' (q', x, attempt, same). (
            (q', subst (λ k. Relay id wallet_id k queued s') (same ∙ ready.1) x),
            (same ∙ ready.1, attempt),
          ))

    set_relayed :
        (c : CreatedRelay)
        → Triple Never
            (Prepared approved c)
            (must_transition host id relayed plain)
            (λ a. Prepared relayed c)
    unfolding is_valid_sponsorship_transition
    set_relayed c s ((q, x), tag) =
        Outcome-map Never (must_transition host id relayed plain s) _ _
          (transition-Request id wallet_id host relayed plain s (Relay id wallet_id relay_id queued)
            refl q
            (record {
              relay = x.relay;
              relay_found = x.relay_found;
              relay_status = x.relay_status;
            }))
          (λ a s' h. (h, tag))

    prepare_pending-Prepared :
        leb default_max_relay_attempts attempts ≡ false
        → Triple Never (Waiting pending) (prepare_pending host id) (Prepared relayed)
    unfolding prepare_pending
    prepare_pending-Prepared few =
        bind-Triple Never _ _ _ (λ a. Waiting approved) _ approve
          (λ _.
            bind-Triple Never _ _ _ (Prepared approved) _ (create few) (λ c.
              bind-Triple Never _ _ _ (λ a. Prepared relayed c) _ (set_relayed c) (λ _ s h. h)))

    abbrev Final : ProcessResult → State → Type 0
    Final =
        Settled id wallet_id (confirms (execute the_call)) count (calls ++ the_call ∷ []) relay_id

    invoke_prepared :
        (c : CreatedRelay)
        → Tag c
        → Triple Never
            (Flight id wallet_id relayed submitted count calls relay_id)
            (invoke execute (record { request_id = id; relay_id = c.id; attempt = c.relay_attempt })
              >>= λ result. settle host id wallet_id c.id result)
            Final
    unfolding invoke
    invoke_prepared c tag s (q, x) =
        rw (tag.0, tag.1)
          (settle-Settled id wallet_id host count (calls ++ the_call ∷ []) relay_id
            (execute the_call) _
            (
              record {
                row = q.row;
                found = q.found;
                in_status = q.in_status;
                wallet = q.wallet;
                owner = q.owner;
                counted = q.counted;
                called = ap (λ l. l ++ the_call ∷ []) q.called;
              },
              record {
                relay = x.relay;
                relay_found = x.relay_found;
                relay_status = x.relay_status;
              },
            ))

    submit_prepared :
        (c : CreatedRelay)
        → Tag c
        → Triple Never
            (Flight id wallet_id relayed queued count calls relay_id)
            (must_update host id c.id submitted plain no_data)
            (λ a. Flight id wallet_id relayed submitted count calls relay_id)
    unfolding is_valid_relay_transition
    submit_prepared c tag s h =
        rw tag.0
          (update-Flight id wallet_id host count calls relay_id submitted plain no_data refl s h)

    run_relay-Final :
        leb default_max_relay_attempts attempts ≡ false
        → Triple Never (Waiting pending) (run_relay host id execute pending wallet_id) Final
    unfolding run_relay
    run_relay-Final few =
        bind-Triple Never _ _ _ (Prepared relayed) _ (prepare_pending-Prepared few) (λ c s (h, tag).
          bind-Triple Never _ _ _ (λ a. Flight id wallet_id relayed submitted count calls relay_id)
            _ (submit_prepared c tag) (λ _. invoke_prepared c tag) s h)

abbrev pub Goal :
    (id wallet_id relay_id count : ℕ)
    → List RelayCall
    → RelayCall
    → Executor
    → ProcessResult × State
    → Type 0
Goal id wallet_id relay_id count calls call execute (result, s) =
    Settled id wallet_id (confirms (execute call)) count (calls ++ call ∷ []) relay_id result s

close_transaction-Goal :
    (id : ℕ) (d : Database) (r : Result ProcessResult × State) (Q : ProcessResult → State → Type 0)
    → Outcome Never Q r
    → Q (close_transaction id true d r).0 (close_transaction id true d r).1
close_transaction-Goal id d (ok result, s) Q h = h
close_transaction-Goal id d (err e, s) Q h = absurd h

-- A pending request is settled by one call, if no other transaction has it locked, its wallet is
-- there and not blocked, it has no submitted or confirmed relay transaction, and fewer relay
-- transactions than both `maxRetries` and the three that are ever made, the identifier of the new
-- relay transaction is not taken, and the transaction commits. The call reports `completed` if the
-- relay succeeds or fails with `AlreadySponsored`, and `failed` otherwise; the request has that
-- status, the new relay transaction is confirmed or failed with it, the wallet's count is one
-- higher or as before, and the executor has been called exactly once, for the next attempt.
pub process_request-settles :
    (host : Host) (execute : Database → Executor) (locked : ℕ → Bool) (max_retries id : ℕ)
    (s : State) (row : SponsorshipRequest) (wallet : Wallet)
    → select_for_update locked id s.db ≡ some row
    → row.status ≡ pending
    → find_wallet row.wallet_id s.db ≡ some wallet
    → wallet.is_blocked ≡ false
    → find_active_relay id s.db ≡ none
    → retry_count id s.db < max_retries
    → retry_count id s.db < default_max_relay_attempts
    → find_relay (host.new_relay_id s.db.relays) s.db ≡ none
    → Goal id row.wallet_id
        (host.new_relay_id s.db.relays)
        wallet.sponsorship_count
        s.calls
        (record {
          request_id = id;
          relay_id = host.new_relay_id s.db.relays;
          attempt = retry_count id s.db + 1;
        })
        (execute s.db)
        (process_request host execute locked true max_retries id s)
unfolding process_request process_body process_row check_wallet check_retries get_retry_count
    select_for_update
process_request-settles host execute locked max_retries id s row wallet selected status owner free
      inactive below few fresh =
    rw (selected, gets)
      (rw status (
        rw owner (
          rw free (
            rw inactive (
              rw (lt→leb_false max_retries (retry_count id s.db) below) (
                close_transaction-Goal id s.db _
                  (λ result s'.
                    Goal id row.wallet_id relay_id wallet.sponsorship_count s.calls call
                      (execute s.db) (result, s'))
                  (run_relay-Final id row.wallet_id host (execute s.db) wallet.sponsorship_count
                    (retry_count id s.db) s.calls relay_id
                    (lt→leb_false default_max_relay_attempts (retry_count id s.db) few) s
                    (
                      record {
                        row = row;
                        found = ground arith;
                        in_status = status;
                        wallet = wallet;
                        owner = owner;
                        counted = refl;
                        called = refl;
                      },
                      (record { fresh = fresh; counted_relays = refl }, refl),
                    ))))))))
  where
    relay_id : ℕ
    relay_id = host.new_relay_id s.db.relays

    call : RelayCall
    call = record { request_id = id; relay_id = relay_id; attempt = retry_count id s.db + 1 }
