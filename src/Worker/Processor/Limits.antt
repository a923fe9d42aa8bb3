-- ===== src/Worker/Processor/Limits.antt =====
-- The two limits on the attempts: `maxRetries`, which the processor tests, and the three relay
-- transactions that `createRelayTransaction` allows by default, whatever the configuration says.
use arcpass.Prelude.{ℕ, ◌≤◌, ◌<◌, ◌≡◌, refl, Bool, false, none, some, arith, lt→leb_false, le→leb}
use arcpass.SponsorshipTypes.{SponsorshipStatus, pending, relayed, is_valid_sponsorship_transition}
use arcpass.Store.{Database, SponsorshipRequest}
use arcpass.Worker.Tx.{
  State, Host, transition_failed, max_relay_attempts, plain, invalid_transition, gets,
}
use arcpass.Worker.Relay.{Executor}
use arcpass.Worker.Lifecycle.{
  find_request, get_retry_count, retry_count, default_max_relay_attempts,
}
use arcpass.Worker.Lifecycle.Effects.{transition-invalid, create-full}
use arcpass.Worker.Processor.{
  failed_result, select_for_update, is_blocked, find_wallet, find_active_relay, must_transition,
  give_up, run_relay, check_retries, check_wallet, process_row, process_body, process_request,
}

module _ (host : Host) (execute : Database → Executor) (locked : ℕ → Bool) (commits : Bool)
    (max_retries id : ℕ) (s : State) (row : SponsorshipRequest)
    (selected : select_for_update locked id s.db ≡ some row)
    (free : is_blocked (find_wallet row.wallet_id s.db) ≡ false)
    (inactive : find_active_relay id s.db ≡ none) where
  found_of_selected : find_request id s.db ≡ some row
  unfolding select_for_update
  found_of_selected = ground arith

  -- A pending request that is neither locked nor blocked and has no submitted or confirmed relay
  -- transaction, but as many relay transactions as `maxRetries`, is never brought to `failed`, as
  -- the code means to do: `pending` cannot become `failed`, so the call throws, reports
  -- `pending`, and leaves the database exactly as it was, however often it is repeated.
  pub process_request-stuck_pending :
      row.status ≡ pending
      → max_retries ≤ retry_count id s.db
      → ((process_request host execute locked commits max_retries id s).0
          ≡ failed_result id (
              transition_failed SponsorshipStatus.failed plain
                (invalid_transition pending SponsorshipStatus.failed)))
        × ((process_request host execute locked commits max_retries id s).1.db ≡ s.db)
  unfolding process_request process_body process_row check_wallet check_retries get_retry_count
      give_up must_transition is_valid_sponsorship_transition
  process_request-stuck_pending status full =
      rw (selected, gets)
        (rw status (
          rw free (
            rw inactive (
              rw (le→leb max_retries (retry_count id s.db) full) (
                rw
                  (transition-invalid host id SponsorshipStatus.failed s row found_of_selected
                    (rw status))
                  (rw status (refl, refl)))))))

  -- A relayed request in the same situation with three relay transactions, where `maxRetries`
  -- allows more, is not tried again: the call throws for the limit of three, and leaves the
  -- database exactly as it was, however often it is repeated.
  pub process_request-stuck_relayed :
      row.status ≡ relayed
      → default_max_relay_attempts ≤ retry_count id s.db
      → retry_count id s.db < max_retries
      → ((process_request host execute locked commits max_retries id s).0
          ≡ failed_result id (max_relay_attempts default_max_relay_attempts id))
        × ((process_request host execute locked commits max_retries id s).1.db ≡ s.db)
  unfolding process_request process_body process_row check_wallet check_retries get_retry_count
      run_relay
  process_request-stuck_relayed status full below =
      rw (selected, gets)
        (rw status (
          rw inactive (
            rw (lt→leb_false max_retries (retry_count id s.db) below) (
              rw
                (create-full host id default_max_relay_attempts s
                  (le→leb default_max_relay_attempts (retry_count id s.db) full))
                (refl, refl)))))
