-- ===== src/Worker/Processor/Safety.antt =====
-- What a call of `processRequest` can never do, however it ends.
use arcpass.Prelude.{ℕ, ◌≡◌, ◌≢◌, Bool, some, All}
use arcpass.Store.{Database, SponsorshipRequest}
use arcpass.Worker.Tx.{State, Host}
use arcpass.Worker.Relay.{Executor}
use arcpass.Worker.Lifecycle.{find_request}
use arcpass.Worker.Processor.{process_request}
use arcpass.Worker.Processor.Traces.{process_request-Steps}
use arcpass.Worker.Steps.Safety.{Evolves, Steps-others, Steps-Evolves, IsStamped, Steps-IsStamped}

module _ (host : Host) (execute : Database → Executor) (locked : ℕ → Bool) (commits : Bool)
    (max_retries id : ℕ) (s : State) where
  -- Whether the call commits, throws or is rolled back: the request that was asked for is found
  -- again, with the same wallet and request time, in a status that the table of valid transitions
  -- reaches from its status before; and every other request is exactly as it was.
  pub process_request-Evolves :
      (r : SponsorshipRequest)
      → find_request id s.db ≡ some r
      → ((r' : SponsorshipRequest) × (find_request id
              (process_request host execute locked commits max_retries id s).1.db
            ≡ some r')
          × Evolves r r')
        × ((j : ℕ)
            → j ≢ id
            → find_request j (process_request host execute locked commits max_retries id s).1.db
              ≡ find_request j s.db)
  process_request-Evolves r found =
      let run = process_request-Steps host execute locked commits max_retries id s in
      (Steps-Evolves r found run, λ j n. Steps-others j n run)

  -- If in every request the timestamps that are set are those of the statuses that lead to its
  -- status, this holds again after the call, however it ends.
  pub process_request-IsStamped :
      All IsStamped s.db.requests
      → All IsStamped (process_request host execute locked commits max_retries id s).1.db.requests
  process_request-IsStamped h =
      Steps-IsStamped (process_request-Steps host execute locked commits max_retries id s) h
