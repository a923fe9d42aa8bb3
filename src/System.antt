-- ===== src/System.antt =====
-- The API (apps/api) and the worker (apps/worker) at work on one database, call by call.
use arcpass.Prelude.{ℕ, ◌≤◌, ◌≡◌, refl, Bool, Option, none, some, List, [], ◌∷◌, Text, arith}
use arcpass.SponsorshipTypes.{SponsorshipStatus}
use arcpass.Store.{Database, Wallet, SponsorshipRequest}
use arcpass.Store.Table.{count_rows}
use arcpass.Worker.Tx.{Host, RelayCall}
use arcpass.Worker.Relay.{Executor}
use arcpass.Worker.Processor.{process_request}
use arcpass.Worker.Processor.Accounting.{is_completed_of, completed_of}
use arcpass.Api.Errors.{Result, ok, err}
use arcpass.Api.Actions.{ApiStore, then_run, gets, ◌>>=◌}
use arcpass.Api.Wallets.{register_wallet, register_found, normalize_wallet_address, find_address}
use arcpass.Api.Sponsorship.{create_sponsorship_request, update_sponsorship_status}
use arcpass.Api.Sponsorship.Exclusive.{
  is_live_of, live_of, IsExclusive, create_sponsorship_request-IsExclusive, update-live,
  process_request-live,
}

-- The calls that write requests or wallets, each with what the platform answers.
pub data Call : Type 0 where
  registers : (new_wallet_id : List Wallet → ℕ) (now : ℕ) (raw_address : Option Text) → Call
  creates :
      (new_request_id : List SponsorshipRequest → ℕ) (now : ℕ) (address : Text)
      (ip_address user_agent : Option Text)
      → Call
  updates : (now id : ℕ) (new : SponsorshipStatus) → Call
  processes :
      (host : Host) (execute : Database → Executor) (locked : ℕ → Bool) (commits : Bool)
      (max_retries id reads : ℕ) (calls : List RelayCall)
      → Call

abbrev pub api_store : Database → ApiStore
api_store d = record { db = d; limits = [] }

unfoldable pub make_call : Call → Database → Database
make_call (registers new_wallet_id now raw_address) d =
    (register_wallet new_wallet_id now raw_address (api_store d)).1.db
make_call (creates new_request_id now address ip_address user_agent) d =
    (create_sponsorship_request new_request_id now address ip_address user_agent (api_store d)).1.db
make_call (updates now id new) d = (update_sponsorship_status now id new (api_store d)).1.db
make_call (processes host execute locked commits max_retries id reads calls) d =
    (process_request host execute locked commits max_retries id
      (record { db = d; reads = reads; calls = calls })).1.db

abbrev pub make_calls : List Call → Database → Database
make_calls [] d = d
make_calls (c ∷ cs) d = make_calls cs (make_call c d)

register_wallet-requests :
    (new_wallet_id : List Wallet → ℕ) (now : ℕ) (raw_address : Option Text) (s : ApiStore)
    → (register_wallet new_wallet_id now raw_address s).1.db.requests ≡ s.db.requests
unfolding register_wallet
register_wallet-requests new_wallet_id now raw_address s =
    by_address (normalize_wallet_address raw_address)
  where
    by_found :
        (address : Text) (o : Option Wallet)
        → (register_found new_wallet_id now address o s).1.db.requests ≡ s.db.requests
    by_found address none = refl
    by_found address (some w) = ground arith

    by_address :
        (r : Result Text)
        → (then_run
            (r, s)
            (λ address.
              gets (λ s. find_address address s.db)
              >>= register_found new_wallet_id now address)).1.db.requests
          ≡ s.db.requests
    by_address (err e) = refl
    by_address (ok address) = by_found address (find_address address s.db)

make_call-IsExclusive : (c : Call) (d : Database) → IsExclusive d → IsExclusive (make_call c d)
unfolding make_call
make_call-IsExclusive (registers new_wallet_id now raw_address) d ex =
    λ v. omega (arith, ex v, register_lem v)
  where
    register_lem :
        (v : ℕ)
        → live_of v (register_wallet new_wallet_id now raw_address (api_store d)).1.db ≡ live_of v d
    register_lem v = rw (register_wallet-requests new_wallet_id now raw_address (api_store d)) refl
make_call-IsExclusive (creates new_request_id now address ip_address user_agent) d ex =
    create_sponsorship_request-IsExclusive new_request_id now address ip_address user_agent
      (api_store d) ex
make_call-IsExclusive (updates now id new) d ex =
    λ v. omega (arith, ex v, update-live v now id new (api_store d))
make_call-IsExclusive (processes host execute locked commits max_retries id reads calls) d ex = λ v.
    omega (
      arith,
      ex v,
      process_request-live v host execute locked commits max_retries id
          (record { db = d; reads = reads; calls = calls }),
    )

make_calls-IsExclusive :
    (cs : List Call) (d : Database) → IsExclusive d → IsExclusive (make_calls cs d)
make_calls-IsExclusive [] d ex = ex
make_calls-IsExclusive (c ∷ cs) d ex =
    make_calls-IsExclusive cs (make_call c d) (make_call-IsExclusive c d ex)

completed-le-live :
    (v : ℕ) (rs : List SponsorshipRequest)
    → count_rows (is_completed_of v) rs ≤ count_rows (is_live_of v) rs
completed-le-live v [] = omega arith
completed-le-live v (r ∷ rs) = ground (arith, completed-le-live v rs)

-- Registrations, requests for sponsorship, status updates and runs of the worker, in any number and
-- order, each call as a whole: if no wallet has more than one request that is pending, approved,
-- relayed or completed, this stays so, and so no wallet ever has two completed requests.
pub make_calls-once :
    (cs : List Call) (d : Database)
    → IsExclusive d
    → IsExclusive (make_calls cs d) × ((v : ℕ) → completed_of v (make_calls cs d) ≤ 1)
make_calls-once cs d ex = (
  make_calls-IsExclusive cs d ex,
  λ v.
      omega
        (arith, make_calls-IsExclusive cs d ex v, completed-le-live v (make_calls cs d).requests),
)
