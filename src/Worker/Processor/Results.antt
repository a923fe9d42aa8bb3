-- ===== src/Worker/Processor/Results.antt =====
-- What the result of `processRequest` says about the database, and the wallets' accounts.
use arcpass.Prelude.{ℕ, ◌≡◌, refl, Bool, true, false, none, some, arith, inl, inr, Option-cases}
use mathlib.Core.Logic.{◌⊎◌}
use arcpass.Store.{Database, SponsorshipRequest}
use arcpass.Worker.Tx.{State, Host, Result, ok, err, Outcome}
use arcpass.Worker.Relay.{Executor}
use arcpass.Worker.Lifecycle.{find_request}
use arcpass.Worker.Processor.{
  ProcessResult, select_for_update, process_row, process_body, close_transaction, process_request,
}
use arcpass.Worker.Processor.Accounting.{IsBalanced, completed_of, count_of}
use arcpass.Worker.Processor.Settling.{Any, Reports, process_body-Settles}

-- What is true of a result and the database that it leaves, if the row was selected.
abbrev pub Told : ℕ → Database → ProcessResult × State → Type 0
Told id d (result, s) =
    ((result.success ≡ false) × (s.db ≡ d))
    ⊎ ((result.success ≡ true)
        × ((r : SponsorshipRequest) × (find_request id s.db ≡ some r)
            × (r.status ≡ result.final_status)))

close_transaction-Told :
    (id wallet_id : ℕ) (commits : Bool) (d : Database) (r : Result ProcessResult × State)
    → Outcome Any (Reports (λ v. count_of v d) (λ v. completed_of v d) id wallet_id) r
    → Told id d (close_transaction id commits d r)
close_transaction-Told id wallet_id true d (ok result, s) (at, success) =
    inr (success, (at.row, at.found, at.in_status))
close_transaction-Told id wallet_id false d (ok result, s) h = inl (refl, refl)
close_transaction-Told id wallet_id true d (err e, s) h = inl (refl, refl)
close_transaction-Told id wallet_id false d (err e, s) h = inl (refl, refl)

close_transaction-IsBalanced :
    (id wallet_id : ℕ) (commits : Bool) (d : Database) (r : Result ProcessResult × State)
    → IsBalanced d
    → Outcome Any (Reports (λ v. count_of v d) (λ v. completed_of v d) id wallet_id) r
    → IsBalanced (close_transaction id commits d r).1.db
close_transaction-IsBalanced id wallet_id true d (ok result, s) b (at, success) =
    λ v. ground (arith, at.balance v, b v)
close_transaction-IsBalanced id wallet_id false d (ok result, s) b h = b
close_transaction-IsBalanced id wallet_id true d (err e, s) b h = b
close_transaction-IsBalanced id wallet_id false d (err e, s) b h = b

module _ (host : Host) (execute : Database → Executor) (locked : ℕ → Bool) (commits : Bool)
    (max_retries id : ℕ) (s : State) where
  process_request-unselected :
      select_for_update locked id s.db ≡ none
      → (process_request host execute locked commits max_retries id s).1.db ≡ s.db
  unfolding process_request process_body process_row
  process_request-unselected missing = ground arith

  IsBalanced-of_selected :
      (row : SponsorshipRequest)
      → select_for_update locked id s.db ≡ some row
      → IsBalanced s.db
      → IsBalanced (process_request host execute locked commits max_retries id s).1.db
  unfolding process_request
  IsBalanced-of_selected row selected b =
      close_transaction-IsBalanced id row.wallet_id commits s.db _ b
        (process_body-Settles host (execute s.db) id max_retries locked row s selected)

  -- If the request is there and no other transaction has it locked: a result without success
  -- leaves the database exactly as it was, and a result with success gives as its final status
  -- the status that the request has in the database afterwards.
  pub process_request-result :
      (row : SponsorshipRequest)
      → select_for_update locked id s.db ≡ some row
      → Told id s.db (process_request host execute locked commits max_retries id s)
  unfolding process_request
  process_request-result row selected =
      close_transaction-Told id row.wallet_id commits s.db _
        (process_body-Settles host (execute s.db) id max_retries locked row s selected)

  -- If every wallet's `sponsorshipCount` is the number of its completed requests, this holds again
  -- after the call, however it ends: also when it skips, throws or is rolled back.
  pub process_request-IsBalanced :
      IsBalanced s.db
      → IsBalanced (process_request host execute locked commits max_retries id s).1.db
  process_request-IsBalanced b = elim (Option-cases (select_for_update locked id s.db)) [
    | inl missing ↦ rw (process_request-unselected missing) b
    | inr (row, selected) ↦ IsBalanced-of_selected row selected b
  ]
