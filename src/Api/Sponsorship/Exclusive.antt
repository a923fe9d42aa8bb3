-- ===== src/Api/Sponsorship/Exclusive.antt =====
-- No wallet has two requests that are under way or completed: what the API and the worker keep.
use arcpass.Prelude.{
  ℕ, ◌≤◌, ◌≡◌, refl, Bool, true, ◌&&◌, ◌||◌, Option, none, some, List, [], ◌∷◌, ◌==◌, ==_iff, any,
  Bool-cases, Text, arith, Option-cases, inl, inr,
}
use arcpass.SponsorshipTypes.{
  SponsorshipStatus, pending, completed, sponsorship_eq, is_valid_sponsorship_transition,
}
use arcpass.Store.{Database, SponsorshipRequest}
use arcpass.Store.Table.{count_rows, count-append, count-update, find_first, update_row}
use arcpass.Worker.Tx.{State, Host}
use arcpass.Worker.Relay.{Executor}
use arcpass.Worker.Lifecycle.{RequestTimestamp, set_status, find_request, write_request}
use arcpass.Worker.Processor.{process_request, explain_blocked}
use arcpass.Worker.Processor.Traces.{process_request-Steps}
use arcpass.Worker.Steps.{
  Step, Steps, here, next, transitioned, explained, relay_created, relay_updated, counted,
}
use arcpass.Worker.Steps.Safety.{set_status-status, set_status-wallet_id}
use arcpass.Api.Errors.{Result, ok, err}
use arcpass.Api.Actions.{Action, ApiStore, pure, ◌>>=◌}
use arcpass.Api.Sponsorship.{
  is_in_progress, is_active_of, is_done_of, new_request, fits_row, find_eligible, insert_request,
  create_sponsorship_request, update_sponsorship_status, status_update, status_timestamp_map,
  valid_transitions,
}
use arcpass.Api.Sponsorship.Transitions.{valid_transition}
use arcpass.Api.Sponsorship.Eligibility.{Created, create_sponsorship_request-Created}

abbrev pub is_live : SponsorshipStatus → Bool
is_live status = is_in_progress status || sponsorship_eq status completed

abbrev pub is_live_of : ℕ → SponsorshipRequest → Bool
is_live_of wallet_id r = (r.wallet_id == wallet_id) && is_live r.status

abbrev pub live_of : ℕ → Database → ℕ
live_of wallet_id d = count_rows (is_live_of wallet_id) d.requests

abbrev pub IsExclusive : Database → Type 0
IsExclusive d = (v : ℕ) → live_of v d ≤ 1

-- A wallet without active and without completed requests has none that is live.
none-live :
    (v : ℕ) (rs : List SponsorshipRequest)
    → find_first (is_active_of v) rs ≡ none
    → find_first (is_done_of v) rs ≡ none
    → count_rows (is_live_of v) rs ≡ 0
none-live v [] a d = refl
none-live v (r ∷ rs) a d = ground (arith, none-live v rs)

create-IsExclusive :
    (new_request_id : List SponsorshipRequest → ℕ) (now : ℕ) (address : Text)
    (ip_address user_agent : Option Text) (s : ApiStore) (r : Result SponsorshipRequest × ApiStore)
    → Created new_request_id now address ip_address user_agent s r
    → IsExclusive s.db
    → IsExclusive r.1.db
create-IsExclusive new_request_id now address ip_address user_agent s (err e, t) (same, why) ex =
    rw same ex
create-IsExclusive new_request_id now address ip_address user_agent s (ok r, t)
      (w, eligible, fits, row, same) ex =
    rw same λ v. ground (
      arith,
      ex v,
      count-append (is_live_of v) s.db.requests r,
      none-live w.id s.db.requests eligible.idle eligible.unserved,
      row,
      ==_iff w.id v,
    )

count-update_same :
    {A : Type 0} (key : A → ℕ) (p : A → Bool) (k : ℕ) (f : A → A) (xs : List A)
    → ((x : A) → p (f x) ≡ p x)
    → count_rows p (update_row key k f xs) ≡ count_rows p xs
count-update_same key p k f [] h = refl
count-update_same key p k f (x ∷ xs) h = ground (arith, h x, count-update_same key p k f xs h)

live_of-set_status :
    (v id : ℕ) (new : SponsorshipStatus) (stamp : Option (RequestTimestamp × ℕ)) (d : Database)
    (r : SponsorshipRequest)
    → find_request id d ≡ some r
    → is_valid_sponsorship_transition r.status new ≡ true
    → live_of v (write_request id (set_status new stamp) d) ≤ live_of v d
unfolding is_valid_sponsorship_transition
live_of-set_status v id new stamp d r found valid = ground (
  arith,
  count-update (λ r. r.id) (is_live_of v) id (set_status new stamp) d.requests r found,
  set_status-status new stamp r,
  set_status-wallet_id new stamp r,
)

Step-live : (v id : ℕ) {d e : Database} → Step id d e → live_of v e ≤ live_of v d
Step-live v id {d} (transitioned r new stamp found valid field) =
    live_of-set_status v id new stamp d r found valid
Step-live v id {d} explained =
    omega (
      arith,
      count-update_same (λ r. r.id) (is_live_of v) id explain_blocked d.requests (λ r. refl),
    )
Step-live v id (relay_created relay_id attempt) = omega arith
Step-live v id (relay_updated relay_id r new stamp relay_data found valid) = omega arith
Step-live v id (counted wallet_id) = omega arith

Steps-live : (v id : ℕ) {d e : Database} → Steps id d e → live_of v e ≤ live_of v d
Steps-live v id here = omega arith
Steps-live v id (next steps step) = omega (arith, Steps-live v id steps, Step-live v id step)

stamped : ℕ → Option RequestTimestamp → Option (RequestTimestamp × ℕ)
stamped now none = none
stamped now (some field) = some (field, now)

status_update-eq :
    (new : SponsorshipStatus) (now : ℕ) (m : Option RequestTimestamp)
    → status_update new now m ≡ set_status new (stamped now m)
unfolding stamped
status_update-eq new now none = refl
status_update-eq new now (some field) = refl

pub update-live :
    (v now id : ℕ) (new : SponsorshipStatus) (s : ApiStore)
    → live_of v (update_sponsorship_status now id new s).1.db ≤ live_of v s.db
unfolding update_sponsorship_status
update-live v now id new s = elim (Option-cases (find_request id s.db)) [
  | inl missing ↦ rw missing (omega arith)
  | inr (r, found) ↦
      rw found (elim (Bool-cases (any (sponsorship_eq new) (valid_transitions r.status))) [
        | inl valid ↦ rw valid (
            rw (status_update-eq new now (status_timestamp_map new)) (
              live_of-set_status v id new (stamped now (status_timestamp_map new)) s.db r found
                (valid_transition r.status new valid)))
        | inr wrong ↦ rw wrong (omega arith)
      ])
]

-- What each call keeps.
pub create_sponsorship_request-IsExclusive :
    (new_request_id : List SponsorshipRequest → ℕ) (now : ℕ) (address : Text)
    (ip_address user_agent : Option Text) (s : ApiStore)
    → IsExclusive s.db
    → IsExclusive
        (create_sponsorship_request new_request_id now address ip_address user_agent s).1.db
create_sponsorship_request-IsExclusive new_request_id now address ip_address user_agent s ex =
    create-IsExclusive new_request_id now address ip_address user_agent s _
      (create_sponsorship_request-Created new_request_id now address ip_address user_agent s) ex

pub process_request-live :
    (v : ℕ) (host : Host) (execute : Database → Executor) (locked : ℕ → Bool) (commits : Bool)
    (max_retries id : ℕ) (s : State)
    → live_of v (process_request host execute locked commits max_retries id s).1.db ≤ live_of v s.db
process_request-live v host execute locked commits max_retries id s =
    Steps-live v id (process_request-Steps host execute locked commits max_retries id s)

abbrev pub is_pending_of : ℕ → SponsorshipRequest → Bool
is_pending_of wallet_id r = (r.wallet_id == wallet_id) && sponsorship_eq r.status pending

abbrev pub pending_of : ℕ → Database → ℕ
pending_of wallet_id d = count_rows (is_pending_of wallet_id) d.requests

-- The headers of a call and the time of its row.
pub record Creation : Type 0 where
  pub now : ℕ
  pub ip_address : Option Text
  pub user_agent : Option Text

module _ (new_request_id : List SponsorshipRequest → ℕ) (address : Text) (a b : Creation) where
  abbrev insert : Creation → ℕ → Action SponsorshipRequest
  insert c wallet_id = insert_request new_request_id c.now wallet_id c.ip_address c.user_agent

  -- Both calls make their checks before either writes.
  abbrev pub create_both : Action (SponsorshipRequest × SponsorshipRequest)
  create_both = do
    w ← find_eligible address
    v ← find_eligible address
    r ← insert a w.id
    q ← insert b v.id
    pure (r, q)

  abbrev FitsRow : Creation → Type 0
  FitsRow c = fits_row (new_request 0 0 c.now c.ip_address c.user_agent) ≡ true
