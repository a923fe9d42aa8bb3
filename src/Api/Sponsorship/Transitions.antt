-- ===== src/Api/Sponsorship/Transitions.antt =====
-- The API's guarded status update beside the worker's.
use arcpass.Prelude.{ℕ, ◌≡◌, refl, ap, Bool, some, arith, true, false, any, Option-cases, inl, inr}
use arcpass.SponsorshipTypes.{
  SponsorshipStatus, pending, approved, rejected, relayed, completed, sponsorship_eq,
  valid_sponsorship_transitions, is_valid_sponsorship_transition,
}
use arcpass.Store.{Database, SponsorshipRequest}
use arcpass.Worker.Tx
use arcpass.Worker.Tx.{State, Host}
use arcpass.Worker.Lifecycle.{
  TransitionResult, success, failure, find_request, write_request, transition_sponsorship_status,
  transition_found,
}
use arcpass.Api.Errors.{Result, ok, err}
use arcpass.Api.Actions.{ApiStore}
use arcpass.Api.Sponsorship.{
  valid_transitions, status_timestamp_map, status_update, update_status_of,
  update_sponsorship_status,
}

-- The two tables are one.
valid_transitions-eq :
    (current : SponsorshipStatus)
    → valid_transitions current ≡ valid_sponsorship_transitions current
unfolding valid_transitions valid_sponsorship_transitions
valid_transitions-eq pending = refl
valid_transitions-eq approved = refl
valid_transitions-eq rejected = refl
valid_transitions-eq relayed = refl
valid_transitions-eq completed = refl
valid_transitions-eq SponsorshipStatus.failed = refl

pub valid_transition :
    (current new : SponsorshipStatus)
    → any (sponsorship_eq new) (valid_transitions current) ≡ true
    → is_valid_sponsorship_transition current new ≡ true
unfolding is_valid_sponsorship_transition
valid_transition current new h = rw (← valid_transitions-eq current) h

-- A transition of the table from the status that the request has.
pub record IsValidFor (id : ℕ) (new : SponsorshipStatus) (d : Database) : Type 0 where
  pub request : SponsorshipRequest
  pub found : find_request id d ≡ some request
  pub valid : is_valid_sponsorship_transition request.status new ≡ true

-- One end of the API's update beside one of the worker's, both from the database `d`.
abbrev pub Agree :
    ℕ
    → SponsorshipStatus
    → Database
    → Result SponsorshipRequest × ApiStore
    → arcpass.Worker.Tx.Result TransitionResult × State
    → Type 0
Agree id new d (ok r, s) (arcpass.Worker.Tx.ok success, t) =
    IsValidFor id new d × (s.db ≡ t.db) × (r.status ≡ new)
Agree id new d (err e, s) (arcpass.Worker.Tx.ok (failure f), t) =
    ¬ IsValidFor id new d × (s.db ≡ d) × (t.db ≡ d)
Agree id new d _ _ = ⊥

Agree-found :
    (host : Host) (id : ℕ) (new : SponsorshipStatus) (s : ApiStore) (t : State)
    (r : SponsorshipRequest) (b : Bool)
    → s.db ≡ t.db
    → find_request id t.db ≡ some r
    → is_valid_sponsorship_transition r.status new ≡ b
    → Agree id new t.db
        (update_status_of (host.clock t.reads) id new r s)
        (transition_found host id new r t)
unfolding transition_found is_valid_sponsorship_transition
Agree-found host id pending s t r true same found valid =
    rw (valid_transitions-eq r.status, valid)
      (
        record { request = r; found = found; valid = valid },
        ap
            (write_request id
              (status_update pending (host.clock t.reads) (status_timestamp_map pending)))
            same,
        refl,
      )
Agree-found host id approved s t r true same found valid =
    rw (valid_transitions-eq r.status, valid)
      (
        record { request = r; found = found; valid = valid },
        ap
            (write_request id
              (status_update approved (host.clock t.reads) (status_timestamp_map approved)))
            same,
        refl,
      )
Agree-found host id rejected s t r true same found valid =
    rw (valid_transitions-eq r.status, valid)
      (
        record { request = r; found = found; valid = valid },
        ap
            (write_request id
              (status_update rejected (host.clock t.reads) (status_timestamp_map rejected)))
            same,
        refl,
      )
Agree-found host id relayed s t r true same found valid =
    rw (valid_transitions-eq r.status, valid)
      (
        record { request = r; found = found; valid = valid },
        ap
            (write_request id
              (status_update relayed (host.clock t.reads) (status_timestamp_map relayed)))
            same,
        refl,
      )
Agree-found host id completed s t r true same found valid =
    rw (valid_transitions-eq r.status, valid)
      (
        record { request = r; found = found; valid = valid },
        ap
            (write_request id
              (status_update completed (host.clock t.reads) (status_timestamp_map completed)))
            same,
        refl,
      )
Agree-found host id SponsorshipStatus.failed s t r true same found valid =
    rw (valid_transitions-eq r.status, valid)
      (
        record { request = r; found = found; valid = valid },
        ap
            (write_request id (
              status_update SponsorshipStatus.failed (host.clock t.reads)
                (status_timestamp_map SponsorshipStatus.failed)))
            same,
        refl,
      )
Agree-found host id new s t r false same found invalid =
    rw (valid_transitions-eq r.status, invalid) (refused, same, refl)
  where
    refused : ¬ IsValidFor id new t.db
    refused v = ground (arith, found, invalid, v.found, v.valid)

-- updateSponsorshipStatus of the API and transitionSponsorshipStatus of the worker do the same: on
-- equal databases and at one time, either both succeed, the request is there and the transition valid,
-- and the two databases are equal afterwards; or both fail, it is not there or the transition is not
-- valid, and both leave the database as it was.
pub update_sponsorship_status-Agree :
    (host : Host) (id : ℕ) (new : SponsorshipStatus) (s : ApiStore) (t : State)
    → s.db ≡ t.db
    → Agree id new t.db
        (update_sponsorship_status (host.clock t.reads) id new s)
        (transition_sponsorship_status host id new t)
unfolding update_sponsorship_status transition_sponsorship_status
update_sponsorship_status-Agree host id new s t same = elim (Option-cases (find_request id t.db)) [
  | inl missing ↦
      rw (ap (find_request id) same, missing) (λ v. ground (arith, missing, v.found), same, refl)
  | inr (r, found) ↦
      rw (ap (find_request id) same, found)
        (Agree-found host id new s t r (is_valid_sponsorship_transition r.status new) same found
          refl)
]
