-- ===== src/Worker/Steps/Safety.antt =====
-- What no sequence of single writes can do: break the tables of transitions, touch another
-- request, or leave a status without its timestamps.
use arcpass.Prelude.{
  ℕ, ◌≡◌, refl, sym, ◌≢◌, ◌∙◌, subst, Bool, true, false, Option, none, some, arith, All,
}
use mathlib.Core.Option.{some-injective}
use arcpass.SponsorshipTypes.{
  sponsorship_eq, SponsorshipStatus, pending, rejected, completed, is_valid_sponsorship_transition,
}
use arcpass.SponsorshipTypes.Reach.{Reach, Reach-trans}
use arcpass.Store.{Database, SponsorshipRequest}
use arcpass.Store.Table.{find_unique-update_self, find_unique-update_ne, All-update}
use arcpass.Worker.Lifecycle.{
  RequestTimestamp, approved_at, rejected_at, completed_at, failed_at, status_timestamp_field,
  set_status, find_request,
}
use arcpass.Worker.Processor.{explain_blocked}
use arcpass.Worker.Steps.{
  field_of, Step, Steps, here, next, transitioned, explained, relay_created, relay_updated, counted,
}

pub set_status-status :
    (new : SponsorshipStatus) (stamp : Option (RequestTimestamp × ℕ)) (r : SponsorshipRequest)
    → (set_status new stamp r).status ≡ new
set_status-status new none r = refl
set_status-status new (some (approved_at, t)) r = refl
set_status-status new (some (rejected_at, t)) r = refl
set_status-status new (some (completed_at, t)) r = refl
set_status-status new (some (failed_at, t)) r = refl

pub set_status-wallet_id :
    (new : SponsorshipStatus) (stamp : Option (RequestTimestamp × ℕ)) (r : SponsorshipRequest)
    → (set_status new stamp r).wallet_id ≡ r.wallet_id
set_status-wallet_id new none r = refl
set_status-wallet_id new (some (approved_at, t)) r = refl
set_status-wallet_id new (some (rejected_at, t)) r = refl
set_status-wallet_id new (some (completed_at, t)) r = refl
set_status-wallet_id new (some (failed_at, t)) r = refl

pub set_status-id :
    (new : SponsorshipStatus) (stamp : Option (RequestTimestamp × ℕ)) (r : SponsorshipRequest)
    → (set_status new stamp r).id ≡ r.id
set_status-id new none r = refl
set_status-id new (some (approved_at, t)) r = refl
set_status-id new (some (rejected_at, t)) r = refl
set_status-id new (some (completed_at, t)) r = refl
set_status-id new (some (failed_at, t)) r = refl

-- What stays of a request while its status moves along the table.
pub record Evolves (r r' : SponsorshipRequest) : Type 0 where
  pub status : Reach r.status r'.status
  pub wallet : r'.wallet_id ≡ r.wallet_id
  pub requested : r'.requested_at ≡ r.requested_at

Evolves-refl : {r : SponsorshipRequest} → Evolves r r
Evolves-refl = record { status = Reach.here; wallet = refl; requested = refl }

Evolves-trans : {a b c : SponsorshipRequest} → Evolves a b → Evolves b c → Evolves a c
Evolves-trans p q = record {
  status = Reach-trans p.status q.status;
  wallet = q.wallet ∙ p.wallet;
  requested = q.requested ∙ p.requested;
}

set_status-Evolves :
    (new : SponsorshipStatus) (stamp : Option (RequestTimestamp × ℕ)) (r : SponsorshipRequest)
    → is_valid_sponsorship_transition r.status new ≡ true
    → Evolves r (set_status new stamp r)
set_status-Evolves new none r v = record {
  status = Reach.step v Reach.here;
  wallet = refl;
  requested = refl;
}
set_status-Evolves new (some (approved_at, t)) r v = record {
  status = Reach.step v Reach.here;
  wallet = refl;
  requested = refl;
}
set_status-Evolves new (some (rejected_at, t)) r v = record {
  status = Reach.step v Reach.here;
  wallet = refl;
  requested = refl;
}
set_status-Evolves new (some (completed_at, t)) r v = record {
  status = Reach.step v Reach.here;
  wallet = refl;
  requested = refl;
}
set_status-Evolves new (some (failed_at, t)) r v = record {
  status = Reach.step v Reach.here;
  wallet = refl;
  requested = refl;
}

module _ {id : ℕ} where
  Step-others :
      (j : ℕ) {d e : Database} → j ≢ id → Step id d e → find_request j e ≡ find_request j d
  Step-others j {d} n (transitioned r new stamp found v st) =
      find_unique-update_ne (λ r. r.id) j id _ d.requests (set_status-id new stamp) n
  Step-others j {d} n explained = find_unique-update_ne (λ r. r.id) j id _ d.requests (λ y. refl) n
  Step-others j n (relay_created relay_id attempt) = refl
  Step-others j n (relay_updated relay_id r new stamp rd found v) = refl
  Step-others j n (counted wallet_id) = refl

  -- No other request is written.
  pub Steps-others :
      (j : ℕ) {d e : Database} → j ≢ id → Steps id d e → find_request j e ≡ find_request j d
  Steps-others j n here = refl
  Steps-others j n (next r st) = Step-others j n st ∙ Steps-others j n r

  Step-Evolves :
      {d e : Database} (r : SponsorshipRequest)
      → find_request id d ≡ some r
      → Step id d e
      → (r' : SponsorshipRequest) × (find_request id e ≡ some r') × Evolves r r'
  Step-Evolves {d} r f (transitioned q new stamp found v st) = (
    set_status new stamp q,
    find_unique-update_self (λ r. r.id) id _ d.requests q (set_status-id new stamp) found,
    subst (λ x. Evolves x (set_status new stamp q)) (some-injective _ _ (sym found ∙ f))
        (set_status-Evolves new stamp q v),
  )
  Step-Evolves {d} r f explained = (
    explain_blocked r,
    find_unique-update_self (λ r. r.id) id explain_blocked d.requests r (λ y. refl) f,
    record { status = Reach.here; wallet = refl; requested = refl },
  )
  Step-Evolves r f (relay_created relay_id attempt) = (r, f, Evolves-refl)
  Step-Evolves r f (relay_updated relay_id q new stamp rd found v) = (r, f, Evolves-refl)
  Step-Evolves r f (counted wallet_id) = (r, f, Evolves-refl)

  -- The request itself is still there, further along.
  pub Steps-Evolves :
      {d e : Database} (r : SponsorshipRequest)
      → find_request id d ≡ some r
      → Steps id d e
      → (r' : SponsorshipRequest) × (find_request id e ≡ some r') × Evolves r r'
  Steps-Evolves r f here = (r, f, Evolves-refl)
  Steps-Evolves r f (next q st) =
      let (r', f', ev') = Steps-Evolves r f q in
      let (r'', f'', ev'') = Step-Evolves r' f' st in (r'', f'', Evolves-trans ev' ev'')

-- Which timestamps a request in a status has.
abbrev pub has_approved_at : SponsorshipStatus → Bool
has_approved_at pending = false
has_approved_at rejected = false
has_approved_at _ = true

abbrev pub is_set : {A : Type 0} → Option A → Bool
is_set none = false
is_set (some a) = true

-- The timestamps of a request are those of the statuses that it has been through.
abbrev pub IsStamped : SponsorshipRequest → Type 0
IsStamped r =
    (is_set r.approved_at ≡ has_approved_at r.status)
    × (is_set r.rejected_at ≡ sponsorship_eq r.status rejected)
    × (is_set r.completed_at ≡ sponsorship_eq r.status completed)
    × (is_set r.failed_at ≡ sponsorship_eq r.status SponsorshipStatus.failed)

set_status-IsStamped :
    (new : SponsorshipStatus) (stamp : Option (RequestTimestamp × ℕ)) (r : SponsorshipRequest)
    → is_valid_sponsorship_transition r.status new ≡ true
    → field_of stamp ≡ status_timestamp_field new
    → IsStamped r
    → IsStamped (set_status new stamp r)
unfolding is_valid_sponsorship_transition
set_status-IsStamped new none r v st h = ground arith
set_status-IsStamped new (some (approved_at, t)) r v st h = ground arith
set_status-IsStamped new (some (rejected_at, t)) r v st h = ground arith
set_status-IsStamped new (some (completed_at, t)) r v st h = ground arith
set_status-IsStamped new (some (failed_at, t)) r v st h = ground arith

module _ {id : ℕ} where
  Step-IsStamped :
      {d e : Database} → Step id d e → All IsStamped d.requests → All IsStamped e.requests
  Step-IsStamped {d} (transitioned r new stamp found v st) h =
      All-update (λ r. r.id) IsStamped id (set_status new stamp) d.requests
        (λ x e p.
          set_status-IsStamped new stamp x
            (subst (λ y. is_valid_sponsorship_transition y.status new ≡ true)
              (some-injective _ _ (sym found ∙ e)) v)
            st p)
        h
  Step-IsStamped {d} explained h =
      All-update (λ r. r.id) IsStamped id explain_blocked d.requests (λ x e p. p) h
  Step-IsStamped (relay_created relay_id attempt) h = h
  Step-IsStamped (relay_updated relay_id q new stamp rd found v) h = h
  Step-IsStamped (counted wallet_id) h = h

  pub Steps-IsStamped :
      {d e : Database} → Steps id d e → All IsStamped d.requests → All IsStamped e.requests
  Steps-IsStamped here h = h
  Steps-IsStamped (next r st) h = Step-IsStamped st (Steps-IsStamped r h)
