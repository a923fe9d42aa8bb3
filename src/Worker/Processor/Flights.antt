-- ===== src/Worker/Processor/Flights.antt =====
-- What a relay's result makes of a request whose relay transaction is submitted.
use arcpass.Prelude.{
  ℕ, ◌+◌, ◌≡◌, refl, Bool, true, false, ◌||◌, List, if◌then◌else◌, inl, inr, Bool-cases,
}
use native.Mathlib.Nat.{add-zero}
use arcpass.SponsorshipTypes.{
  SponsorshipStatus, relayed, completed, RelayStatus, submitted, confirmed,
  is_valid_sponsorship_transition, is_valid_relay_transition,
}
use arcpass.Worker.Tx.{
  Tx, State, Host, RelayCall, Triple, Triple, bind-Triple, ◌>>=◌, Branch, plain, already_sponsored,
}
use arcpass.Worker.Relay.{RelayResult}
use arcpass.Worker.Lifecycle.{RelayData}
use arcpass.Worker.Processor.{
  ProcessResult, done, is_already_sponsored_error, must_transition, must_update, settle_success,
  settle_failure, settle, confirmed_data, already_data, failed_data,
}
use arcpass.Worker.Processor.Progress.{
  Never, Request, Relay, transition-Request, update-Request, increment-Request,
}

-- Whether a relay's result counts as a sponsored wallet.
abbrev pub confirms : RelayResult → Bool
confirms result = result.success || is_already_sponsored_error result.failure_reason

abbrev pub ending : Bool → SponsorshipStatus
ending true = completed
ending false = SponsorshipStatus.failed

abbrev pub relay_ending : Bool → RelayStatus
relay_ending true = confirmed
relay_ending false = RelayStatus.failed

module _ (id wallet_id : ℕ) where
  -- A request in a status, with a relay transaction in another.
  abbrev pub Flight : SponsorshipStatus → RelayStatus → ℕ → List RelayCall → ℕ → State → Type 0
  Flight status relay_status count calls relay_id s =
      Request id wallet_id status count calls s × Relay id wallet_id relay_id relay_status s

  -- What is left at the end: the request, its relay transaction and the wallet's count.
  abbrev pub Settled : Bool → ℕ → List RelayCall → ℕ → ProcessResult → State → Type 0
  Settled good count calls relay_id result s =
      (result ≡ done id (ending good))
      × Flight (ending good) (relay_ending good) (count + (if good then 1 else 0)) calls relay_id s

  module _ (host : Host) (count : ℕ) (calls : List RelayCall) (relay_id : ℕ) where
    move :
        {A : Type 0} (status : SponsorshipStatus) (relay_status : RelayStatus) (n : ℕ)
        (P : State → Type 0) (m : Tx A) (f : A → Tx ProcessResult)
        (Q : ProcessResult → State → Type 0)
        → Triple Never P m (λ a. Flight status relay_status n calls relay_id)
        → ((a : A) → Triple Never (Flight status relay_status n calls relay_id) (f a) Q)
        → Triple Never P (m >>= f) Q
    move status relay_status n P m f Q h k = bind-Triple Never P m f (λ a. Flight _ _ _ _ _) Q h k

    transition-Flight :
        {status : SponsorshipStatus} {relay_status : RelayStatus} {n : ℕ} (new : SponsorshipStatus)
        (branch : Branch)
        → is_valid_sponsorship_transition status new ≡ true
        → Triple Never
            (Flight status relay_status n calls relay_id)
            (must_transition host id new branch)
            (λ a. Flight new relay_status n calls relay_id)
    transition-Flight {relay_status = relay_status} new branch valid s (q, x) =
        transition-Request id wallet_id host new branch s (Relay id wallet_id relay_id relay_status)
          valid q
          (record { relay = x.relay; relay_found = x.relay_found; relay_status = x.relay_status })

    pub update-Flight :
        {status : SponsorshipStatus} {old : RelayStatus} {n : ℕ} (new : RelayStatus)
        (branch : Branch) (d : RelayData)
        → is_valid_relay_transition old new ≡ true
        → Triple Never
            (Flight status old n calls relay_id)
            (must_update host id relay_id new branch d)
            (λ a. Flight status new n calls relay_id)
    update-Flight new branch d valid s (q, x) =
        update-Request id wallet_id host relay_id new branch d s valid q x

    settle_success-Settled :
        (branch : Branch) (d : RelayData)
        → Triple Never
            (Flight relayed submitted count calls relay_id)
            (settle_success host id wallet_id relay_id branch d)
            (Settled true count calls relay_id)
    unfolding settle_success is_valid_relay_transition is_valid_sponsorship_transition
    settle_success-Settled branch d =
        move relayed confirmed count _ _ _ _ (update-Flight confirmed branch d refl) (λ _.
          move completed confirmed count _ _ _ _ (transition-Flight completed branch refl) (λ _.
            move completed confirmed (count + 1) _ _ _ _
              (λ s (q, x). increment-Request id wallet_id relay_id s q x) (λ _ s h. (refl, h))))

    settle_failure-Settled :
        (d : RelayData)
        → Triple Never
            (Flight relayed submitted count calls relay_id)
            (settle_failure host id relay_id d)
            (Settled false count calls relay_id)
    unfolding settle_failure is_valid_relay_transition is_valid_sponsorship_transition
    settle_failure-Settled d =
        move relayed RelayStatus.failed count _ _ _ _
          (update-Flight RelayStatus.failed plain d refl)
          (λ _.
            move SponsorshipStatus.failed RelayStatus.failed count _ _ _ _
              (transition-Flight SponsorshipStatus.failed plain refl)
              (λ _ s (q, x). (refl, rw add-zero (q, x))))

    pub settle-Settled :
        (result : RelayResult)
        → Triple Never
            (Flight relayed submitted count calls relay_id)
            (settle host id wallet_id relay_id result)
            (Settled (confirms result) count calls relay_id)
    unfolding settle
    settle-Settled result s h = elim (Bool-cases result.success) [
      | inl ended ↦ rw ended (settle_success-Settled plain (confirmed_data result) s h)
      | inr unconfirmed ↦ elim (Bool-cases (is_already_sponsored_error result.failure_reason)) [
        | inl already ↦
            rw (unconfirmed, already)
              (settle_success-Settled already_sponsored (already_data result) s h)
        | inr other ↦ rw (unconfirmed, other) (settle_failure-Settled (failed_data result) s h)
      ]
    ]
