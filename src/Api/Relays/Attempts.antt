-- ===== src/Api/Relays/Attempts.antt =====
-- The attempts of a request have different numbers.
use arcpass.Prelude.{
  ℕ, ◌≡◌, ◌<◌, ◌≤◌, refl, subst, All-append, Bool, false, ◌&&◌, Option, none, some, List, [], ◌∷◌,
  ◌++◌, Text, arith, ◌==◌, ==_iff, All, if◌then◌else◌, Bool-cases, inl, inr,
}
use arcpass.SponsorshipTypes.{RelayStatus, queued, submitted, confirmed}
use arcpass.Store.{RelayTransaction}
use arcpass.Api.Actions.{ApiStore}
use arcpass.Api.Sponsorship.{is_relay_for}
use arcpass.Api.Relays.{
  highest, last_attempt, next_attempt, next_relay, add_attempt, relay_update, write_relay_update,
}

abbrev pub same_attempt : RelayTransaction → RelayTransaction → Bool
same_attempt r q =
    (r.sponsorship_request_id == q.sponsorship_request_id) && (r.relay_attempt == q.relay_attempt)

-- No two relay transactions are the same attempt of one request.
abbrev pub IsNumbered : List RelayTransaction → Type 0
IsNumbered [] = Unit
IsNumbered (r ∷ rs) = All (λ q. same_attempt r q ≡ false) rs × IsNumbered rs

highest-bounds :
    (o : Option ℕ) (attempt n : ℕ)
    → next_attempt (highest o attempt) ≤ n
    → (next_attempt o ≤ n) × (attempt < n)
highest-bounds none attempt n h = (omega arith, omega arith)
highest-bounds (some m) attempt n h = (omega arith, omega arith)

-- A row of a request whose attempt is above the last one is no earlier attempt.
above_last-fresh :
    (id : ℕ) (rs : List RelayTransaction) (q : RelayTransaction)
    → q.sponsorship_request_id ≡ id
    → next_attempt (last_attempt id rs) ≤ q.relay_attempt
    → All (λ r. same_attempt r q ≡ false) rs
above_last-fresh id [] q of_id h = tt
above_last-fresh id (r ∷ rs) q of_id h = elim (Bool-cases (is_relay_for id r)) [
  | inl mine ↦
      let (rest, below) = highest-bounds (last_attempt id rs) r.relay_attempt q.relay_attempt (
        subst
          (λ b.
            next_attempt
              (if b then highest (last_attempt id rs) r.relay_attempt else last_attempt id rs)
            ≤ q.relay_attempt)
          mine h) in
      (
        ground (arith, below, ==_iff r.relay_attempt q.relay_attempt),
        above_last-fresh id rs q of_id rest,
      )
  | inr other ↦ (
    rw of_id (rw other refl),
    above_last-fresh id rs q of_id (
        subst
          (λ b.
            next_attempt
              (if b then highest (last_attempt id rs) r.relay_attempt else last_attempt id rs)
            ≤ q.relay_attempt)
          other h),
  )
]

append-IsNumbered :
    (rs : List RelayTransaction) (q : RelayTransaction)
    → All (λ r. same_attempt r q ≡ false) rs
    → IsNumbered rs
    → IsNumbered (rs ++ q ∷ [])
append-IsNumbered [] q fresh h = (tt, tt)
append-IsNumbered (r ∷ rs) q fresh h = (
  All-append (λ p. same_attempt r p ≡ false) rs (q ∷ []) h.0 (fresh.0, tt),
  append-IsNumbered rs q fresh.1 h.1,
)

-- A call of one of the two functions that write relay transactions.
pub data RelayWrite : Type 0 where
  adds_attempt : (List RelayTransaction → ℕ) → ℕ → RelayWrite
  updates_relay : ℕ → ℕ → RelayStatus → Option Text → Option Text → RelayWrite

abbrev pub write_relays : RelayWrite → ApiStore → ApiStore
write_relays (adds_attempt new_relay_id id) s = (add_attempt new_relay_id id s).1
write_relays (updates_relay now id status hash reason) s = record s {
  db = record s.db { relays = write_relay_update now id status hash reason s.db.relays };
}

abbrev pub write_all : List RelayWrite → ApiStore → ApiStore
write_all [] s = s
write_all (w ∷ ws) s = write_all ws (write_relays w s)

update-same :
    (now : ℕ) (status : RelayStatus) (hash reason : Option Text) (r : RelayTransaction)
    → ((relay_update now status hash reason r).sponsorship_request_id ≡ r.sponsorship_request_id)
      × ((relay_update now status hash reason r).relay_attempt ≡ r.relay_attempt)
unfolding relay_update
update-same now queued hash reason r = (refl, refl)
update-same now submitted hash reason r = (refl, refl)
update-same now confirmed hash reason r = (refl, refl)
update-same now RelayStatus.failed hash reason r = (refl, refl)

module _ (now id : ℕ) (status : RelayStatus) (hash reason : Option Text) where
  updated : List RelayTransaction → List RelayTransaction
  updated rs = write_relay_update now id status hash reason rs

  updated-All :
      (p : RelayTransaction) (rs : List RelayTransaction)
      → All (λ q. same_attempt p q ≡ false) rs
      → All (λ q. same_attempt p q ≡ false) (updated rs)
  unfolding updated write_relay_update
  updated-All p [] h = tt
  updated-All p (q ∷ rs) h = elim (Bool-cases (q.id == id)) [
    | inl hit ↦ rw hit (
      rw ((update-same now status hash reason q).0, (update-same now status hash reason q).1) h.0,
      h.1,
    )
    | inr miss ↦ rw miss (h.0, updated-All p rs h.1)
  ]

  updated-IsNumbered : (rs : List RelayTransaction) → IsNumbered rs → IsNumbered (updated rs)
  unfolding updated write_relay_update
  updated-IsNumbered [] h = tt
  updated-IsNumbered (q ∷ rs) h = elim (Bool-cases (q.id == id)) [
    | inl hit ↦ rw hit (
      rw ((update-same now status hash reason q).0, (update-same now status hash reason q).1) h.0,
      h.1,
    )
    | inr miss ↦ rw miss (updated-All q rs h.0, updated-IsNumbered rs h.1)
  ]

-- Where no two relay transactions are the same attempt of one request, this stays so whatever relay
-- transactions are added and updated by these functions, in any order, each call as a whole: a new one
-- gets an attempt above all earlier ones of its request, and an update leaves the attempts alone.
pub write_all-IsNumbered :
    (ws : List RelayWrite) (s : ApiStore)
    → IsNumbered s.db.relays
    → IsNumbered (write_all ws s).db.relays
unfolding add_attempt updated
write_all-IsNumbered [] s h = h
write_all-IsNumbered (adds_attempt new_relay_id id ∷ ws) s h =
    write_all-IsNumbered ws (write_relays (adds_attempt new_relay_id id) s) (
      append-IsNumbered s.db.relays (next_relay new_relay_id id s.db.relays)
        (above_last-fresh id s.db.relays (next_relay new_relay_id id s.db.relays) refl
          (omega arith))
        h)
write_all-IsNumbered (updates_relay now id status hash reason ∷ ws) s h =
    write_all-IsNumbered ws (write_relays (updates_relay now id status hash reason) s)
      (updated-IsNumbered now id status hash reason s.db.relays h)
