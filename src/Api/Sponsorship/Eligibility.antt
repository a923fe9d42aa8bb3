-- ===== src/Api/Sponsorship/Eligibility.antt =====
-- Every way in which a call of createSponsorshipRequest can end.
use arcpass.Prelude.{
  ℕ, ◌≡◌, refl, ◌⊎◌, inl, inr, Bool, true, false, Option, none, some, List, Text, Option-cases,
  Bool-cases, if◌then◌else◌, codes,
}
use arcpass.Store.{Database, Wallet, SponsorshipRequest}
use arcpass.Store.Table.{find_first}
use arcpass.Api.Errors.{
  ApiError, Result, ok, err, validation_error, blocked_wallet_error, wallet_not_found_error,
  database_error,
}
use arcpass.Api.Actions.{ApiStore, then_run, ◌>>◌, pure, throw}
use arcpass.Api.Wallets.{find_address}
use arcpass.Api.Sponsorship.{
  validate_wallet_exists, validate_wallet_not_blocked, validate_no_pending_request, is_active_of,
  is_done_of, new_request, add_request, find_eligible, insert_request, insert_row, fits_row,
  value_too_long, create_sponsorship_request,
}

-- The wallet of an address may ask for a sponsorship.
pub record IsEligible (address : Text) (d : Database) (w : Wallet) : Type 0 where
  pub found : find_address address d ≡ some w
  pub free : w.is_blocked ≡ false
  pub idle : find_first (is_active_of w.id) d.requests ≡ none
  pub unserved : find_first (is_done_of w.id) d.requests ≡ none

-- The wallet of the address has a request that stands in the way.
pub record IsTaken (address : Text) (d : Database) : Type 0 where
  pub wallet : Wallet
  pub request : SponsorshipRequest
  pub found : find_address address d ≡ some wallet
  pub free : wallet.is_blocked ≡ false
  pub stands :
      (find_first (is_active_of wallet.id) d.requests ≡ some request)
      ⊎ (find_first (is_done_of wallet.id) d.requests ≡ some request)

-- Why the checks refuse an address, by the error that they throw.
abbrev pub Refuses : Text → Database → ApiError → Type 0
Refuses address d (wallet_not_found_error message) = find_address address d ≡ none
Refuses address d (blocked_wallet_error message) =
    (w : Wallet) × (find_address address d ≡ some w) × (w.is_blocked ≡ true)
Refuses address d (validation_error message) = IsTaken address d
Refuses address d _ = ⊥

-- The checks write nothing; they pass exactly for a wallet that may ask.
abbrev Checked : Text → ApiStore → Result Wallet × ApiStore → Type 0
Checked address s (ok w, t) = (t ≡ s) × IsEligible address s.db w
Checked address s (err e, t) = (t ≡ s) × Refuses address s.db e

module _ (address : Text) (s : ApiStore) (w : Wallet)
    (found : find_address address s.db ≡ some w) where
  unblocked-Checked :
      w.is_blocked ≡ false → Checked address s ((validate_no_pending_request w.id >> pure w) s)
  unfolding validate_no_pending_request
  unblocked-Checked free = elim (Option-cases (find_first (is_active_of w.id) s.db.requests)) [
    | inr (r, active) ↦
        rw active (
          refl,
          record { wallet = w; request = r; found = found; free = free; stands = inl active },
        )
    | inl idle ↦ rw idle (elim (Option-cases (find_first (is_done_of w.id) s.db.requests)) [
      | inr (r, done) ↦
          rw done (
            refl,
            record { wallet = w; request = r; found = found; free = free; stands = inr done },
          )
      | inl unserved ↦
          rw unserved
            (refl, record { found = found; free = free; idle = idle; unserved = unserved })
    ])
  ]

  found-Checked :
      (b : Bool)
      → w.is_blocked ≡ b
      → Checked address s (
          ((if b then throw (blocked_wallet_error (codes "Wallet is blocked")) else pure tt)
              >> (validate_no_pending_request w.id >> pure w))
            s)
  found-Checked true blocked = (refl, (w, found, blocked))
  found-Checked false free = unblocked-Checked free

pub find_eligible-Checked :
    (address : Text) (s : ApiStore) → Checked address s (find_eligible address s)
unfolding find_eligible validate_wallet_exists validate_wallet_not_blocked
find_eligible-Checked address s = elim (Option-cases (find_address address s.db)) [
  | inl missing ↦ rw missing (refl, missing)
  | inr (w, found) ↦ rw found (found-Checked address s w found w.is_blocked refl)
]

pub find_eligible_passes :
    (address : Text) (s : ApiStore) (w : Wallet)
    → IsEligible address s.db w
    → find_eligible address s ≡ (ok w, s)
unfolding find_eligible validate_wallet_exists validate_wallet_not_blocked
    validate_no_pending_request
find_eligible_passes address s w h = simp (h.found, h.free, h.idle, h.unserved)

module _ (new_request_id : List SponsorshipRequest → ℕ) (now : ℕ) (address : Text)
    (ip_address user_agent : Option Text) where
  -- The row that a call would add.
  abbrev pub row_for : Database → Wallet → SponsorshipRequest
  row_for d w = new_request (new_request_id d.requests) w.id now ip_address user_agent

  -- The wallet may ask, but a text is too long for its column.
  pub record IsTooLong (d : Database) (e : ApiError) : Type 0 where
    pub wallet : Wallet
    pub eligible : IsEligible address d wallet
    pub long : fits_row (row_for d wallet) ≡ false
    pub is : e ≡ database_error value_too_long

  -- What a creation leaves, by how it ends.
  abbrev pub Created : ApiStore → Result SponsorshipRequest × ApiStore → Type 0
  Created s (ok r, t) =
      (w : Wallet) × IsEligible address s.db w
      × (fits_row (row_for s.db w) ≡ true)
      × (r ≡ row_for s.db w)
      × (t ≡ record s { db = add_request r s.db })
  Created s (err e, t) = (t ≡ s) × (Refuses address s.db e ⊎ IsTooLong s.db e)

  pub create_sponsorship_request-Created :
      (s : ApiStore)
      → Created s (create_sponsorship_request new_request_id now address ip_address user_agent s)
  unfolding create_sponsorship_request insert_request
  create_sponsorship_request-Created s =
      by_checks (find_eligible address s) (find_eligible-Checked address s)
    where
      by_length :
          (w : Wallet) → IsEligible address s.db w → Created s (insert_row (row_for s.db w) s)
      by_length w eligible = elim (Bool-cases (fits_row (row_for s.db w))) [
        | inl fits ↦ rw fits (w, eligible, fits, refl, refl)
        | inr long ↦
            rw long (refl, inr (record { wallet = w; eligible = eligible; long = long; is = refl }))
      ]

      by_checks :
          (r : Result Wallet × ApiStore)
          → Checked address s r
          → Created s
              (then_run r (λ w. insert_request new_request_id now w.id ip_address user_agent))
      by_checks (ok w, t) (same, eligible) = rw same (by_length w eligible)
      by_checks (err x, t) (same, refused) = (same, inl refused)
