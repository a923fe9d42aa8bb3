-- ===== src/Worker/Processor/Accounting.antt =====
-- The accounts of the wallets: `sponsorshipCount` is the number of the wallet's completed requests.
use arcpass.Prelude.{
  ℕ, ◌+◌, ◌≡◌, refl, sym, ◌∙◌, Bool, true, ◌&&◌, Option, none, some, List, arith, ◌==◌,
  if◌then◌else◌, ==_iff, inl, inr, Bool-cases,
}
use mathlib.Core.Option.{some-injective}
use arcpass.SponsorshipTypes.{
  SponsorshipStatus, completed, sponsorship_eq, is_valid_sponsorship_transition,
}
use arcpass.Store.{Database, SponsorshipRequest, RelayTransaction, Wallet}
use arcpass.Store.Table.{count_rows, count-update, find_unique-update_self, find_unique-update_ne}
use arcpass.Worker.Lifecycle.{RequestTimestamp, set_status, find_request, write_request}
use arcpass.Worker.Processor.{find_wallet, write_wallet, increment_count, explain_blocked}
use arcpass.Worker.Steps.Safety.{set_status-id, set_status-status, set_status-wallet_id}

abbrev pub is_completed_of : ℕ → SponsorshipRequest → Bool
is_completed_of wallet_id r = (r.wallet_id == wallet_id) && sponsorship_eq r.status completed

-- The completed requests of a wallet.
abbrev pub completed_of : ℕ → Database → ℕ
completed_of wallet_id d = count_rows (is_completed_of wallet_id) d.requests

-- The count of a wallet, 0 where there is none.
abbrev pub count_of : ℕ → Database → ℕ
count_of v d = elim (find_wallet v d) [ none ↦ 0 | some w ↦ w.sponsorship_count ]

-- Every wallet's count is the number of its completed requests.
abbrev pub IsBalanced : Database → Type 0
IsBalanced d = (v : ℕ) → completed_of v d ≡ count_of v d

-- Within the transaction: the request that is processed, its wallet, its status, and the number
-- of completions that the wallet's count lacks. `plus` and `minus` stand for the difference that a
-- wallet's count and its completed requests had before.
pub record At (plus minus : ℕ → ℕ) (id wallet_id : ℕ) (status : SponsorshipStatus) (owed : ℕ)
    (d : Database) : Type 0 where
  pub row : SponsorshipRequest
  pub found : find_request id d ≡ some row
  pub owner : row.wallet_id ≡ wallet_id
  pub in_status : row.status ≡ status
  pub balance :
      (v : ℕ)
      → completed_of v d + plus v ≡ count_of v d + minus v + (if v == wallet_id then owed else 0)

abbrev pub owed_for : SponsorshipStatus → ℕ
owed_for completed = 1
owed_for _ = 0

completed_of-set_status :
    (v id : ℕ) (new : SponsorshipStatus) (stamp : Option (RequestTimestamp × ℕ)) (d : Database)
    (r : SponsorshipRequest)
    → find_request id d ≡ some r
    → is_valid_sponsorship_transition r.status new ≡ true
    → completed_of v (write_request id (set_status new stamp) d)
      ≡ completed_of v d + (if v == r.wallet_id then owed_for new else 0)
unfolding is_valid_sponsorship_transition
completed_of-set_status v id new stamp d r found valid = ground (
  arith,
  count-update (λ r. r.id) (is_completed_of v) id (set_status new stamp) d.requests r found,
  set_status-status new stamp r,
  set_status-wallet_id new stamp r,
)

pub At-transition :
    {plus minus : ℕ → ℕ} {id wallet_id : ℕ} {status : SponsorshipStatus} (new : SponsorshipStatus)
    (stamp : Option (RequestTimestamp × ℕ)) {d : Database}
    → (r : SponsorshipRequest) → find_request id d ≡ some r
    → is_valid_sponsorship_transition r.status new ≡ true
    → At plus minus id wallet_id status 0 d
    → At plus minus id wallet_id new (owed_for new) (write_request id (set_status new stamp) d)
At-transition {id} {wallet_id} new stamp {d} r found valid at =
    let same : r ≡ at.row = some-injective _ _ (sym found ∙ at.found) in
    let owner : r.wallet_id ≡ wallet_id = rw same at.owner in
    record {
      row = set_status new stamp r;
      found = find_unique-update_self (λ r. r.id) id _ d.requests r (set_status-id new stamp) found;
      owner = set_status-wallet_id new stamp r ∙ owner;
      in_status = set_status-status new stamp r;
      balance = λ v.
          ground
            (arith, completed_of-set_status v id new stamp d r found valid, at.balance v, owner);
    }

pub At-explain :
    {plus minus : ℕ → ℕ} {id wallet_id : ℕ} {status : SponsorshipStatus} {owed : ℕ} {d : Database}
    → At plus minus id wallet_id status owed d
    → At plus minus id wallet_id status owed (write_request id explain_blocked d)
At-explain {id} {d = d} at = record {
  row = explain_blocked at.row;
  found = find_unique-update_self (λ r. r.id) id _ d.requests at.row (λ y. refl) at.found;
  owner = at.owner;
  in_status = at.in_status;
  balance = λ v. ground (
    arith,
    count-update (λ r. r.id) (is_completed_of v) id explain_blocked d.requests at.row at.found,
    at.balance v,
  );
}

pub At-increment :
    {plus minus : ℕ → ℕ} {id wallet_id : ℕ} {status : SponsorshipStatus} {d : Database} (x : Wallet)
    → find_wallet wallet_id d ≡ some x
    → At plus minus id wallet_id status 1 d
    → At plus minus id wallet_id status 0 (write_wallet wallet_id increment_count d)
At-increment {id} {wallet_id} {d = d} x found at = record {
  row = at.row;
  found = at.found;
  owner = at.owner;
  in_status = at.in_status;
  balance = λ v. elim (Bool-cases (v == wallet_id)) [
    | inl same ↦ ground (
      arith,
      ==_iff v wallet_id,
      find_unique-update_self (λ w. w.id) wallet_id increment_count d.wallets x (λ y. refl) found,
      at.balance v,
    )
    | inr other ↦ ground (
      arith,
      ==_iff v wallet_id,
      find_unique-update_ne (λ w. w.id) v wallet_id increment_count d.wallets (λ y. refl),
      at.balance v,
    )
  ];
}

-- Relay transactions do not enter the accounts.
pub At-relays :
    {plus minus : ℕ → ℕ} {id wallet_id : ℕ} {status : SponsorshipStatus} {owed : ℕ} {d : Database}
    (relays : List RelayTransaction)
    → At plus minus id wallet_id status owed d
    → At plus minus id wallet_id status owed (record d { relays = relays })
At-relays relays at = record {
  row = at.row;
  found = at.found;
  owner = at.owner;
  in_status = at.in_status;
  balance = at.balance;
}
