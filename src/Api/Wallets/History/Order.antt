-- ===== src/Api/Wallets/History/Order.antt =====
-- The rows of a wallet in the order of its history, and what lies after a row.
use arcpass.Prelude.{
  ℕ, ◌<◌, ◌≡◌, refl, sym, ap, ◌∙◌, inl, inr, Bool, true, false, some, List, [], ◌∷◌, ◌++◌, length,
  All, arith, Bool-cases,
}
use arcpass.Store.{SponsorshipRequest}
use arcpass.Store.Table.{keep_rows}
use arcpass.Api.Wallets.{is_older, is_of_wallet, is_on_page, last_id}

-- Each row comes before all that follow it: it is the newer one.
abbrev pub IsNewestFirst : List SponsorshipRequest → Type 0
IsNewestFirst [] = Unit
IsNewestFirst (r ∷ rs) = All (λ q. is_older r q ≡ true) rs × IsNewestFirst rs

is_older_irrefl : (r : SponsorshipRequest) → is_older r r ≡ false
is_older_irrefl r = ground arith

is_older_asym : (a b : SponsorshipRequest) → is_older a b ≡ true → is_older b a ≡ false
is_older_asym a b h = ground arith

keep_none :
    (p : SponsorshipRequest → Bool) (rs : List SponsorshipRequest)
    → All (λ q. p q ≡ false) rs
    → keep_rows p rs ≡ []
keep_none p [] h = refl
keep_none p (r ∷ rs) h = rw h.0 (keep_none p rs h.1)

module _ (wallet_id : ℕ) where
  abbrev pub of_wallet : List SponsorshipRequest → List SponsorshipRequest
  of_wallet rs = keep_rows (is_of_wallet wallet_id) rs

  pub All-of_wallet :
      (P : SponsorshipRequest → Type 0) (rs : List SponsorshipRequest)
      → All P rs
      → All P (of_wallet rs)
  All-of_wallet P [] h = tt
  All-of_wallet P (r ∷ rs) h = elim (Bool-cases (is_of_wallet wallet_id r)) [
    | inl own ↦ rw own (h.0, All-of_wallet P rs h.1)
    | inr other ↦ rw other (All-of_wallet P rs h.1)
  ]

  pub of_wallet-IsNewestFirst :
      (rs : List SponsorshipRequest) → IsNewestFirst rs → IsNewestFirst (of_wallet rs)
  of_wallet-IsNewestFirst [] h = tt
  of_wallet-IsNewestFirst (r ∷ rs) h = elim (Bool-cases (is_of_wallet wallet_id r)) [
    | inl own ↦
        rw own (All-of_wallet (λ q. is_older r q ≡ true) rs h.0, of_wallet-IsNewestFirst rs h.1)
    | inr other ↦ rw other (of_wallet-IsNewestFirst rs h.1)
  ]

  -- The condition of a page is one on the rows of the wallet.
  pub on_page-of_wallet :
      (c : SponsorshipRequest) (rs : List SponsorshipRequest)
      → keep_rows (is_on_page wallet_id (some c)) rs ≡ keep_rows (is_older c) (of_wallet rs)
  on_page-of_wallet c [] = refl
  on_page-of_wallet c (r ∷ rs) = ground (arith, on_page-of_wallet c rs)

pub All-middle :
    (P : SponsorshipRequest → Type 0) (xs rest : List SponsorshipRequest) (c : SponsorshipRequest)
    → All P (xs ++ c ∷ rest)
    → P c
All-middle P [] rest c h = h.0
All-middle P (x ∷ xs) rest c h = All-middle P xs rest c h.1

-- What is older than a row of the list is what follows it.
pub older-rest :
    (done : List SponsorshipRequest) (c : SponsorshipRequest) (rest : List SponsorshipRequest)
    → IsNewestFirst (done ++ c ∷ rest)
    → keep_rows (is_older c) (done ++ c ∷ rest) ≡ rest
older-rest [] c rest (newer, ordered) = rw (is_older_irrefl c) (keep_all rest newer)
  where
    keep_all :
        (rs : List SponsorshipRequest)
        → All (λ q. is_older c q ≡ true) rs
        → keep_rows (is_older c) rs ≡ rs
    keep_all [] h = refl
    keep_all (r ∷ rs) h = rw h.0 (ap (λ l. r ∷ l) (keep_all rs h.1))
older-rest (r ∷ done) c rest (newer, ordered) =
    rw (is_older_asym r c (All-middle (λ q. is_older r q ≡ true) done rest c newer))
      (older-rest done c rest ordered)

pub append_assoc : (xs ys zs : List SponsorshipRequest) → (xs ++ ys) ++ zs ≡ xs ++ (ys ++ zs)
append_assoc [] ys zs = refl
append_assoc (x ∷ xs) ys zs = ap (λ l. x ∷ l) (append_assoc xs ys zs)

pub regroup :
    (done t rest : List SponsorshipRequest) (l : SponsorshipRequest)
    → done ++ ((t ++ l ∷ []) ++ rest) ≡ (done ++ t) ++ l ∷ rest
regroup done t rest l =
    ap (λ r. done ++ r) (append_assoc t (l ∷ []) rest) ∙ sym (append_assoc done t (l ∷ rest))

pub last_split :
    (xs : List SponsorshipRequest)
    → 0 < length xs
    → (t : List SponsorshipRequest) × (l : SponsorshipRequest) × (xs ≡ t ++ l ∷ [])
      × (last_id xs ≡ some l.id)
last_split [] h = elim h [ ]
last_split (x ∷ []) h = ([], x, refl, refl)
last_split (x ∷ y ∷ xs) h =
    let (t, l, split, id) = last_split (y ∷ xs) (omega arith) in
    (x ∷ t, l, ap (λ r. x ∷ r) split, id)
