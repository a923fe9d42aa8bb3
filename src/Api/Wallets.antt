-- ===== src/Api/Wallets.antt =====
-- apps/api/src/lib/wallet-validation.js and services/wallet.service.js: addresses, registration, and
-- the pages of a wallet's history.
pub mod Addresses
pub mod Counts
pub mod History
use arcpass.Prelude.{
  ℕ, ◌+◌, ◌==◌, ltb, leb, Bool, true, false, ◌&&◌, ◌||◌, Option, none, some, List, [], ◌∷◌, ◌++◌,
  Text, codes, text_eq, starts_with, trim, to_lower, length, take, drop, if◌then◌else◌,
}
use Prim.Native.Nat.{min, max}
use arcpass.Store.{Database, Wallet, SponsorshipRequest}
use arcpass.Store.Table.{find_first, find_unique, update_first, keep_rows}
use arcpass.Worker.Config.{is_hex_text}
use arcpass.Api.Errors.{
  Result, ok, err, validation_error, blocked_wallet_error, wallet_not_found_error,
}
use arcpass.Api.Actions.{Action, ApiStore, pure, throw, gets, modify_db, or_throw, ◌>>=◌, ◌>>◌}

-- `WALLET_ADDRESS_REGEX`.
unfoldable pub is_wallet_address : Text → Bool
is_wallet_address s = starts_with s (codes "0x") && is_hex_text 40 (drop 2 s)

-- The argument is `none` where it is no string.
unfoldable pub is_valid_wallet_address : Option Text → Bool
is_valid_wallet_address none = false
is_valid_wallet_address (some address) = is_wallet_address (trim address)

unfoldable pub normalize_wallet_address : Option Text → Result Text
normalize_wallet_address none = err (validation_error (codes "Wallet address must be a string"))
normalize_wallet_address (some address) =
    if is_wallet_address (trim address)
    then ok (to_lower (trim address))
    else err (
        validation_error (
          codes "Invalid wallet address format. Expected 0x followed by 40 hexadecimal characters"))

abbrev pub lift : {A : Type 0} → Result A → Action A
lift r s = (r, s)

-- The wallets are looked up by their addresses, which are unique.
abbrev pub has_address : Text → Wallet → Bool
has_address address w = text_eq w.wallet_address address

abbrev pub find_address : Text → Database → Option Wallet
find_address address db = find_first (has_address address) db.wallets

-- A row that `create` makes of an address; the time is the database's.
abbrev pub new_wallet : Text → ℕ → ℕ → Wallet
new_wallet address now id = record {
  id = id;
  wallet_address = address;
  first_seen_at = now;
  last_seen_at = now;
  sponsorship_count = 0;
  is_blocked = false;
  block_reason = none;
}

abbrev pub see_again : ℕ → Wallet → Wallet
see_again now w = record w { last_seen_at = now; sponsorship_count = w.sponsorship_count + 1 }

-- `{ wallet, isNew }`.
pub record Registration : Type 0 where
  pub wallet : Wallet
  pub is_new : Bool

module _ (new_wallet_id : List Wallet → ℕ) (now : ℕ) where
  abbrev pub register_found : Text → Option Wallet → Action Registration
  register_found address none = do
    wallet ← gets (λ s. new_wallet address now (new_wallet_id s.db.wallets))
    modify_db (λ db. record db { wallets = db.wallets ++ wallet ∷ [] })
    pure (record { wallet = wallet; is_new = true })
  register_found address (some existing) =
      if existing.is_blocked then throw (blocked_wallet_error (codes "Wallet is blocked")) else (do
        modify_db (λ db. record db {
          wallets = update_first (has_address address) (see_again now) db.wallets;
        })
        pure (record { wallet = see_again now existing; is_new = false }))

  unfoldable pub register_wallet : Option Text → Action Registration
  register_wallet raw_address = do
    address ← lift (normalize_wallet_address raw_address)
    existing ← gets (λ s. find_address address s.db)
    register_found address existing

unfoldable pub lookup_wallet : Option Text → Action (Option Wallet)
lookup_wallet raw_address = do
  address ← lift (normalize_wallet_address raw_address)
  gets (λ s. find_address address s.db)

-- The result of `getWalletHistory`.
pub record Page : Type 0 where
  pub items : List SponsorshipRequest
  pub cursor : Option ℕ
  pub has_more : Bool
  pub limit : ℕ

-- `requestedAt < c.requestedAt`, or the same time and `id < c.id`.
abbrev pub is_older : SponsorshipRequest → SponsorshipRequest → Bool
is_older c r =
    ltb r.requested_at c.requested_at || ((r.requested_at == c.requested_at) && ltb r.id c.id)

abbrev pub is_of_wallet : ℕ → SponsorshipRequest → Bool
is_of_wallet wallet_id r = r.wallet_id == wallet_id

abbrev pub find_cursor : Option ℕ → Database → Option SponsorshipRequest
find_cursor none db = none
find_cursor (some id) db = find_unique (λ r. r.id) id db.requests

-- The `where` of the query: the cursor's record has no say if it is not there.
abbrev pub is_on_page : ℕ → Option SponsorshipRequest → SponsorshipRequest → Bool
is_on_page wallet_id none r = is_of_wallet wallet_id r
is_on_page wallet_id (some c) r = is_of_wallet wallet_id r && is_older c r

abbrev pub last_id : List SponsorshipRequest → Option ℕ
last_id [] = none
last_id (r ∷ []) = some r.id
last_id (r ∷ q ∷ rs) = last_id (q ∷ rs)

abbrev pub page_of : ℕ → List SponsorshipRequest → Page
page_of size requests =
    if ltb size (length requests)
    then record {
      items = take size requests;
      cursor = last_id (take size requests);
      has_more = true;
      limit = size;
    }
    else record { items = requests; cursor = none; has_more = false; limit = size }

-- `newest_first` is the database's order by `requestedAt` and `id`, both descending.
module _ (newest_first : List SponsorshipRequest → List SponsorshipRequest) where
  abbrev pub page_size : ℕ → ℕ
  page_size limit = min (max 1 limit) 100

  abbrev pub history_query : ℕ → Option SponsorshipRequest → ℕ → Database → List SponsorshipRequest
  history_query wallet_id c rows db =
      take rows (keep_rows (is_on_page wallet_id c) (newest_first db.requests))

  unfoldable pub get_wallet_history : Option Text → Option ℕ → ℕ → Action Page
  get_wallet_history raw_address cursor limit = do
    address ← lift (normalize_wallet_address raw_address)
    found ← gets (λ s. find_address address s.db)
    wallet ← or_throw found (wallet_not_found_error (codes "Wallet not found"))
    c ← gets (λ s. find_cursor cursor s.db)
    requests ← gets (λ s. history_query wallet.id c (page_size limit + 1) s.db)
    pure (page_of (page_size limit) requests)
