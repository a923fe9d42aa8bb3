-- ===== src/Api/Wallets/History.antt =====
-- Paging through the history of a wallet, as a client does: from each page to the next by its cursor.
pub mod Order
use arcpass.Prelude.{
  ℕ, zero, suc, ◌+◌, ◌≤◌, ◌<◌, ◌≡◌, refl, sym, ap, fun_ext, subst, take-take_le, take_all,
  take-drop, length-take, length-drop_lt, ◌∙◌, inl, inr, Bool, true, false, ltb, Option, none, some,
  List, [], ◌∷◌, ◌++◌, Text, length, take, drop, All, arith, if◌then◌else◌, Bool-cases, lt→ltb,
}
use arcpass.Store.{Database, Wallet, SponsorshipRequest}
use arcpass.Store.Table.{find_unique, keep_rows}
use arcpass.Api.Errors.{Result, ok, err}
use arcpass.Api.Actions.{ApiStore}
use arcpass.Api.Wallets.{
  Page, is_older, is_of_wallet, is_on_page, find_cursor, last_id, page_of, page_size, history_query,
  normalize_wallet_address, find_address, get_wallet_history,
}
use arcpass.Api.Wallets.History.Order.{
  IsNewestFirst, All-of_wallet, of_wallet, of_wallet-IsNewestFirst, on_page-of_wallet, older-rest,
  All-middle, append_assoc, regroup, last_split,
}

abbrev pub prepend :
    List SponsorshipRequest → Option (List SponsorshipRequest) → Option (List SponsorshipRequest)
prepend items none = none
prepend items (some rest) = some (items ++ rest)

abbrev pub follow :
    Result Page → (Option ℕ → Option (List SponsorshipRequest)) → Option (List SponsorshipRequest)
follow (err e) next = none
follow (ok page) next =
    if page.has_more then prepend page.items (next page.cursor) else some page.items

-- A client that takes pages until there are no more; `none` where a page fails or the fuel runs out.
abbrev pub walk : ℕ → (Option ℕ → Result Page) → Option ℕ → Option (List SponsorshipRequest)
walk zero page c = none
walk (suc fuel) page c = follow (page c) (walk fuel page)

length-keep_rows :
    (p : SponsorshipRequest → Bool) (rs : List SponsorshipRequest)
    → length (keep_rows p rs) ≤ length rs
length-keep_rows p [] = omega arith
length-keep_rows p (r ∷ rs) = ground (arith, length-keep_rows p rs)

ltb→lt : (a b : ℕ) → ltb a b ≡ true → a < b
ltb→lt a b h = ground arith

ltb→le : (a b : ℕ) → ltb a b ≡ false → b ≤ a
ltb→le a b h = ground arith

page_of-more :
    (n : ℕ) (rest : List SponsorshipRequest)
    → n < length rest
    → page_of n (take (n + 1) rest)
      ≡ record { items = take n rest; cursor = last_id (take n rest); has_more = true; limit = n }
page_of-more n rest h =
    rw (lt→ltb n (length (take (n + 1) rest)) (omega (arith, length-take (n + 1) rest))) rw
      (take-take_le n (n + 1) rest (omega arith)) refl

page_of-last :
    (n : ℕ) (rest : List SponsorshipRequest)
    → length rest ≤ n
    → page_of n (take (n + 1) rest)
      ≡ record { items = rest; cursor = none; has_more = false; limit = n }
page_of-last n rest h = rw (take_all (n + 1) rest (omega arith)) (ground arith)

module _ (newest_first : List SponsorshipRequest → List SponsorshipRequest) (wallet_id limit : ℕ)
    (d : Database) (ordered : IsNewestFirst (newest_first d.requests))
    (found : All
      (λ r. find_unique (λ q. q.id) r.id d.requests ≡ some r)
      (newest_first d.requests)) where
  abbrev all_rows : List SponsorshipRequest
  all_rows = of_wallet wallet_id (newest_first d.requests)

  abbrev page_at : Option ℕ → Page
  page_at c =
      page_of (page_size newest_first limit) (
        history_query newest_first wallet_id (find_cursor c d) (page_size newest_first limit + 1) d)

  -- The rows that are left at a cursor.
  abbrev LeftAt : Option ℕ → List SponsorshipRequest → Type 0
  LeftAt c rest =
      ((done : List SponsorshipRequest) × (all_rows ≡ done ++ rest))
      × (keep_rows (is_on_page wallet_id (find_cursor c d)) (newest_first d.requests) ≡ rest)

  find-middle :
      (done rest : List SponsorshipRequest) (l : SponsorshipRequest)
      → all_rows ≡ done ++ l ∷ rest
      → find_unique (λ q. q.id) l.id d.requests ≡ some l
  find-middle done rest l split =
      All-middle (λ r. find_unique (λ q. q.id) r.id d.requests ≡ some r) done rest l
        (subst (λ rs. All (λ r. find_unique (λ q. q.id) r.id d.requests ≡ some r) rs) split
          (All-of_wallet wallet_id (λ r. find_unique (λ q. q.id) r.id d.requests ≡ some r)
            (newest_first d.requests) found))

  after-middle :
      (done rest : List SponsorshipRequest) (l : SponsorshipRequest)
      → all_rows ≡ done ++ l ∷ rest
      → keep_rows (is_older l) all_rows ≡ rest
  after-middle done rest l split = rw split (
      older-rest done l rest (
        subst IsNewestFirst split
          (of_wallet-IsNewestFirst wallet_id (newest_first d.requests) ordered)))

  next-LeftAt :
      (done t rest : List SponsorshipRequest) (l : SponsorshipRequest)
      → all_rows ≡ done ++ ((t ++ l ∷ []) ++ rest)
      → LeftAt (some l.id) rest
  next-LeftAt done t rest l split =
      let split' = split ∙ regroup done t rest l in
      (
        (done ++ (t ++ l ∷ []), split ∙ sym (append_assoc done (t ++ l ∷ []) rest)),
        rw (find-middle (done ++ t) rest l split') (
            on_page-of_wallet wallet_id l (newest_first d.requests)
            ∙ after-middle (done ++ t) rest l split'),
      )

  page-more :
      (c : Option ℕ) (rest : List SponsorshipRequest)
      → LeftAt c rest
      → page_size newest_first limit < length rest
      → page_at c ≡ record {
        items = take (page_size newest_first limit) rest;
        cursor = last_id (take (page_size newest_first limit) rest);
        has_more = true;
        limit = page_size newest_first limit;
      }
  page-more c rest left h =
      ap (λ rs. page_of (page_size newest_first limit) (take (page_size newest_first limit + 1) rs))
        left.1
      ∙ page_of-more (page_size newest_first limit) rest h

  page-last :
      (c : Option ℕ) (rest : List SponsorshipRequest)
      → LeftAt c rest
      → length rest ≤ page_size newest_first limit
      → page_at c ≡ record {
        items = rest;
        cursor = none;
        has_more = false;
        limit = page_size newest_first limit;
      }
  page-last c rest left h =
      ap (λ rs. page_of (page_size newest_first limit) (take (page_size newest_first limit + 1) rs))
        left.1
      ∙ page_of-last (page_size newest_first limit) rest h

  walk-LeftAt :
      (fuel : ℕ) (c : Option ℕ) (rest : List SponsorshipRequest)
      → length rest < fuel
      → LeftAt c rest
      → walk fuel (λ k. ok (page_at k)) c ≡ some rest
  walk-LeftAt zero c rest h left = elim h [ ]
  walk-LeftAt (suc fuel) c rest h left =
      elim (Bool-cases (ltb (page_size newest_first limit) (length rest))) [
        | inl more ↦
            let n = page_size newest_first limit in
            let small = ltb→lt n (length rest) more in
            let (t, l, split, id) =
              last_split (take n rest) (omega (arith, length-take n rest, small)) in
            rw (page-more c rest left small) (
              ap (λ k. prepend (take n rest) (walk fuel (λ j. ok (page_at j)) k)) id
              ∙ ap (λ r. prepend (take n rest) r)
                  (walk-LeftAt fuel (some l.id) (drop n rest)
                    (omega (arith, length-drop_lt n rest (omega arith) small))
                    (next-LeftAt left.0.0 t (drop n rest) l (
                      left.0.1
                      ∙ ap (λ r. left.0.0 ++ r)
                          (sym (take-drop n rest) ∙ ap (λ r. r ++ drop n rest) split))))
              ∙ ap some (take-drop n rest))
        | inr last ↦
            rw (page-last c rest left (ltb→le (page_size newest_first limit) (length rest) last))
              refl
      ]

get_wallet_history-page_at :
    (newest_first : List SponsorshipRequest → List SponsorshipRequest) (raw : Option Text)
    (limit : ℕ) (c : Option ℕ) (s : ApiStore) (address : Text) (w : Wallet)
    → normalize_wallet_address raw ≡ ok address
    → find_address address s.db ≡ some w
    → (get_wallet_history newest_first raw c limit s).0
      ≡ ok (
          page_of (page_size newest_first limit) (
            history_query newest_first w.id
              (find_cursor c s.db)
              (page_size newest_first limit + 1)
              s.db))
unfolding get_wallet_history
get_wallet_history-page_at newest_first raw limit c s address w normal found = simp (normal, found)

-- Taking the pages of `getWalletHistory` from the first one, each at the cursor that the one before
-- gave, ends within as many calls as the rows and one more, and gives all the requests of the wallet,
-- newest first, none twice and none left out. The conditions: the address is valid and registered,
-- the database's order puts the newer row first, and its rows are found by their ids. No request is
-- made while the client pages, and the limit may be any number.
pub walk-get_wallet_history :
    (newest_first : List SponsorshipRequest → List SponsorshipRequest) (raw : Option Text)
    (limit fuel : ℕ) (s : ApiStore) (address : Text) (w : Wallet)
    → normalize_wallet_address raw ≡ ok address
    → find_address address s.db ≡ some w
    → IsNewestFirst (newest_first s.db.requests)
    → All (λ r. find_unique (λ q. q.id) r.id s.db.requests ≡ some r) (newest_first s.db.requests)
    → length (newest_first s.db.requests) < fuel
    → walk fuel (λ c. (get_wallet_history newest_first raw c limit s).0) none
      ≡ some (keep_rows (is_of_wallet w.id) (newest_first s.db.requests))
walk-get_wallet_history newest_first raw limit fuel s address w normal found ordered ids enough =
    ap (λ page. walk fuel page none)
      (fun_ext (λ c. get_wallet_history-page_at newest_first raw limit c s address w normal found))
    ∙ walk-LeftAt newest_first w.id limit s.db ordered ids fuel none
        (keep_rows (is_of_wallet w.id) (newest_first s.db.requests))
        (omega (arith, length-keep_rows (is_of_wallet w.id) (newest_first s.db.requests)))
        (([], refl), refl)
