-- ===== src/Api/Wallets/Counts.antt =====
-- What a registration does to the accounts of the wallets.
use arcpass.Prelude.{ℕ, ◌+◌, ◌≡◌, refl, false, Option, some, List, [], ◌∷◌, Text, Bool, arith}
use arcpass.Store.{Database, Wallet}
use arcpass.Store.Table.{find_unique, find_first, update_first, find_unique-key}
use arcpass.Worker.Processor.{find_wallet}
use arcpass.Worker.Processor.Accounting.{completed_of, count_of, IsBalanced}
use arcpass.Api.Errors.{ok}
use arcpass.Api.Actions.{ApiStore}
use arcpass.Api.RateLimits.Rows.{IsKeyed, find_unique-found, find_first-holds}
use arcpass.Api.Wallets.{
  normalize_wallet_address, has_address, find_address, see_again, register_wallet,
}

module _ {A : Type 0} (key : A → ℕ) where
  find_unique-update_first :
      (p : A → Bool) (f : A → A) (k : ℕ) (xs : List A) (x : A)
      → ((y : A) → key (f y) ≡ key y)
      → find_first p xs ≡ some x
      → find_unique key k xs ≡ some x
      → find_unique key k (update_first p f xs) ≡ some (f x)
  find_unique-update_first p f k [] x same e u = cc
  find_unique-update_first p f k (y ∷ xs) x same e u = ground (
    arith,
    same y,
    same x,
    find_unique-update_first p f k xs x same,
    find_first-holds p (y ∷ xs) x e,
    find_unique-key key k (y ∷ xs) x u,
  )

count_of-found :
    (v : ℕ) (d : Database) (w : Wallet)
    → find_wallet v d ≡ some w
    → count_of v d ≡ w.sponsorship_count
count_of-found v d w h = rw (h, count_of) refl

-- A wallet that is registered again, and is not blocked, gets a sponsorship count that is one higher,
-- though nothing was sponsored: where each wallet's count was the number of its completed requests,
-- the count of this wallet is one too high afterwards.
pub register_wallet-overcounts :
    (new_wallet_id : List Wallet → ℕ) (now : ℕ) (raw_address : Option Text) (address : Text)
    (s : ApiStore) (w : Wallet)
    → normalize_wallet_address raw_address ≡ ok address
    → find_address address s.db ≡ some w
    → w.is_blocked ≡ false
    → IsKeyed (λ w. w.id) s.db.wallets
    → IsBalanced s.db
    → count_of w.id (register_wallet new_wallet_id now raw_address s).1.db
      ≡ completed_of w.id (register_wallet new_wallet_id now raw_address s).1.db + 1
unfolding register_wallet
register_wallet-overcounts new_wallet_id now raw_address address s w normal found free keyed
      balanced =
    rw registers (
      omega (
        arith,
        balanced w.id,
        count_of-found w.id s.db w before,
        count_of-found w.id (record s.db { wallets = wallets }) (see_again now w) found_after,
      ))
  where
    before : find_unique (λ w. w.id) w.id s.db.wallets ≡ some w
    before = find_unique-found (λ w. w.id) (has_address address) s.db.wallets w keyed found

    wallets : List Wallet
    wallets = update_first (has_address address) (see_again now) s.db.wallets

    registers : register_wallet new_wallet_id now raw_address s ≡ (
      ok (record { wallet = see_again now w; is_new = false }),
      record s { db = record s.db { wallets = wallets } },
    )
    registers = simp (normal, found, free)

    found_after : find_unique (λ w. w.id) w.id wallets ≡ some (see_again now w)
    found_after =
        find_unique-update_first (λ w. w.id) (has_address address) (see_again now) w.id s.db.wallets
          w (λ y. refl) found before
