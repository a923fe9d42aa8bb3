-- ===== src/Api/RateLimits/Rows.antt =====
-- The records of the rate limiter: one row for each identifier is counted, and no other is touched.
mod Keys
pub use Keys.*
use arcpass.Prelude.{
  ℕ, ◌≡◌, refl, ◌∙◌, and-true_left, and-true_right, Bool, true, false, ◌&&◌, Option, none, some,
  List, [], ◌∷◌, ◌++◌, Text, text_eq, text_eq→eq, text_eq_self, ◌==◌, ==_iff, ==_self, arith,
  Bool-cases, inl, inr,
}
use arcpass.Store.{RateLimit, IdentifierType, ip, wallet, user_agent}
use arcpass.Store.Table.{find_first, find_unique, update_row, find_unique-append, find_unique-key}
use arcpass.Api.RateLimits.{
  RateConfig, type_eq, is_limit_of, find_limit, count_record, first_record, increment_rows,
  increment_found,
}

type_eq_self : (kind : IdentifierType) → type_eq kind kind ≡ true
type_eq_self ip = refl
type_eq_self wallet = refl
type_eq_self user_agent = refl

pub type_eq→eq : (a b : IdentifierType) → type_eq a b ≡ true → a ≡ b
type_eq→eq ip ip h = refl
type_eq→eq wallet wallet h = refl
type_eq→eq user_agent user_agent h = refl
type_eq→eq ip wallet h = cc
type_eq→eq ip user_agent h = cc
type_eq→eq wallet ip h = cc
type_eq→eq wallet user_agent h = cc
type_eq→eq user_agent ip h = cc
type_eq→eq user_agent wallet h = cc

abbrev pub Keyed : List RateLimit → Type 0
Keyed limits = IsKeyed (λ r. r.id) limits

-- A row of one identifier is of another one exactly if the two are the same.
pub is_limit_of-other :
    (a b : Text) (k l : IdentifierType) (r : RateLimit)
    → is_limit_of a k r ≡ true
    → is_limit_of b l r ≡ (text_eq a b && type_eq k l)
is_limit_of-other a b k l r h =
    rw
      (
        text_eq→eq r.identifier a
            (and-true_left (text_eq r.identifier a) (type_eq r.identifier_type k) h),
        type_eq→eq r.identifier_type k
            (and-true_right (text_eq r.identifier a) (type_eq r.identifier_type k) h),
      )
      refl

-- The ids that the database gives are new ones.
abbrev pub IsFresh : (List RateLimit → ℕ) → Type 0
IsFresh new_id = (limits : List RateLimit) → find_unique (λ r. r.id) (new_id limits) limits ≡ none

module _ (config : RateConfig) (new_id : List RateLimit → ℕ) (max now later : ℕ) where
  -- The record of an identifier after one more request.
  abbrev pub counted : Text → IdentifierType → List RateLimit → Option RateLimit → RateLimit
  counted identifier kind limits none = first_record identifier kind now (new_id limits)
  counted identifier kind limits (some r) = count_record config max now later r

  count_record-id : (r : RateLimit) → (count_record config max now later r).id ≡ r.id
  unfolding count_record
  count_record-id r = ground arith

  count_record-limit :
      (identifier : Text) (kind : IdentifierType) (r : RateLimit)
      → is_limit_of identifier kind (count_record config max now later r)
        ≡ is_limit_of identifier kind r
  unfolding count_record
  count_record-limit identifier kind r = ground arith

  pub increment-Keyed :
      (identifier : Text) (kind : IdentifierType) (limits : List RateLimit)
      → IsFresh new_id
      → Keyed limits
      → Keyed (increment_rows config new_id identifier kind max now later limits)
  increment-Keyed identifier kind limits fresh keyed = by_found (find_limit identifier kind limits)
    where
      by_found :
          (o : Option RateLimit)
          → Keyed (increment_found config new_id identifier kind max now later o limits)
      by_found none = append-IsKeyed (λ r. r.id) limits _ (fresh limits) keyed
      by_found (some r) =
          update-IsKeyed (λ r. r.id) r.id (count_record config max now later) limits count_record-id
            keyed

  pub find_limit-increment_self :
      (identifier : Text) (kind : IdentifierType) (limits : List RateLimit)
      → Keyed limits
      → find_limit identifier kind
          (increment_rows config new_id identifier kind max now later limits)
        ≡ some (counted identifier kind limits (find_limit identifier kind limits))
  find_limit-increment_self identifier kind limits keyed =
      by_found (find_limit identifier kind limits) refl
    where
      by_found :
          (o : Option RateLimit)
          → find_limit identifier kind limits ≡ o
          → find_limit identifier kind
              (increment_found config new_id identifier kind max now later o limits)
            ≡ some (counted identifier kind limits o)
      by_found none e =
          find_first-append_new (is_limit_of identifier kind) limits
            (first_record identifier kind now (new_id limits)) e
            (rw (text_eq_self identifier, type_eq_self kind) refl)
      by_found (some r) e =
          find_first-update_self (λ r. r.id) (is_limit_of identifier kind) r.id
            (count_record config max now later) limits r (count_record-limit identifier kind)
            (find_unique-found (λ r. r.id) (is_limit_of identifier kind) limits r keyed e) e

  pub find_limit-increment_ne :
      (identifier other : Text) (kind other_kind : IdentifierType) (limits : List RateLimit)
      → Keyed limits
      → (text_eq identifier other && type_eq kind other_kind) ≡ false
      → find_limit other other_kind
          (increment_rows config new_id identifier kind max now later limits)
        ≡ find_limit other other_kind limits
  find_limit-increment_ne identifier other kind other_kind limits keyed ne =
      by_found (find_limit identifier kind limits) refl
    where
      by_found :
          (o : Option RateLimit)
          → find_limit identifier kind limits ≡ o
          → find_limit other other_kind
              (increment_found config new_id identifier kind max now later o limits)
            ≡ find_limit other other_kind limits
      by_found none e =
          find_first-append_ne (is_limit_of other other_kind) limits
            (first_record identifier kind now (new_id limits)) ne
      by_found (some r) e =
          find_first-update_ne (λ r. r.id) (is_limit_of other other_kind) r.id
            (count_record config max now later) limits r (count_record-limit other other_kind)
            (find_unique-found (λ r. r.id) (is_limit_of identifier kind) limits r keyed e)
            (is_limit_of-other identifier other kind other_kind r
                (find_first-holds (is_limit_of identifier kind) limits r e)
              ∙ ne)
