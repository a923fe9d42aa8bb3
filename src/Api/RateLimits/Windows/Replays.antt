-- ===== src/Api/RateLimits/Windows/Replays.antt =====
-- What the replay protection (apps/api/src/plugins/replay-protection.js) does to the rows of the rate
-- limiter, which it shares.
use arcpass.Prelude.{ℕ, ◌≡◌, refl, ◌∙◌, false, ◌&&◌, Option, none, some, List, Text, text_eq}
use arcpass.Store.{RateLimit, IdentifierType, ip}
use arcpass.Store.Table.{find_first}
use arcpass.Api.Actions.{ApiStore}
use arcpass.Api.RateLimits.{type_eq, find_limit, is_limit_of, first_record}
use arcpass.Api.RateLimits.Rows.{
  Keyed, IsFresh, append-IsKeyed, update-IsKeyed, find_first-append_ne, find_first-update_ne,
  find_first-holds, find_unique-found, is_limit_of-other,
}
use arcpass.Api.Replay.{is_recent, restart, record_found, record_request, answer, check_key}

-- The rows stay keyed, and those of another identifier stay as they are.
pub record LeavesAlone (other : Text) (other_kind : IdentifierType) (before after : List RateLimit)
    : Type 0 where
  pub keyed : Keyed after
  pub same : find_limit other other_kind after ≡ find_limit other other_kind before

module _ (new_id : List RateLimit → ℕ) (now : ℕ) (key other : Text) (other_kind : IdentifierType)
    (fresh : IsFresh new_id) (ne : (text_eq key other && type_eq ip other_kind) ≡ false) where
  record_request-LeavesAlone :
      (limits : List RateLimit)
      → Keyed limits
      → LeavesAlone other other_kind limits (record_request new_id now key limits)
  record_request-LeavesAlone limits keyed = by_found (find_limit key ip limits) refl
    where
      by_found :
          (o : Option RateLimit)
          → find_limit key ip limits ≡ o
          → LeavesAlone other other_kind limits (record_found new_id now key o limits)
      by_found none e = record {
        keyed = append-IsKeyed (λ r. r.id) limits _ (fresh limits) keyed;
        same =
            find_first-append_ne (is_limit_of other other_kind) limits
              (first_record key ip now (new_id limits)) ne;
      }
      by_found (some r) e = record {
        keyed = update-IsKeyed (λ r. r.id) r.id (restart now) limits (λ q. refl) keyed;
        same =
            find_first-update_ne (λ r. r.id) (is_limit_of other other_kind) r.id (restart now)
              limits r (λ q. refl)
              (find_unique-found (λ r. r.id) (is_limit_of key ip) limits r keyed e)
              (is_limit_of-other key other ip other_kind r
                  (find_first-holds (is_limit_of key ip) limits r e)
                ∙ ne);
      }

  pub check_key-LeavesAlone :
      (s : ApiStore)
      → Keyed s.limits
      → LeavesAlone other other_kind s.limits (check_key new_id now key s).1.limits
  check_key-LeavesAlone s keyed = by_recent (find_first (is_recent now key) s.limits)
    where
      by_recent :
          (o : Option RateLimit)
          → LeavesAlone other other_kind s.limits (answer new_id now key o s).1.limits
      by_recent none = record_request-LeavesAlone s.limits keyed
      by_recent (some r) = record { keyed = keyed; same = refl }
