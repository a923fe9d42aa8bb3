-- ===== src/Api/Replay/Once.antt =====
-- Between two requests that the plugin lets through with one key lie at least five seconds.
use arcpass.Prelude.{
  ℕ, ◌+◌, ◌≤◌, ◌<◌, ◌≡◌, refl, sym, ap, ◌∙◌, Bool, true, ◌&&◌, Option, none, some, List, [], ◌∷◌,
  ◌++◌, Text, codes, text_eq, text_eq_self, leb, arith, any, All, Bool-cases, inl, inr,
}
use arcpass.Store.{RateLimit, IdentifierType, ip}
use arcpass.Store.Table.{find_first, find_unique}
use arcpass.Api.Errors.{ok}
use arcpass.Api.Actions.{ApiStore}
use arcpass.Api.Responses.{Reply}
use arcpass.Api.RateLimits.{
  RateConfig, find_limit, get_client_ip, is_limit_of, write_limit, first_record, count_record,
  increment_rows, increment_found, block_found,
}
use arcpass.Api.RateLimits.Rows.{Keyed, find_unique-found, find_first-holds}
use arcpass.Api.Replay.{
  replay_window_ms, is_recent, duplicate, restart, record_found, answer, check_key, Request,
  replay_protection, composite_key,
}

-- A record of the key whose window starts at `t` or later.
abbrev is_since : ℕ → Text → RateLimit → Bool
is_since t key r = is_limit_of key ip r && leb t r.window_start

any-append_left :
    (p : RateLimit → Bool) (xs ys : List RateLimit) → any p xs ≡ true → any p (xs ++ ys) ≡ true
any-append_left p [] ys h = cc
any-append_left p (x ∷ xs) ys h = ground (arith, any-append_left p xs ys)

any-append_last :
    (p : RateLimit → Bool) (xs : List RateLimit) (y : RateLimit)
    → p y ≡ true
    → any p (xs ++ y ∷ []) ≡ true
any-append_last p [] y h = rw h refl
any-append_last p (x ∷ xs) y h = ground (arith, any-append_last p xs y)

any-write_limit :
    (p : RateLimit → Bool) (id : ℕ) (f : RateLimit → RateLimit) (xs : List RateLimit)
    → ((x : RateLimit) → p x ≡ true → p (f x) ≡ true)
    → any p xs ≡ true
    → any p (write_limit id f xs) ≡ true
any-write_limit p id f [] keep h = cc
any-write_limit p id f (x ∷ xs) keep h = ground (arith, keep x, any-write_limit p id f xs keep)

any-written :
    (p : RateLimit → Bool) (k : ℕ) (f : RateLimit → RateLimit) (xs : List RateLimit) (r : RateLimit)
    → find_unique (λ q. q.id) k xs ≡ some r
    → p (f r) ≡ true
    → any p (write_limit k f xs) ≡ true
any-written p k f [] r e h = cc
any-written p k f (x ∷ xs) r e h = ground (arith, any-written p k f xs r)

-- Another use of the table between two requests: the limiter's counts and blocks, and the plugin's
-- check of a request, each at its time.
pub data Use : Type 0 where
  increments : Text → IdentifierType → ℕ → ℕ → ℕ → Use
  blocks : Text → IdentifierType → ℕ → ℕ → Use
  checks : Text → ℕ → Use

abbrev pub time_of : Use → ℕ
time_of (increments identifier kind max now later) = now
time_of (blocks identifier kind until now) = now
time_of (checks key now) = now

module _ (config : RateConfig) (new_id : List RateLimit → ℕ) where
  abbrev pub use_table : Use → ApiStore → ApiStore
  use_table (increments identifier kind max now later) s = record s {
    limits = increment_rows config new_id identifier kind max now later s.limits;
  }
  use_table (blocks identifier kind until now) s = record s {
    limits =
        block_found config new_id identifier kind until now (find_limit identifier kind s.limits)
          s.limits;
  }
  use_table (checks key now) s = (check_key new_id now key s).1

  abbrev pub use_all : List Use → ApiStore → ApiStore
  use_all [] s = s
  use_all (u ∷ us) s = use_all us (use_table u s)

  module _ (t : ℕ) (key : Text) where
    abbrev HasSince : List RateLimit → Type 0
    HasSince limits = any (is_since t key) limits ≡ true

    restart-since :
        (now : ℕ) (r : RateLimit)
        → t ≤ now
        → is_since t key r ≡ true
        → is_since t key (restart now r) ≡ true
    restart-since now r late h = ground (arith)

    count_record-since :
        (max now later : ℕ) (r : RateLimit)
        → t ≤ now
        → is_since t key r ≡ true
        → is_since t key (count_record config max now later r) ≡ true
    unfolding count_record
    count_record-since max now later r late h = ground (arith)

    use_table-since :
        (u : Use) (s : ApiStore)
        → t ≤ time_of u
        → HasSince s.limits
        → HasSince (use_table u s).limits
    use_table-since (increments identifier kind max now later) s late h =
        by_found (find_limit identifier kind s.limits)
      where
        by_found :
            (o : Option RateLimit)
            → HasSince (increment_found config new_id identifier kind max now later o s.limits)
        by_found none = any-append_left (is_since t key) s.limits _ h
        by_found (some r) =
            any-write_limit (is_since t key) r.id (count_record config max now later) s.limits
              (λ x. count_record-since max now later x late) h
    use_table-since (blocks identifier kind until now) s late h =
        by_found (find_limit identifier kind s.limits)
      where
        by_found :
            (o : Option RateLimit)
            → HasSince (block_found config new_id identifier kind until now o s.limits)
        by_found none = any-append_left (is_since t key) s.limits _ h
        by_found (some r) =
            any-write_limit (is_since t key) r.id (λ r. record r { blocked_until = some until })
              s.limits (λ x k. k) h
    use_table-since (checks other now) s late h =
        by_recent (find_first (is_recent now other) s.limits)
      where
        by_found : (o : Option RateLimit) → HasSince (record_found new_id now other o s.limits)
        by_found none = any-append_left (is_since t key) s.limits _ h
        by_found (some r) =
            any-write_limit (is_since t key) r.id (restart now) s.limits
              (λ x. restart-since now x late) h

        by_recent : (o : Option RateLimit) → HasSince (answer new_id now other o s).1.limits
        by_recent none = by_found (find_limit other ip s.limits)
        by_recent (some r) = h

    use_all-since :
        (us : List Use) (s : ApiStore)
        → All (λ u. t ≤ time_of u) us
        → HasSince s.limits
        → HasSince (use_all us s).limits
    use_all-since [] s late h = h
    use_all-since (u ∷ us) s late h =
        use_all-since us (use_table u s) late.1 (use_table-since u s late.0 h)

    -- A request that is let through leaves a record of its time.
    accepted-since :
        (s : ApiStore)
        → Keyed s.limits
        → (check_key new_id t key s).0 ≡ ok none
        → HasSince (check_key new_id t key s).1.limits
    accepted-since s keyed = by_recent (find_first (is_recent t key) s.limits)
      where
        by_found :
            (o : Option RateLimit)
            → find_limit key ip s.limits ≡ o
            → HasSince (record_found new_id t key o s.limits)
        by_found none e =
            any-append_last (is_since t key) s.limits (first_record key ip t (new_id s.limits))
              (rw (text_eq_self key) (ground arith))
        by_found (some r) e =
            any-written (is_since t key) r.id (restart t) s.limits r
              (find_unique-found (λ q. q.id) (is_limit_of key ip) s.limits r keyed e)
              (ground (arith, find_first-holds (is_limit_of key ip) s.limits r e))

        by_recent :
            (o : Option RateLimit)
            → (answer new_id t key o s).0 ≡ ok none
            → HasSince (answer new_id t key o s).1.limits
        by_recent none h = by_found (find_limit key ip s.limits) refl
        by_recent (some r) h = absurd (ground arith)

    recent-found :
        (now : ℕ) (limits : List RateLimit)
        → now < t + replay_window_ms
        → HasSince limits
        → (r : RateLimit) × (find_first (is_recent now key) limits ≡ some r)
    recent-found now [] soon h = absurd (ground arith)
    recent-found now (x ∷ xs) soon h = elim (Bool-cases (is_recent now key x)) [
      | inl recent ↦ (x, rw recent refl)
      | inr old ↦ rw old (recent-found now xs soon (ground arith))
    ]

    check_key-once :
        (now : ℕ) (us : List Use) (s : ApiStore)
        → Keyed s.limits
        → (check_key new_id t key s).0 ≡ ok none
        → All (λ u. t ≤ time_of u) us
        → now < t + replay_window_ms
        → let s' = use_all us (check_key new_id t key s).1 in
          (reply : Reply) × (check_key new_id now key s' ≡ (ok (some reply), s'))
          × (reply.status ≡ 429)
    check_key-once now us s keyed accepted late soon =
        let s' = use_all us (check_key new_id t key s).1 in
        let (r, found) =
          recent-found now s'.limits soon (
            use_all-since us (check_key new_id t key s).1 late (accepted-since s keyed accepted)) in
        (duplicate now r, ap (λ o. answer new_id now key o s') found, refl)

replay_protection-check_key :
    (new_id : List RateLimit → ℕ) (now : ℕ) (request : Request) (c : ℕ) (wallet_address : Text)
    (s : ApiStore)
    → (text_eq request.method (codes "POST") && text_eq request.url (codes "/sponsorship/request"))
      ≡ true
    → request.wallet_address ≡ some (c ∷ wallet_address)
    → replay_protection new_id now request s
      ≡ check_key new_id now
          (composite_key (c ∷ wallet_address) (get_client_ip request.forwarded request.address))
          s
unfolding replay_protection
replay_protection-check_key new_id now request c wallet_address s post body = rw (post, body) refl

-- Of two requests that the plugin sees with one wallet address, in the same spelling, and from one
-- client address, the second is refused with status 429 if it comes less than five seconds after the
-- first was let through, whatever the limiter and the plugin do to the table in between, at that time
-- or later: all of them share its rows. The ids of the rows are unique when the first one comes. The
-- refused request changes nothing.
pub replay_protection-once :
    (config : RateConfig) (new_id : List RateLimit → ℕ) (t now : ℕ) (request : Request) (c : ℕ)
    (wallet_address : Text) (uses : List Use) (s : ApiStore)
    → (text_eq request.method (codes "POST") && text_eq request.url (codes "/sponsorship/request"))
      ≡ true
    → request.wallet_address ≡ some (c ∷ wallet_address)
    → Keyed s.limits
    → (replay_protection new_id t request s).0 ≡ ok none
    → All (λ u. t ≤ time_of u) uses
    → now < t + replay_window_ms
    → let s' = use_all config new_id uses (replay_protection new_id t request s).1 in
      (reply : Reply) × (replay_protection new_id now request s' ≡ (ok (some reply), s'))
      × (reply.status ≡ 429)
replay_protection-once config new_id t now request c wallet_address uses s post body keyed accepted
      late soon =
    let key =
      composite_key (c ∷ wallet_address) (get_client_ip request.forwarded request.address) in
    let same = λ (n : ℕ) (q : ApiStore).
      replay_protection-check_key new_id n request c wallet_address q post body in
    let first = same t s in
    let (reply, refused, status) =
      check_key-once config new_id t key now uses s keyed (ap (λ p. p.0) (sym first) ∙ accepted)
        late soon in
    (
      reply,
      same now (use_all config new_id uses (replay_protection new_id t request s).1)
          ∙ rw first refused,
      status,
    )
