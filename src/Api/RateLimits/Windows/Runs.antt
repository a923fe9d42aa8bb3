-- ===== src/Api/RateLimits/Windows/Runs.antt =====
-- Requests that come one after the other, at the rate limiter of the server and at that of the route.
use arcpass.Prelude.{
  ℕ, ◌*◌, ◌≤◌, ◌<◌, ◌≡◌, refl, false, ◌&&◌, Option, none, some, List, [], ◌∷◌, arith, if◌then◌else◌,
  Text, text_eq, text_eq→eq, and-true_left, and-true_right, Bool-cases, inl, inr,
}
use arcpass.Store.{RateLimit, IdentifierType, ip, wallet, user_agent}
use arcpass.Api.Errors.{Result, ok, err}
use arcpass.Api.Actions.{ApiStore, then_run, modify_limits}
use arcpass.Api.RateLimits.{
  RateConfig, type_eq, find_limit, check_found, increment_rows, first_record, limit_ip,
  limit_wallet, check_ip_rate_limit, check_wallet_rate_limit, increment_ip_request_count,
  increment_wallet_request_count, seconds,
}
use arcpass.Api.RateLimits.Rows.{
  Keyed, counted, IsFresh, increment-Keyed, find_limit-increment_self, find_limit-increment_ne,
  type_eq→eq,
}
use arcpass.Api.Replay.{check_key}
use arcpass.Api.RateLimits.Windows.Replays.{check_key-LeavesAlone}
use arcpass.Api.RateLimits.Windows.{
  count_within, IsWithin, count_record-IsWithin, count_record-started,
}

-- A request at a limiter, with its readings of the clock: at the check, and two at the increment.
pub data Arrival : Type 0 where
  by_ip by_wallet : (checked now later : ℕ) → Text → Arrival
  -- the replay protection sees a request, by its key
  by_replay : (now : ℕ) → Text → Arrival

-- The clock does not go back.
abbrev pub IsOrdered : ℕ → List Arrival → Type 0
IsOrdered t [] = Unit
IsOrdered t (by_ip checked now later address ∷ rest) =
    (t ≤ checked) × (checked ≤ now) × (now ≤ later) × IsOrdered later rest
IsOrdered t (by_wallet checked now later address ∷ rest) =
    (t ≤ checked) × (checked ≤ now) × (now ≤ later) × IsOrdered later rest
IsOrdered t (by_replay now key ∷ rest) = (t ≤ now) × IsOrdered now rest

-- No key of the replay protection is the identifier, whose rows it would restart.
abbrev pub IsApart : Text → IdentifierType → List Arrival → Type 0
IsApart identifier kind [] = Unit
IsApart identifier kind (by_replay now key ∷ rest) =
    ((text_eq key identifier && type_eq ip kind) ≡ false) × IsApart identifier kind rest
IsApart identifier kind (by_ip checked now later address ∷ rest) = IsApart identifier kind rest
IsApart identifier kind (by_wallet checked now later address ∷ rest) = IsApart identifier kind rest

module _ (config : RateConfig) (new_id : List RateLimit → ℕ) where
  abbrev pub max_of : IdentifierType → ℕ
  max_of ip = config.rate_limit_ip_max
  max_of wallet = config.rate_limit_wallet_max
  max_of user_agent = 0

  -- What a request leaves, by the outcome of its check.
  abbrev ends : Result (Unit {0}) → Text → IdentifierType → ℕ → ℕ → ApiStore → ApiStore
  ends (err e) other other_kind now later s = s
  ends (ok done) other other_kind now later s = record s {
    limits = increment_rows config new_id other other_kind (max_of other_kind) now later s.limits;
  }

  then_run-ends :
      (result : Result (Unit {0})) (other : Text) (other_kind : IdentifierType) (now later : ℕ)
      (s : ApiStore)
      → then_run
          (result, s)
          (λ done.
            modify_limits
              (increment_rows config new_id other other_kind (max_of other_kind) now later))
        ≡ (result, ends result other other_kind now later s)
  then_run-ends (ok tt) other other_kind now later s = refl
  then_run-ends (err e) other other_kind now later s = refl

  limit_ip-ends :
      (checked now later : ℕ) (address : Text) (s : ApiStore)
      → limit_ip config new_id checked now later address s ≡ (
        check_found config.rate_limit_window_ms config.rate_limit_ip_max none checked
            (find_limit address ip s.limits),
        ends
            (check_found config.rate_limit_window_ms config.rate_limit_ip_max none checked
              (find_limit address ip s.limits))
            address
            ip
            now
            later
            s,
      )
  unfolding limit_ip check_ip_rate_limit increment_ip_request_count
  limit_ip-ends checked now later address s = then_run-ends _ address ip now later s

  limit_wallet-ends :
      (checked now later : ℕ) (address : Text) (s : ApiStore)
      → limit_wallet config new_id checked now later address s ≡ (
        check_found config.rate_limit_window_ms config.rate_limit_wallet_max
            (some (seconds config.rate_limit_block_duration_ms))
            checked
            (find_limit address wallet s.limits),
        ends
            (check_found config.rate_limit_window_ms config.rate_limit_wallet_max
              (some (seconds config.rate_limit_block_duration_ms))
              checked
              (find_limit address wallet s.limits))
            address
            wallet
            now
            later
            s,
      )
  unfolding limit_wallet check_wallet_rate_limit increment_wallet_request_count
  limit_wallet-ends checked now later address s = then_run-ends _ address wallet now later s

  module _ (identifier : Text) (kind : IdentifierType) where
    -- The time of a request of the identifier goes on the list if the request passes.
    abbrev pub note : Text → IdentifierType → ℕ → Result (Unit {0}) → List ℕ → List ℕ
    note other other_kind now (err e) times = times
    note other other_kind now (ok done) times =
        if text_eq other identifier && type_eq other_kind kind then now ∷ times else times

    -- The times at which requests of the identifier have passed, the last one first.
    abbrev pub passed : List Arrival → ApiStore → List ℕ → List ℕ
    passed [] s times = times
    passed (by_ip checked now later address ∷ rest) s times =
        let (result, s') = limit_ip config new_id checked now later address s in
        passed rest s' (note address ip now result times)
    passed (by_wallet checked now later address ∷ rest) s times =
        let (result, s') = limit_wallet config new_id checked now later address s in
        passed rest s' (note address wallet now result times)
    passed (by_replay now key ∷ rest) s times = passed rest (check_key new_id now key s).1 times

    abbrev Tracks : ℕ → Option RateLimit → List ℕ → Type 0
    Tracks t none times = times ≡ []
    Tracks t (some r) times =
        (r.window_start ≤ t) × IsWithin (max_of kind) config.rate_limit_window_ms times r

    record IsSound (t : ℕ) (s : ApiStore) (times : List ℕ) : Type 0 where
      keyed : Keyed s.limits
      tracks : Tracks t (find_limit identifier kind s.limits) times

    module _ (fresh : IsFresh new_id) (positive : 0 < config.rate_limit_window_ms)
        (some_max : 0 < max_of kind) where
      Tracks-spread :
          (t from : ℕ) (o : Option RateLimit) (times : List ℕ)
          → Tracks t o times
          → count_within from config.rate_limit_window_ms times ≤ 2 * max_of kind
      Tracks-spread t from none times h = rw h (omega arith)
      Tracks-spread t from (some r) times h = h.1.spread from

      Tracks-later :
          (t u : ℕ) (o : Option RateLimit) (times : List ℕ)
          → t ≤ u
          → Tracks t o times
          → Tracks u o times
      Tracks-later t u none times le h = h
      Tracks-later t u (some r) times le h = (omega arith, h.1)

      first-IsWithin :
          (now : ℕ) (name : Text) (id : ℕ)
          → IsWithin
              (max_of kind)
              config.rate_limit_window_ms
              (now ∷ [])
              (first_record name kind now id)
      first-IsWithin now name id = record {
        bounded = omega arith;
        counted = ground arith;
        ended = ground arith;
        straddling = λ t h. ground arith;
        spread = λ t. ground arith;
      }

      Tracks-counted :
          (t checked now later : ℕ) (at_limit : Option ℕ) (limits : List RateLimit)
          (o : Option RateLimit) (times : List ℕ)
          → t ≤ checked
          → checked ≤ now
          → check_found config.rate_limit_window_ms (max_of kind) at_limit checked o ≡ ok tt
          → Tracks t o times
          → Tracks now
              (some (counted config new_id (max_of kind) now later identifier kind limits o))
              (now ∷ times)
      Tracks-counted t checked now later at_limit limits none times le le' h tracks =
          rw tracks (omega arith, first-IsWithin now identifier (new_id limits))
      Tracks-counted t checked now later at_limit limits (some r) times le le' h tracks = (
        count_record-started config (max_of kind) checked now later at_limit times r tracks.1
            (omega arith) le' positive some_max h,
        count_record-IsWithin config (max_of kind) checked now later at_limit times r tracks.1
            (omega arith) le' positive some_max h,
      )

      -- A request of the identifier that passes its check.
      own-IsSound :
          (t checked now later : ℕ) (at_limit : Option ℕ) (s : ApiStore) (times : List ℕ)
          → t ≤ checked
          → checked ≤ now
          → now ≤ later
          → check_found config.rate_limit_window_ms
              (max_of kind)
              at_limit
              checked
              (find_limit identifier kind s.limits)
            ≡ ok tt
          → IsSound t s times
          → IsSound later
              (record s {
                limits =
                    increment_rows config new_id identifier kind (max_of kind) now later s.limits;
              })
              (now ∷ times)
      own-IsSound t checked now later at_limit s times le le' le'' h sound = record {
        keyed =
            increment-Keyed config new_id (max_of kind) now later identifier kind s.limits fresh
              sound.keyed;
        tracks =
            rw
              (find_limit-increment_self config new_id (max_of kind) now later identifier kind
                s.limits sound.keyed)
              (Tracks-later now later
                (some (
                  counted config new_id (max_of kind) now later identifier kind s.limits
                    (find_limit identifier kind s.limits)))
                (now ∷ times) le''
                (Tracks-counted t checked now later at_limit s.limits
                  (find_limit identifier kind s.limits) times le le' h sound.tracks));
      }

      -- A request of another identifier.
      other-IsSound :
          (other : Text) (other_kind : IdentifierType) (max t now later : ℕ) (s : ApiStore)
          (times : List ℕ)
          → t ≤ later
          → (text_eq other identifier && type_eq other_kind kind) ≡ false
          → IsSound t s times
          → IsSound later
              (record s {
                limits = increment_rows config new_id other other_kind max now later s.limits;
              })
              times
      other-IsSound other other_kind max t now later s times le ne sound = record {
        keyed =
            increment-Keyed config new_id max now later other other_kind s.limits fresh sound.keyed;
        tracks =
            rw
              (find_limit-increment_ne config new_id max now later other identifier other_kind kind
                s.limits sound.keyed ne)
              (Tracks-later t later (find_limit identifier kind s.limits) times le sound.tracks);
      }

      -- The replay protection sees a request with another key.
      check_key-IsSound :
          (key : Text) (t now : ℕ) (s : ApiStore) (times : List ℕ)
          → t ≤ now
          → (text_eq key identifier && type_eq ip kind) ≡ false
          → IsSound t s times
          → IsSound now (check_key new_id now key s).1 times
      check_key-IsSound key t now s times le ne sound =
          let left = check_key-LeavesAlone new_id now key identifier kind fresh ne s sound.keyed in
          record {
            keyed = left.keyed;
            tracks =
                rw left.same
                  (Tracks-later t now (find_limit identifier kind s.limits) times le sound.tracks);
          }

      later-IsSound :
          (t u : ℕ) (s : ApiStore) (times : List ℕ) → t ≤ u → IsSound t s times → IsSound u s times
      later-IsSound t u s times le sound = record {
        keyed = sound.keyed;
        tracks = Tracks-later t u (find_limit identifier kind s.limits) times le sound.tracks;
      }

      -- A request at a limiter, whatever identifier it has, and whether it passes or not.
      request-IsSound :
          (other : Text) (other_kind : IdentifierType) (t checked now later : ℕ)
          (at_limit : Option ℕ) (s : ApiStore) (times : List ℕ)
          → t ≤ checked
          → checked ≤ now
          → now ≤ later
          → IsSound t s times
          → (result : Result (Unit {0}))
          → check_found config.rate_limit_window_ms
              (max_of other_kind)
              at_limit
              checked
              (find_limit other other_kind s.limits)
            ≡ result
          → IsSound later
              (ends result other other_kind now later s)
              (note other other_kind now result times)
      request-IsSound other other_kind t checked now later at_limit s times le le' le'' sound
            (err e) h =
          later-IsSound t later s times (omega arith) sound
      request-IsSound other other_kind t checked now later at_limit s times le le' le'' sound
            (ok tt) h =
          elim (Bool-cases (text_eq other identifier && type_eq other_kind kind)) [
            | inl same ↦
                let e =
                  text_eq→eq other identifier
                    (and-true_left (text_eq other identifier) (type_eq other_kind kind) same) in
                let e' =
                  type_eq→eq other_kind kind
                    (and-true_right (text_eq other identifier) (type_eq other_kind kind) same) in
                rw same (
                  rw (e, e')
                    (own-IsSound t checked now later at_limit s times le le' le'' (rw (← e, ← e') h)
                      sound))
            | inr ne ↦ rw ne (
                other-IsSound other other_kind (max_of other_kind) t now later s times (omega arith)
                  ne sound)
          ]

      run-IsSound :
          (t : ℕ) (arrivals : List Arrival) (s : ApiStore) (times : List ℕ)
          → IsOrdered t arrivals
          → IsApart identifier kind arrivals
          → IsSound t s times
          → (from : ℕ)
          → count_within from config.rate_limit_window_ms (passed arrivals s times)
            ≤ 2 * max_of kind
      run-IsSound t [] s times ordered apart sound from =
          Tracks-spread t from (find_limit identifier kind s.limits) times sound.tracks
      run-IsSound t (by_ip checked now later address ∷ rest) s times (le, le', le'', ordered) apart
            sound from =
          rw (limit_ip-ends checked now later address s) (
            run-IsSound later rest _ _ ordered apart
              (request-IsSound address ip t checked now later none s times le le' le'' sound _ refl)
              from)
      run-IsSound t (by_wallet checked now later address ∷ rest) s times (le, le', le'', ordered)
            apart sound from =
          rw (limit_wallet-ends checked now later address s) (
            run-IsSound later rest _ _ ordered apart
              (request-IsSound address wallet t checked now later
                (some (seconds config.rate_limit_block_duration_ms)) s times le le' le'' sound _
                refl)
              from)
      run-IsSound t (by_replay now key ∷ rest) s times (le, ordered) (ne, apart) sound from =
          run-IsSound now rest _ times ordered apart
            (check_key-IsSound key t now s times le ne sound) from

  -- Requests come one after the other, at clocks that do not go back, and no record of the identifier
  -- is there at the start. Then in any stretch of time that is as long as the window, at most twice
  -- the limit of its requests pass the limiter, whatever other requests the two limiters and the
  -- replay protection see between, as long as none that the replay protection sees has the identifier
  -- itself for its key. Conditions: the window and the limit are positive, as the configuration
  -- demands, and the database gives new ids.
  pub passed-le :
      (identifier : Text) (kind : IdentifierType) (t from : ℕ) (arrivals : List Arrival)
      (s : ApiStore)
      → IsFresh new_id
      → 0 < config.rate_limit_window_ms
      → 0 < max_of kind
      → IsOrdered t arrivals
      → IsApart identifier kind arrivals
      → Keyed s.limits
      → find_limit identifier kind s.limits ≡ none
      → count_within from config.rate_limit_window_ms (passed identifier kind arrivals s [])
        ≤ 2 * max_of kind
  passed-le identifier kind t from arrivals s fresh positive some_max ordered apart keyed absent =
      run-IsSound identifier kind fresh positive some_max t arrivals s [] ordered apart
        (record { keyed = keyed; tracks = rw absent refl }) from
