-- ===== src/Api/Routes/Requests/Refusals.antt =====
-- The hooks of the limiter and of the replay protection, which leave the database alone and refuse by
-- nothing but a 429, and the addresses that do not normalise.
use arcpass.Prelude.{
  ℕ, ◌+◌, leb, ◌≡◌, refl, Bool, none, some, Option, List, Text, trim, Bool-cases, inl, inr, true,
  false, [], ◌∷◌, ◌&&◌, codes, text_eq, if◌then◌else◌,
}
use arcpass.Store.{RateLimit, ip, wallet, Database}
use arcpass.Store.Table.{find_first}
use arcpass.Api.Wallets.{normalize_wallet_address, is_wallet_address}
use arcpass.Api.Errors.{Result, ok, err}
use arcpass.Api.Actions.{Action, ApiStore, then_run, modify_limits, pure}
use arcpass.Api.Responses.{send_thrown, Reply}
use arcpass.Api.Replay.{Request, replay_protection, check_body, answer, composite_key, is_recent}
use arcpass.Api.RateLimits.{
  get_client_ip, RateConfig, seconds, limit_ip, limit_wallet, check_record, check_found,
  check_ip_rate_limit, check_wallet_rate_limit, increment_ip_request_count,
  increment_wallet_request_count, find_limit, is_blocked_at, increment_rows,
}
use arcpass.Api.Routes.{Platform}

limited-db :
    (r : Result (Unit {0})) (k : Action (Unit {0})) (s : ApiStore)
    → (k s).1.db ≡ s.db
    → (then_run (r, s) (λ done. k)).1.db ≡ s.db
limited-db (ok done) k s same = same
limited-db (err e) k s same = refl

-- An error of the limiter has the status 429.
abbrev pub IsLimited : Result (Unit {0}) × ApiStore → Type 0
IsLimited (ok done, s) = Unit
IsLimited (err e, s) = (is_production : Bool) → (send_thrown is_production e).status ≡ 429

then_run-IsLimited :
    (r : Result (Unit {0})) (f : List RateLimit → List RateLimit) (s : ApiStore)
    → IsLimited (r, s)
    → IsLimited (then_run (r, s) (λ done. modify_limits f))
then_run-IsLimited (ok done) f s h = tt
then_run-IsLimited (err e) f s h = h

check_record-IsLimited :
    (window_ms max : ℕ) (at_limit : Option ℕ) (now : ℕ) (r : RateLimit) (s : ApiStore)
    → IsLimited (check_record window_ms max at_limit now r, s)
unfolding check_record
check_record-IsLimited window_ms max at_limit now r s =
    elim (Bool-cases (is_blocked_at now r.blocked_until)) [
      | inl blocked ↦ rw blocked (λ p. refl)
      | inr free ↦ rw free (elim (Bool-cases (leb (r.window_start + window_ms) now)) [
        | inl over ↦ rw over tt
        | inr within ↦ rw within (elim (Bool-cases (leb max r.request_count)) [
          | inl full ↦ rw full (λ p. refl)
          | inr room ↦ rw room tt
        ])
      ])
    ]

check_found-IsLimited :
    (window_ms max : ℕ) (at_limit : Option ℕ) (now : ℕ) (o : Option RateLimit) (s : ApiStore)
    → IsLimited (check_found window_ms max at_limit now o, s)
check_found-IsLimited window_ms max at_limit now none s = tt
check_found-IsLimited window_ms max at_limit now (some r) s =
    check_record-IsLimited window_ms max at_limit now r s

module _ (config : RateConfig) (new_id : List RateLimit → ℕ) (checked now later : ℕ)
    (address : Text) (s : ApiStore) where
  pub limit_ip-db : (limit_ip config new_id checked now later address s).1.db ≡ s.db
  unfolding limit_ip check_ip_rate_limit increment_ip_request_count
  limit_ip-db =
      limited-db
        (check_found config.rate_limit_window_ms config.rate_limit_ip_max none checked
          (find_limit address ip s.limits))
        (increment_ip_request_count config new_id now later address) s refl

  pub limit_wallet-db : (limit_wallet config new_id checked now later address s).1.db ≡ s.db
  unfolding limit_wallet check_wallet_rate_limit increment_wallet_request_count
  limit_wallet-db =
      limited-db
        (check_found config.rate_limit_window_ms config.rate_limit_wallet_max
          (some (seconds config.rate_limit_block_duration_ms)) checked
          (find_limit address wallet s.limits))
        (increment_wallet_request_count config new_id now later address) s refl

  pub limit_ip-IsLimited : IsLimited (limit_ip config new_id checked now later address s)
  unfolding limit_ip check_ip_rate_limit increment_ip_request_count
  limit_ip-IsLimited =
      then_run-IsLimited _
        (increment_rows config new_id address ip config.rate_limit_ip_max now later) s
        (check_found-IsLimited config.rate_limit_window_ms config.rate_limit_ip_max none checked
          (find_limit address ip s.limits) s)

  pub limit_wallet-IsLimited : IsLimited (limit_wallet config new_id checked now later address s)
  unfolding limit_wallet check_wallet_rate_limit increment_wallet_request_count
  limit_wallet-IsLimited =
      then_run-IsLimited _
        (increment_rows config new_id address wallet config.rate_limit_wallet_max now later) s
        (check_found-IsLimited config.rate_limit_window_ms config.rate_limit_wallet_max
          (some (seconds config.rate_limit_block_duration_ms)) checked
          (find_limit address wallet s.limits) s)

-- An address that does not normalise is answered by a 400.
abbrev pub IsInvalid : Result Text → Type 0
IsInvalid (ok address) = Unit
IsInvalid (err e) = (is_production : Bool) → (send_thrown is_production e).status ≡ 400

pub normalize-IsInvalid : (raw : Option Text) → IsInvalid (normalize_wallet_address raw)
unfolding normalize_wallet_address
normalize-IsInvalid none = λ p. refl
normalize-IsInvalid (some text) = elim (Bool-cases (is_wallet_address (trim text))) [
  | inl valid ↦ rw valid tt
  | inr invalid ↦ rw invalid (λ p. refl)
]

module _ (platform : Platform) (request : Request) (s : ApiStore) where
  -- What the hook of the replay protection leaves.
  abbrev pub Replied : Database → Result (Option Reply) × ApiStore → Type 0
  Replied d (ok none, t) = t.db ≡ d
  Replied d (ok (some reply), t) = (t.db ≡ d) × (reply.status ≡ 429)
  Replied d (err e, t) = ⊥

  answer-Replied :
      (key : Text) (o : Option RateLimit)
      → Replied s.db (answer platform.new_limit_id platform.replay_now key o s)
  answer-Replied key none = refl
  answer-Replied key (some r) = (refl, refl)

  check_body-Replied :
      (a : Option Text) (client_ip : Text)
      → Replied s.db (check_body platform.new_limit_id platform.replay_now a client_ip s)
  check_body-Replied none client_ip = refl
  check_body-Replied (some []) client_ip = refl
  check_body-Replied (some (c ∷ wallet_address)) client_ip =
      let key = composite_key (c ∷ wallet_address) client_ip in
      answer-Replied key (find_first (is_recent platform.replay_now key) s.limits)

  pub replay_protection-Replied :
      Replied s.db (replay_protection platform.new_limit_id platform.replay_now request s)
  unfolding replay_protection
  replay_protection-Replied =
      by_route (
        text_eq request.method (codes "POST") && text_eq request.url (codes "/sponsorship/request"))
    where
      by_route :
          (b : Bool)
          → Replied s.db (
              (if b
                  then check_body platform.new_limit_id platform.replay_now request.wallet_address
                      (get_client_ip request.forwarded request.address)
                  else pure none)
                s)
      by_route true =
          check_body-Replied request.wallet_address
            (get_client_ip request.forwarded request.address)
      by_route false = refl
