-- ===== src/Web/RequestForm/Leaks.antt =====
-- What becomes of the interval of a request when another request is created while it is polled.
use arcpass.Prelude.{
  ℕ, ◌+◌, ◌≡◌, ◌<◌, refl, sym, subst, Bool, true, false, not, ◌||◌, Option, none, some, List, [],
  ◌∷◌, Text, arith, any, leb, ◌==◌, ==_iff, if◌then◌else◌, Bool-cases, inl, inr,
}
use arcpass.SponsorshipTypes.{SponsorshipStatus}
use arcpass.Web.ApiClient.{
  Failure, api_error, network_error, timeout_error, Fetched, fetched, failed,
  validate_wallet_address,
}
use arcpass.Web.RequestForm.{
  Form, Timer, Event, changes, submits, registers, creates, polls, retries, Submission,
  not_submitted, registering, creating, success, max_polling_retries, handle_address_change,
  stop_polling, clear_interval, clear_ref, polling_failed, show_detail, poll_status, start_polling,
  retry_request, handle_manual_retry, handle_submit, submit_failed, submit_succeeded, registered_at,
  created_at, is_in_flight, is_rate_limited, is_terminal_status, handle, handle_all,
}

-- An interval that runs.
abbrev pub runs : ℕ → Form → Bool
runs k s = any (λ t. t.handle == k) s.timers

abbrev is_other : ℕ → Option ℕ → Bool
is_other k none = true
is_other k (some h) = not (h == k)

-- An interval that runs and that the form has lost.
record IsLost (k : ℕ) (s : Form) : Type 0 where
  running : runs k s ≡ true
  older : k < s.next_handle
  lost : is_other k s.polling_interval ≡ true

keeps_other :
    (k h : ℕ) (timers : List Timer)
    → not (h == k) ≡ true
    → any (λ t. t.handle == k) timers ≡ true
    → any (λ t. t.handle == k) (clear_interval h timers) ≡ true
keeps_other k h [] e r = r
keeps_other k h (t ∷ ts) e r =
    ground (arith, ==_iff t.handle k, ==_iff h k, ==_iff t.handle h, keeps_other k h ts e)

cleared-runs :
    (k : ℕ) (o : Option ℕ) (timers : List Timer)
    → is_other k o ≡ true
    → any (λ t. t.handle == k) timers ≡ true
    → any (λ t. t.handle == k) (clear_ref o timers) ≡ true
cleared-runs k none timers e r = r
cleared-runs k (some h) timers e r = keeps_other k h timers e r

module _ (k : ℕ) where
  stop_polling-IsLost : (s : Form) → IsLost k s → IsLost k (stop_polling s)
  unfolding stop_polling
  stop_polling-IsLost s h = record {
    running = cleared-runs k s.polling_interval s.timers h.lost h.running;
    older = h.older;
    lost = refl;
  }

  polling_failed-IsLost :
      (message : Text) (s : Form) → IsLost k s → IsLost k (polling_failed message s)
  polling_failed-IsLost message s h =
      let stopped = stop_polling-IsLost s h in
      record { running = stopped.running; older = stopped.older; lost = stopped.lost }

  start_polling-IsLost : (id : ℕ) (s : Form) → IsLost k s → IsLost k (start_polling id s)
  unfolding start_polling
  start_polling-IsLost id s h = record {
    running = ground (arith, h.running);
    older = omega (arith, h.older);
    lost = ground (arith, h.older, ==_iff s.next_handle k);
  }

  poll_status-IsLost :
      (answer : Fetched SponsorshipStatus) (s : Form) → IsLost k s → IsLost k (poll_status answer s)
  unfolding poll_status
  poll_status-IsLost (fetched status) s h = elim (Bool-cases (is_terminal_status status)) [
    | inl over ↦ rw over (
        stop_polling-IsLost (show_detail status s)
          (record { running = h.running; older = h.older; lost = h.lost }))
    | inr more ↦ rw more (record { running = h.running; older = h.older; lost = h.lost })
  ]
  poll_status-IsLost (failed (network_error message)) s h =
      elim (Bool-cases (leb max_polling_retries (s.polling_retries + 1))) [
        | inl enough ↦ rw enough (
            polling_failed-IsLost _ _
              (record { running = h.running; older = h.older; lost = h.lost }))
        | inr few ↦ rw few (record { running = h.running; older = h.older; lost = h.lost })
      ]
  poll_status-IsLost (failed (api_error status message)) s h = polling_failed-IsLost message s h
  poll_status-IsLost (failed timeout_error) s h = polling_failed-IsLost _ s h

  handle_manual_retry-IsLost : (s : Form) → IsLost k s → IsLost k (handle_manual_retry s)
  unfolding handle_manual_retry
  handle_manual_retry-IsLost s h = by_button s.show_manual_retry
    where
      by_request : (o : Option ℕ) → IsLost k (retry_request o s)
      by_request none = h
      by_request (some id) = start_polling-IsLost id s h

      by_button : (shown : Bool) → IsLost k (if shown then retry_request s.request_id s else s)
      by_button true = by_request s.request_id
      by_button false = h

  handle_submit-IsLost : (now : ℕ) (s : Form) → IsLost k s → IsLost k (handle_submit now s)
  unfolding handle_submit
  handle_submit-IsLost now s h =
      elim (Bool-cases (is_in_flight s.submission || is_rate_limited now s.rate_limit_until)) [
        | inl guarded ↦ rw guarded h
        | inr free ↦ rw free (elim (Bool-cases (validate_wallet_address s.wallet_address)) [
          | inl good ↦ rw good (record { running = h.running; older = h.older; lost = h.lost })
          | inr bad ↦ rw bad (record { running = h.running; older = h.older; lost = h.lost })
        ])
      ]

  submit_failed-IsLost :
      (now : ℕ) (failure : Failure) (s : Form) → IsLost k s → IsLost k (submit_failed now failure s)
  unfolding submit_failed
  submit_failed-IsLost now (api_error status message) s h = elim (Bool-cases (status == 429)) [
    | inl limited ↦ rw limited (record { running = h.running; older = h.older; lost = h.lost })
    | inr other ↦ rw other (record { running = h.running; older = h.older; lost = h.lost })
  ]
  submit_failed-IsLost now (network_error message) s h = record {
    running = h.running;
    older = h.older;
    lost = h.lost;
  }
  submit_failed-IsLost now timeout_error s h = record {
    running = h.running;
    older = h.older;
    lost = h.lost;
  }

  handle_address_change-IsLost :
      (value : Text) (s : Form) → IsLost k s → IsLost k (handle_address_change value s)
  unfolding handle_address_change
  handle_address_change-IsLost [] s h = record {
    running = h.running;
    older = h.older;
    lost = h.lost;
  }
  handle_address_change-IsLost (c ∷ value) s h =
      elim (Bool-cases (validate_wallet_address (c ∷ value))) [
        | inl good ↦ rw good (record { running = h.running; older = h.older; lost = h.lost })
        | inr bad ↦ rw bad (record { running = h.running; older = h.older; lost = h.lost })
      ]

  submit_succeeded-IsLost : (id : ℕ) (s : Form) → IsLost k s → IsLost k (submit_succeeded id s)
  unfolding submit_succeeded
  submit_succeeded-IsLost id s h =
      let started =
        start_polling-IsLost id
          (record s { request_id = some id; sponsorship = none; request_state = success })
          (record { running = h.running; older = h.older; lost = h.lost }) in
      record { running = started.running; older = started.older; lost = started.lost }

  registered_at-IsLost :
      (m : Submission) (now : ℕ) (answer : Fetched (Unit {0})) (s : Form)
      → IsLost k s
      → IsLost k (registered_at m now answer s)
  registered_at-IsLost not_submitted now answer s h = h
  registered_at-IsLost (creating address) now answer s h = h
  registered_at-IsLost (registering address) now (fetched done) s h = record {
    running = h.running;
    older = h.older;
    lost = h.lost;
  }
  registered_at-IsLost (registering address) now (failed failure) s h =
      submit_failed-IsLost now failure s h

  created_at-IsLost :
      (m : Submission) (now : ℕ) (answer : Fetched ℕ) (s : Form)
      → IsLost k s
      → IsLost k (created_at m now answer s)
  created_at-IsLost not_submitted now answer s h = h
  created_at-IsLost (registering address) now answer s h = h
  created_at-IsLost (creating address) now (fetched id) s h = submit_succeeded-IsLost id s h
  created_at-IsLost (creating address) now (failed failure) s h =
      submit_failed-IsLost now failure s h

  handle_all-IsLost : (es : List Event) (s : Form) → IsLost k s → IsLost k (handle_all es s)
  unfolding handle
  handle_all-IsLost [] s h = h
  handle_all-IsLost (changes value ∷ es) s h =
      handle_all-IsLost es _ (handle_address_change-IsLost value s h)
  handle_all-IsLost (submits now ∷ es) s h = handle_all-IsLost es _ (handle_submit-IsLost now s h)
  handle_all-IsLost (registers now answer ∷ es) s h =
      handle_all-IsLost es _ (registered_at-IsLost s.submission now answer s h)
  handle_all-IsLost (creates now answer ∷ es) s h =
      handle_all-IsLost es _ (created_at-IsLost s.submission now answer s h)
  handle_all-IsLost (polls answer ∷ es) s h = handle_all-IsLost es _ (poll_status-IsLost answer s h)
  handle_all-IsLost (retries ∷ es) s h = handle_all-IsLost es _ (handle_manual_retry-IsLost s h)

-- An interval that runs when a creation succeeds, so the one of an earlier request that the form still
-- polls, runs on whatever happens later, also when the polling has stopped: the form keeps the handle
-- of the last interval only. Handles of intervals are numbered upwards.
pub submit_succeeded-leaks :
    (k id now : ℕ) (address : Text) (es : List Event) (s : Form)
    → s.submission ≡ creating address
    → runs k s ≡ true
    → k < s.next_handle
    → runs k (handle_all (creates now (fetched id) ∷ es) s) ≡ true
unfolding handle submit_succeeded start_polling
submit_succeeded-leaks k id now address es s waits running older =
    (handle_all-IsLost k es (handle (creates now (fetched id)) s)
      (subst (λ m. IsLost k (created_at m now (fetched id) s)) (sym waits) created)).running
  where
    created : IsLost k (submit_succeeded id s)
    created = record {
      running = ground (arith, running);
      older = omega (arith, older);
      lost = ground (arith, older, ==_iff s.next_handle k);
    }
