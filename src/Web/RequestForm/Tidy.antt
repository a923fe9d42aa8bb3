-- ===== src/Web/RequestForm/Tidy.antt =====
-- What holds of the form after any events.
use arcpass.Prelude.{
  ℕ, ◌+◌, ◌≡◌, refl, sym, ap, ◌∙◌, Bool, true, false, ◌&&◌, ◌||◌, Option, none, some, List, [], ◌∷◌,
  Text, arith, leb, ◌==◌, ==_self, if◌then◌else◌, Bool-cases, inl, inr,
}
use arcpass.SponsorshipTypes.{SponsorshipStatus}
use arcpass.Web.ApiClient.{
  Failure, api_error, network_error, timeout_error, Fetched, fetched, failed,
  validate_wallet_address,
}
use arcpass.Web.RequestForm.{
  Form, Timer, Event, changes, submits, registers, creates, polls, retries, Submission,
  not_submitted, registering, creating, max_polling_retries, handle_address_change, stop_polling,
  clear_ref, polling_failed, show_detail, poll_status, start_polling, retry_request,
  handle_manual_retry, handle_submit, submit_failed, submit_succeeded, registered_at, created_at,
  is_in_flight, is_rate_limited, is_terminal_status, handle, handle_all,
}

abbrev pub is_some : Option ℕ → Bool
is_some none = false
is_some (some n) = true

-- The interval of the form is the only one that runs, and it polls the last request.
abbrev pub IsOnly : Option ℕ → Option ℕ → List Timer → Type 0
IsOnly none request_id timers = timers ≡ []
IsOnly (some h) request_id timers =
    (id : ℕ) × (request_id ≡ some id) × (timers ≡ record { handle = h; polled = id } ∷ [])

-- The form polls exactly if it has an interval; it offers a retry only when it does not poll; and
-- while it polls, fewer than three polls have failed in a row.
pub record IsTidy (s : Form) : Type 0 where
  pub polling : s.is_polling ≡ is_some s.polling_interval
  pub offers : (s.show_manual_retry && s.is_polling) ≡ false
  pub patient : (s.is_polling && leb max_polling_retries s.polling_retries) ≡ false
  pub only : IsOnly s.polling_interval s.request_id s.timers

-- No creation ends while the form polls another request.
abbrev pub IsCalm : List Event → Form → Type 0
IsCalm [] s = Unit
IsCalm (creates now (fetched id) ∷ es) s =
    (s.is_polling ≡ false) × IsCalm es (handle (creates now (fetched id)) s)
IsCalm (e ∷ es) s = IsCalm es (handle e s)

cleared : (o id : Option ℕ) (timers : List Timer) → IsOnly o id timers → clear_ref o timers ≡ []
cleared none id timers only = only
cleared (some h) id timers (n, same, only) = rw only (ground (arith, ==_self h))

-- Where the form stops, whatever the failed polls were.
stopped-IsTidy :
    (s : Form) → IsOnly s.polling_interval s.request_id s.timers → IsTidy (stop_polling s)
unfolding stop_polling
stopped-IsTidy s only = record {
  polling = refl;
  offers = ground arith;
  patient = refl;
  only = cleared s.polling_interval s.request_id s.timers only;
}

polling_failed-IsTidy :
    (message : Text) (s : Form)
    → IsOnly s.polling_interval s.request_id s.timers
    → IsTidy (polling_failed message s)
unfolding stop_polling
polling_failed-IsTidy message s only = record {
  polling = refl;
  offers = refl;
  patient = refl;
  only = cleared s.polling_interval s.request_id s.timers only;
}

show_detail-IsTidy :
    (status : SponsorshipStatus) (s : Form) → IsTidy s → IsTidy (show_detail status s)
show_detail-IsTidy status s h = record {
  polling = h.polling;
  offers = refl;
  patient = ground arith;
  only = h.only;
}

poll_status-IsTidy :
    (answer : Fetched SponsorshipStatus) (s : Form) → IsTidy s → IsTidy (poll_status answer s)
unfolding poll_status
poll_status-IsTidy (fetched status) s h = elim (Bool-cases (is_terminal_status status)) [
  | inl over ↦ rw over (stopped-IsTidy (show_detail status s) h.only)
  | inr more ↦ rw more (show_detail-IsTidy status s h)
]
poll_status-IsTidy (failed (network_error message)) s h =
    elim (Bool-cases (leb max_polling_retries (s.polling_retries + 1))) [
      | inl enough ↦ rw enough (polling_failed-IsTidy _ _ h.only)
      | inr few ↦
          rw few (record {
            polling = h.polling;
            offers = h.offers;
            patient = ground arith;
            only = h.only;
          })
    ]
poll_status-IsTidy (failed (api_error status message)) s h = polling_failed-IsTidy message s h.only
poll_status-IsTidy (failed timeout_error) s h = polling_failed-IsTidy _ s h.only

-- Polling starts where no interval runs.
start_polling-IsTidy :
    (id : ℕ) (s : Form) → s.request_id ≡ some id → s.timers ≡ [] → IsTidy (start_polling id s)
unfolding start_polling
start_polling-IsTidy id s asked none_runs = record {
  polling = refl;
  offers = refl;
  patient = refl;
  only = (id, asked, ap (λ ts. record { handle = s.next_handle; polled = id } ∷ ts) none_runs);
}

-- A form that does not poll has no timer.
quiet : (s : Form) → IsTidy s → s.is_polling ≡ false → s.timers ≡ []
quiet s h still = by_interval s.polling_interval h.only (sym h.polling ∙ still)
  where
    by_interval :
        (o : Option ℕ) → IsOnly o s.request_id s.timers → is_some o ≡ false → s.timers ≡ []
    by_interval none only e = only
    by_interval (some k) only e = absurd (ground arith)

handle_manual_retry-IsTidy : (s : Form) → IsTidy s → IsTidy (handle_manual_retry s)
unfolding handle_manual_retry
handle_manual_retry-IsTidy s h = by_button s.show_manual_retry h.offers
  where
    by_request :
        s.is_polling ≡ false → (o : Option ℕ) → s.request_id ≡ o → IsTidy (retry_request o s)
    by_request still none e = h
    by_request still (some id) e = start_polling-IsTidy id s e (quiet s h still)

    by_button :
        (shown : Bool)
        → (shown && s.is_polling) ≡ false
        → IsTidy (if shown then retry_request s.request_id s else s)
    by_button true still = by_request still s.request_id refl
    by_button false still = h

handle_submit-IsTidy : (now : ℕ) (s : Form) → IsTidy s → IsTidy (handle_submit now s)
unfolding handle_submit
handle_submit-IsTidy now s h =
    elim (Bool-cases (is_in_flight s.submission || is_rate_limited now s.rate_limit_until)) [
      | inl guarded ↦ rw guarded h
      | inr free ↦ rw free (elim (Bool-cases (validate_wallet_address s.wallet_address)) [
        | inl good ↦
            rw good
              (record { polling = h.polling; offers = refl; patient = h.patient; only = h.only })
        | inr bad ↦
            rw bad (record {
              polling = h.polling;
              offers = h.offers;
              patient = h.patient;
              only = h.only;
            })
      ])
    ]

submit_failed-IsTidy :
    (now : ℕ) (failure : Failure) (s : Form) → IsTidy s → IsTidy (submit_failed now failure s)
unfolding submit_failed
submit_failed-IsTidy now (api_error status message) s h = elim (Bool-cases (status == 429)) [
  | inl limited ↦
      rw limited
        (record { polling = h.polling; offers = h.offers; patient = h.patient; only = h.only })
  | inr other ↦
      rw other
        (record { polling = h.polling; offers = h.offers; patient = h.patient; only = h.only })
]
submit_failed-IsTidy now (network_error message) s h = record {
  polling = h.polling;
  offers = h.offers;
  patient = h.patient;
  only = h.only;
}
submit_failed-IsTidy now timeout_error s h = record {
  polling = h.polling;
  offers = h.offers;
  patient = h.patient;
  only = h.only;
}

handle_address_change-IsTidy :
    (value : Text) (s : Form) → IsTidy s → IsTidy (handle_address_change value s)
unfolding handle_address_change
handle_address_change-IsTidy [] s h = record {
  polling = h.polling;
  offers = h.offers;
  patient = h.patient;
  only = h.only;
}
handle_address_change-IsTidy (c ∷ value) s h =
    elim (Bool-cases (validate_wallet_address (c ∷ value))) [
      | inl good ↦
          rw good
            (record { polling = h.polling; offers = h.offers; patient = h.patient; only = h.only })
      | inr bad ↦
          rw bad
            (record { polling = h.polling; offers = h.offers; patient = h.patient; only = h.only })
    ]

submit_succeeded-IsTidy :
    (id : ℕ) (s : Form) → IsTidy s → s.is_polling ≡ false → IsTidy (submit_succeeded id s)
unfolding submit_succeeded start_polling
submit_succeeded-IsTidy id s h still = record {
  polling = refl;
  offers = refl;
  patient = refl;
  only =
      (id, refl, ap (λ ts. record { handle = s.next_handle; polled = id } ∷ ts) (quiet s h still));
}

registered_at-IsTidy :
    (m : Submission) (now : ℕ) (answer : Fetched (Unit {0})) (s : Form)
    → IsTidy s
    → IsTidy (registered_at m now answer s)
registered_at-IsTidy not_submitted now answer s h = h
registered_at-IsTidy (creating address) now answer s h = h
registered_at-IsTidy (registering address) now (fetched done) s h = record {
  polling = h.polling;
  offers = h.offers;
  patient = h.patient;
  only = h.only;
}
registered_at-IsTidy (registering address) now (failed failure) s h =
    submit_failed-IsTidy now failure s h

created_at-IsTidy :
    (m : Submission) (now id : ℕ) (s : Form)
    → IsTidy s
    → s.is_polling ≡ false
    → IsTidy (created_at m now (fetched id) s)
created_at-IsTidy not_submitted now id s h still = h
created_at-IsTidy (registering address) now id s h still = h
created_at-IsTidy (creating address) now id s h still = submit_succeeded-IsTidy id s h still

refused_at-IsTidy :
    (m : Submission) (now : ℕ) (failure : Failure) (s : Form)
    → IsTidy s
    → IsTidy (created_at m now (failed failure) s)
refused_at-IsTidy not_submitted now failure s h = h
refused_at-IsTidy (registering address) now failure s h = h
refused_at-IsTidy (creating address) now failure s h = submit_failed-IsTidy now failure s h

-- After any events the form is tidy, from a tidy form on: it polls exactly if its interval runs, this
-- is the only one in the browser and polls the request that is shown, a retry is offered only when it
-- does not poll, and fewer than three polls have failed in a row while it does. The condition is that
-- no creation succeeds while the form still polls an earlier request.
pub handle_all-IsTidy :
    (es : List Event) (s : Form) → IsCalm es s → IsTidy s → IsTidy (handle_all es s)
unfolding handle
handle_all-IsTidy [] s calm h = h
handle_all-IsTidy (changes value ∷ es) s calm h =
    handle_all-IsTidy es _ calm (handle_address_change-IsTidy value s h)
handle_all-IsTidy (submits now ∷ es) s calm h =
    handle_all-IsTidy es _ calm (handle_submit-IsTidy now s h)
handle_all-IsTidy (registers now answer ∷ es) s calm h =
    handle_all-IsTidy es _ calm (registered_at-IsTidy s.submission now answer s h)
handle_all-IsTidy (creates now (fetched id) ∷ es) s calm h =
    handle_all-IsTidy es _ calm.1 (created_at-IsTidy s.submission now id s h calm.0)
handle_all-IsTidy (creates now (failed failure) ∷ es) s calm h =
    handle_all-IsTidy es _ calm (refused_at-IsTidy s.submission now failure s h)
handle_all-IsTidy (polls answer ∷ es) s calm h =
    handle_all-IsTidy es _ calm (poll_status-IsTidy answer s h)
handle_all-IsTidy (retries ∷ es) s calm h =
    handle_all-IsTidy es _ calm (handle_manual_retry-IsTidy s h)
