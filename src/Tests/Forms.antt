-- ===== src/Tests/Forms.antt =====
-- The client, the proxy and the form of apps/web.
use arcpass.Prelude.{
  ℕ, ◌≡◌, ◌≤◌, refl, true, Option, none, some, List, [], ◌∷◌, Text, codes, starts_with, text_eq,
  to_lower, arith,
}
use arcpass.SponsorshipTypes.{pending, completed}
use arcpass.Worker.Config.{is_hex_text}
use arcpass.Api.Wallets.{is_wallet_address}
use arcpass.Web.ApiClient.{
  api_error, network_error, fetched, failed, Answer, response, parsed, unparsed,
  validate_wallet_address, fetch_with_timeout,
}
use arcpass.Web.ApiClient.Outcomes.{fetch_with_timeout-fetched}
use arcpass.Web.Proxy.{Header, get_header, client_ip, is_skipped, forward_headers}
use arcpass.Web.Proxy.Forwarding.{forward_headers-get}
use arcpass.Web.RequestForm.{
  Form, Event, changes, submits, registers, creates, polls, creating, first_number, handle,
  handle_all, handle_address_change, handle_submit, submit_succeeded, submit_failed, start_polling,
  stop_polling, poll_status, fresh_form,
}
use arcpass.Web.RequestForm.Tidy.{IsTidy, handle_all-IsTidy}
use arcpass.Web.RequestForm.Leaks.{runs, submit_succeeded-leaks}

abbrev address : Text
address = codes "0xabcdefabcdefabcdefabcdefabcdefabcdefabcd"

abbrev other_address : Text
other_address = codes "0xabcdefabcdefabcdefabcdefabcdefabcdefabce"

steps : Unit {0}
unfolding handle handle_address_change handle_submit submit_succeeded submit_failed start_polling
    stop_polling poll_status validate_wallet_address is_wallet_address is_hex_text starts_with
    fetch_with_timeout
steps = tt

abbrev ask : Text → ℕ → List Event
ask value id = changes value ∷ submits 1 ∷ registers 2 (fetched tt) ∷ creates 3 (fetched id) ∷ []

-- One request to its end.
abbrev visit : List Event
visit =
    changes address
    ∷ submits 1
    ∷ registers 2 (fetched tt)
    ∷ creates 3 (fetched 10)
    ∷ polls (failed (network_error []))
    ∷ polls (fetched pending)
    ∷ polls (fetched completed)
    ∷ []

handle_all-IsTidy_example : IsTidy (handle_all visit fresh_form)
unfolding steps
handle_all-IsTidy_example =
    handle_all-IsTidy visit fresh_form (refl, tt)
      (record { polling = refl; offers = refl; patient = refl; only = refl })

-- The form polls request 10, and waits for the creation of another one.
abbrev waiting : Form
waiting = record (handle_all (ask address 10) fresh_form) { submission = creating other_address }

submit_succeeded-leaks_example :
    runs 0 (
      handle_all
        (creates 4 (fetched 11) ∷ polls (fetched completed) ∷ polls (fetched completed) ∷ [])
        waiting)
    ≡ true
unfolding steps
submit_succeeded-leaks_example =
    submit_succeeded-leaks 0 11 4 other_address
      (polls (fetched completed) ∷ polls (fetched completed) ∷ []) waiting refl refl (omega arith)

abbrev down : Answer ℕ
down = response 503 none (unparsed [])

abbrev created_answer : Answer ℕ
created_answer = response 201 none (parsed 7)

fetch_with_timeout-fetched_example :
    (status : ℕ) × (error : Option Text) × (created_answer ≡ response status error (parsed 7))
    × (200 ≤ status)
    × (status ≤ 299)
unfolding steps
fetch_with_timeout-fetched_example =
    fetch_with_timeout-fetched (λ n. codes "9") created_answer 7 refl

waiting_tests :
    ((handle_all (ask other_address 11) (handle_all (ask address 10) fresh_form)).is_polling ≡ true)
    × (first_number (codes "Too many requests. Please try again later.") ≡ none)
    × (first_number (codes "retry in 42 s") ≡ some 42)
    × (fetch_with_timeout (λ n. codes "9") down ≡ failed (api_error 503 (codes "HTTP 9")))
unfolding steps
waiting_tests = (refl, refl, refl, refl)

abbrev browser_headers : List Header
browser_headers =
    record { name = codes "connection"; value = codes "close" }
    ∷ record { name = codes "x-forwarded-for"; value = codes "1.2.3.4" }
    ∷ []

names : Unit {0}
unfolding text_eq client_ip is_skipped to_lower forward_headers
names = tt

forward_headers-get_example :
    get_header (codes "x-forwarded-for") (forward_headers browser_headers) ≡ some (codes "1.2.3.4")
unfolding names
forward_headers-get_example =
    forward_headers-get browser_headers (codes "x-forwarded-for") (refl, (refl, tt)) refl

connection_test : get_header (codes "connection") (forward_headers browser_headers) ≡ none
unfolding names
connection_test = refl
