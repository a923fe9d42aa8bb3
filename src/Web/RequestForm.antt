-- ===== src/Web/RequestForm.antt =====
-- apps/web/src/components/features/request-form.tsx: the state of the form, and what each event does
-- to it. `timers` holds the intervals that the browser runs, with the request that each one polls.
pub mod Tidy
pub mod Leaks
use arcpass.Prelude.{
  ℕ, ◌+◌, ◌*◌, ◌-◌, ◌==◌, Bool, true, false, not, ◌&&◌, ◌||◌, Option, none, some, List, [], ◌∷◌,
  ◌++◌, Text, codes, ltb, leb, if◌then◌else◌,
}
use arcpass.SponsorshipTypes.{SponsorshipStatus, pending, approved, rejected, relayed, completed}
use arcpass.Store.Table.{keep_rows}
use arcpass.Web.ApiClient.{
  Failure, api_error, network_error, timeout_error, Fetched, fetched, failed,
  validate_wallet_address,
}

pub data ValidationState : Type 0 where
  untouched valid invalid : ValidationState

pub data RequestState : Type 0 where
  idle loading success error : RequestState

-- What a submission waits for: the registration, then the creation.
pub data Submission : Type 0 where
  not_submitted : Submission
  registering creating : Text → Submission

pub record Timer : Type 0 where
  pub handle : ℕ
  pub polled : ℕ

pub record Form : Type 0 where
  pub wallet_address : Text
  pub validation_state : ValidationState
  pub validation_error : Option Text
  pub request_state : RequestState
  pub request_id : Option ℕ
  pub sponsorship : Option SponsorshipStatus
  pub is_polling : Bool
  pub polling_retries : ℕ
  pub polling_error : Option Text
  pub show_manual_retry : Bool
  pub rate_limit_seconds : Option ℕ
  pub rate_limit_until : Option ℕ
  pub polling_interval : Option ℕ
  pub submission : Submission
  pub timers : List Timer
  pub next_handle : ℕ

abbrev pub max_polling_retries : ℕ
max_polling_retries = 3

abbrev pub is_terminal_status : SponsorshipStatus → Bool
is_terminal_status completed = true
is_terminal_status SponsorshipStatus.failed = true
is_terminal_status rejected = true
is_terminal_status pending = false
is_terminal_status approved = false
is_terminal_status relayed = false

abbrev pub invalid_address : Text
invalid_address = codes "Invalid wallet address. Must be 0x followed by 40 hex characters."

unfoldable pub handle_address_change : Text → Form → Form
handle_address_change [] s = record s {
  wallet_address = [];
  validation_state = untouched;
  validation_error = none;
}
handle_address_change (c ∷ value) s =
    if validate_wallet_address (c ∷ value)
    then record s { wallet_address = c ∷ value; validation_state = valid; validation_error = none }
    else record s {
      wallet_address = c ∷ value;
      validation_state = invalid;
      validation_error = some invalid_address;
    }

-- `clearInterval`.
abbrev pub clear_interval : ℕ → List Timer → List Timer
clear_interval handle timers = keep_rows (λ t. not (t.handle == handle)) timers

abbrev pub clear_ref : Option ℕ → List Timer → List Timer
clear_ref none timers = timers
clear_ref (some handle) timers = clear_interval handle timers

unfoldable pub stop_polling : Form → Form
stop_polling s = record s {
  timers = clear_ref s.polling_interval s.timers;
  polling_interval = none;
  is_polling = false;
}

abbrev pub polling_failed : Text → Form → Form
polling_failed message s = record (stop_polling s) {
  polling_error = some message;
  show_manual_retry = true;
}

abbrev pub show_detail : SponsorshipStatus → Form → Form
show_detail status s = record s {
  sponsorship = some status;
  polling_error = none;
  show_manual_retry = false;
  polling_retries = 0;
}

-- The end of a poll: the status that came, or the failure.
unfoldable pub poll_status : Fetched SponsorshipStatus → Form → Form
poll_status (fetched status) s =
    if is_terminal_status status then stop_polling (show_detail status s) else show_detail status s
poll_status (failed (network_error message)) s =
    let s' = record s { polling_retries = s.polling_retries + 1 } in
    if leb max_polling_retries s'.polling_retries
    then polling_failed (codes "Unable to reach the server. Please check your connection.") s'
    else s'
poll_status (failed (api_error status message)) s = polling_failed message s
poll_status (failed timeout_error) s =
    polling_failed (codes "An unexpected error occurred while checking status.") s

-- The first poll is an event of its own.
unfoldable pub start_polling : ℕ → Form → Form
start_polling id s = record s {
  is_polling = true;
  polling_error = none;
  show_manual_retry = false;
  polling_retries = 0;
  polling_interval = some s.next_handle;
  timers = record { handle = s.next_handle; polled = id } ∷ s.timers;
  next_handle = s.next_handle + 1;
}

abbrev pub retry_request : Option ℕ → Form → Form
retry_request none s = s
retry_request (some id) s = start_polling id s

-- The button is there only while `showManualRetry` and an error are.
unfoldable pub handle_manual_retry : Form → Form
handle_manual_retry s = if s.show_manual_retry then retry_request s.request_id s else s

abbrev pub is_rate_limited : ℕ → Option ℕ → Bool
is_rate_limited now none = false
is_rate_limited now (some until) = ltb now until

abbrev pub is_in_flight : Submission → Bool
is_in_flight not_submitted = false
is_in_flight (registering address) = true
is_in_flight (creating address) = true

-- `now` is the time of the last rendering, at which `isRateLimited` is computed.
unfoldable pub handle_submit : ℕ → Form → Form
handle_submit now s =
    if is_in_flight s.submission || is_rate_limited now s.rate_limit_until
    then s
    else if validate_wallet_address s.wallet_address
    then record s {
      submission = registering s.wallet_address;
      request_state = loading;
      validation_error = none;
      rate_limit_seconds = none;
      polling_error = none;
      show_manual_retry = false;
    }
    else record s { validation_state = invalid; validation_error = some invalid_address }

-- `message.match(/(\d+)/)` with `parseInt`.
abbrev pub read_number : ℕ → Text → ℕ
read_number n [] = n
read_number n (c ∷ s) =
    let rest = read_number (10 * n + (c - 48)) s in if leb 48 c && leb c 57 then rest else n

abbrev pub first_number : Text → Option ℕ
first_number [] = none
first_number (c ∷ s) =
    let rest = first_number s in if leb 48 c && leb c 57 then some (read_number 0 (c ∷ s)) else rest

abbrev pub or_sixty : Option ℕ → ℕ
or_sixty none = 60
or_sixty (some n) = n

abbrev pub show_invalid : Text → Form → Form
show_invalid message s = record s { validation_state = invalid; validation_error = some message }

abbrev pub cool_down : ℕ → ℕ → Form → Form
cool_down now seconds s = record s {
  rate_limit_seconds = some seconds;
  rate_limit_until = some (now + seconds * 1000);
}

abbrev pub show_failure : ℕ → Failure → Form → Form
show_failure now (api_error status message) s =
    if status == 429
    then cool_down now (or_sixty (first_number message)) s
    else show_invalid message s
show_failure now (network_error message) s =
    show_invalid (codes "Network error. Please check your connection and try again.") s
show_failure now timeout_error s = s

-- The `catch` and the `finally` of a submission.
unfoldable pub submit_failed : ℕ → Failure → Form → Form
submit_failed now failure s =
    record (show_failure now failure (record s { request_state = error })) {
      submission = not_submitted;
    }

unfoldable pub submit_succeeded : ℕ → Form → Form
submit_succeeded id s =
    record (start_polling id
      (record s { request_id = some id; sponsorship = none; request_state = success })) {
        submission = not_submitted;
      }

-- The answer to `registerWallet`, and the one to `createSponsorshipRequest`.
abbrev pub registered_at : Submission → ℕ → Fetched (Unit {0}) → Form → Form
registered_at (registering address) now (fetched done) s = record s {
  submission = creating address;
}
registered_at (registering address) now (failed failure) s = submit_failed now failure s
registered_at _ now answer s = s

abbrev pub created_at : Submission → ℕ → Fetched ℕ → Form → Form
created_at (creating address) now (fetched id) s = submit_succeeded id s
created_at (creating address) now (failed failure) s = submit_failed now failure s
created_at _ now answer s = s

-- What happens to the form: the user's input, the answers, and the end of polls.
pub data Event : Type 0 where
  changes : Text → Event
  submits : ℕ → Event
  registers : ℕ → Fetched (Unit {0}) → Event
  creates : ℕ → Fetched ℕ → Event
  polls : Fetched SponsorshipStatus → Event
  retries : Event

unfoldable pub handle : Event → Form → Form
handle (changes value) s = handle_address_change value s
handle (submits now) s = handle_submit now s
handle (registers now answer) s = registered_at s.submission now answer s
handle (creates now answer) s = created_at s.submission now answer s
handle (polls answer) s = poll_status answer s
handle retries s = handle_manual_retry s

abbrev pub handle_all : List Event → Form → Form
handle_all [] s = s
handle_all (e ∷ es) s = handle_all es (handle e s)

-- The form when it is first shown.
abbrev pub fresh_form : Form
fresh_form = record {
  wallet_address = [];
  validation_state = untouched;
  validation_error = none;
  request_state = idle;
  request_id = none;
  sponsorship = none;
  is_polling = false;
  polling_retries = 0;
  polling_error = none;
  show_manual_retry = false;
  rate_limit_seconds = none;
  rate_limit_until = none;
  polling_interval = none;
  submission = not_submitted;
  timers = [];
  next_handle = 0;
}
