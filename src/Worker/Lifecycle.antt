-- ===== src/Worker/Lifecycle.antt =====
-- apps/worker/src/lifecycle.ts: the guarded updates of a request's and of a relay's status.
pub mod Effects
use arcpass.Prelude.{
  ℕ, ◌+◌, Bool, Option, none, some, [], ◌∷◌, ◌++◌, Text, leb, ◌==◌, if◌then◌else◌,
}
use arcpass.SponsorshipTypes.{
  SponsorshipStatus, approved, rejected, completed, RelayStatus, queued, submitted, confirmed,
  is_valid_sponsorship_transition, is_valid_relay_transition,
}
use arcpass.Store.{Database, SponsorshipRequest, RelayTransaction, EventData}
use arcpass.Store.Table.{find_unique, update_row, count_rows}
use arcpass.Worker.Tx.{
  Tx, Host, TransitionError, request_not_found, relay_not_found, invalid_transition,
  invalid_relay_transition, max_relay_attempts, pure, throw, gets, modify, new_date, ◌>>=◌, ◌>>◌,
}

pub data TransitionResult : Type 0 where
  success : TransitionResult
  failure : TransitionError → TransitionResult

pub data RequestTimestamp : Type 0 where
  approved_at rejected_at completed_at failed_at : RequestTimestamp

-- `STATUS_TIMESTAMP_FIELD`.
abbrev pub status_timestamp_field : SponsorshipStatus → Option RequestTimestamp
status_timestamp_field approved = some approved_at
status_timestamp_field rejected = some rejected_at
status_timestamp_field completed = some completed_at
status_timestamp_field SponsorshipStatus.failed = some failed_at
status_timestamp_field _ = none

abbrev pub set_timestamp : RequestTimestamp → ℕ → SponsorshipRequest → SponsorshipRequest
set_timestamp approved_at t r = record r { approved_at = some t }
set_timestamp rejected_at t r = record r { rejected_at = some t }
set_timestamp completed_at t r = record r { completed_at = some t }
set_timestamp failed_at t r = record r { failed_at = some t }

-- The `data` of the update: the status, and a timestamp where `updateData` has one.
abbrev pub set_status :
    SponsorshipStatus → Option (RequestTimestamp × ℕ) → SponsorshipRequest → SponsorshipRequest
set_status new none r = record r { status = new }
set_status new (some (field, t)) r = set_timestamp field t (record r { status = new })

abbrev pub write_request : ℕ → (SponsorshipRequest → SponsorshipRequest) → Database → Database
write_request id f db = record db { requests = update_row (λ r. r.id) id f db.requests }

abbrev pub find_request : ℕ → Database → Option SponsorshipRequest
find_request id db = find_unique (λ r. r.id) id db.requests

-- `new Date()` is evaluated for the statuses that have a timestamp only.
abbrev pub timestamp_for : Host → Option RequestTimestamp → Tx (Option (RequestTimestamp × ℕ))
timestamp_for host none = pure none
timestamp_for host (some field) = do t ← new_date host; pure (some (field, t))

unfoldable pub transition_found :
    Host → ℕ → SponsorshipStatus → SponsorshipRequest → Tx TransitionResult
transition_found host id new request =
    if is_valid_sponsorship_transition request.status new
    then (do
      stamp ← timestamp_for host (status_timestamp_field new)
      modify (write_request id (set_status new stamp))
      pure success)
    else pure (failure (invalid_transition request.status new))

abbrev pub transition_row :
    Host → ℕ → SponsorshipStatus → Option SponsorshipRequest → Tx TransitionResult
transition_row host id new none = pure (failure request_not_found)
transition_row host id new (some request) = transition_found host id new request

unfoldable pub transition_sponsorship_status : Host → ℕ → SponsorshipStatus → Tx TransitionResult
transition_sponsorship_status host id new = do
  request ← gets (find_request id)
  transition_row host id new request

-- `DEFAULT_MAX_RELAY_ATTEMPTS`.
abbrev pub default_max_relay_attempts : ℕ
default_max_relay_attempts = 3

-- `getRetryCount`: the relay transactions of a request.
abbrev pub is_relay_of : ℕ → RelayTransaction → Bool
is_relay_of id relay = relay.sponsorship_request_id == id

abbrev pub retry_count : ℕ → Database → ℕ
retry_count id db = count_rows (is_relay_of id) db.relays

unfoldable pub get_retry_count : ℕ → Tx ℕ
get_retry_count id = gets (retry_count id)

abbrev pub new_relay : ℕ → ℕ → ℕ → RelayTransaction
new_relay relay_id id attempt = record {
  id = relay_id;
  sponsorship_request_id = id;
  transaction_hash = none;
  status = queued;
  relay_attempt = attempt;
  submitted_at = none;
  confirmed_at = none;
  failed_at = none;
  failure_reason = none;
  block_number = none;
  event_name = none;
  event_data = none;
  explorer_url = none;
}

-- The identifier and the attempt of the relay transaction that `createRelayTransaction` made.
pub record CreatedRelay : Type 0 where
  pub id : ℕ
  pub relay_attempt : ℕ

abbrev pub add_relay : RelayTransaction → Database → Database
add_relay relay db = record db { relays = db.relays ++ relay ∷ [] }

unfoldable pub create_relay_transaction : Host → ℕ → ℕ → Tx CreatedRelay
create_relay_transaction host id max_attempts = do
  existing ← gets (retry_count id)
  if leb max_attempts existing then throw (max_relay_attempts max_attempts id) else (do
    relay_id ← gets (λ db. host.new_relay_id db.relays)
    modify (add_relay (new_relay relay_id id (existing + 1)))
    pure (record { id = relay_id; relay_attempt = existing + 1 }))

-- The optional `data`: `none` is `undefined`, and `some none` is `null`.
pub record RelayData : Type 0 where
  pub transaction_hash : Option Text
  pub failure_reason : Option Text
  pub block_number : Option (Option ℕ)
  pub event_name : Option (Option Text)
  pub event_data : Option (Option EventData)
  pub explorer_url : Option (Option Text)

abbrev pub no_data : RelayData
no_data = record {
  transaction_hash = none;
  failure_reason = none;
  block_number = none;
  event_name = none;
  event_data = none;
  explorer_url = none;
}

pub data RelayTimestamp : Type 0 where
  submitted_at confirmed_at failed_at : RelayTimestamp

-- `RELAY_STATUS_TIMESTAMP_FIELD`.
abbrev pub relay_timestamp_field : RelayStatus → Option RelayTimestamp
relay_timestamp_field submitted = some submitted_at
relay_timestamp_field confirmed = some confirmed_at
relay_timestamp_field RelayStatus.failed = some RelayTimestamp.failed_at
relay_timestamp_field queued = none

abbrev pub set_relay_timestamp : Option (RelayTimestamp × ℕ) → RelayTransaction → RelayTransaction
set_relay_timestamp none r = r
set_relay_timestamp (some (submitted_at, t)) r = record r { submitted_at = some t }
set_relay_timestamp (some (confirmed_at, t)) r = record r { confirmed_at = some t }
set_relay_timestamp (some (RelayTimestamp.failed_at, t)) r = record r { failed_at = some t }

-- `if (text) updateData.f = text`: the empty string is skipped too.
abbrev pub if_truthy : Option Text → Option Text → Option Text
if_truthy none old = old
if_truthy (some []) old = old
if_truthy (some (c ∷ text)) old = some (c ∷ text)

-- `if (value !== undefined) updateData.f = value`.
abbrev pub if_defined : {A : Type 0} → Option (Option A) → Option A → Option A
if_defined none old = old
if_defined (some value) old = value

abbrev pub set_relay_data : RelayData → RelayTransaction → RelayTransaction
set_relay_data d r = record r {
  transaction_hash = if_truthy d.transaction_hash r.transaction_hash;
  failure_reason = if_truthy d.failure_reason r.failure_reason;
  block_number = if_defined d.block_number r.block_number;
  event_name = if_defined d.event_name r.event_name;
  event_data = if_defined d.event_data r.event_data;
  explorer_url = if_defined d.explorer_url r.explorer_url;
}

abbrev pub set_relay :
    RelayStatus → Option (RelayTimestamp × ℕ) → RelayData → RelayTransaction → RelayTransaction
set_relay new stamp d r = set_relay_data d (set_relay_timestamp stamp (record r { status = new }))

abbrev pub write_relay : ℕ → (RelayTransaction → RelayTransaction) → Database → Database
write_relay id f db = record db { relays = update_row (λ r. r.id) id f db.relays }

abbrev pub find_relay : ℕ → Database → Option RelayTransaction
find_relay id db = find_unique (λ r. r.id) id db.relays

abbrev pub relay_timestamp_for : Host → Option RelayTimestamp → Tx (Option (RelayTimestamp × ℕ))
relay_timestamp_for host none = pure none
relay_timestamp_for host (some field) = do t ← new_date host; pure (some (field, t))

unfoldable pub update_found :
    Host → ℕ → RelayStatus → RelayData → RelayTransaction → Tx TransitionResult
update_found host id new d relay =
    if is_valid_relay_transition relay.status new
    then (do
      stamp ← relay_timestamp_for host (relay_timestamp_field new)
      modify (write_relay id (set_relay new stamp d))
      pure success)
    else pure (failure (invalid_relay_transition relay.status new))

abbrev pub update_relay_row :
    Host → ℕ → RelayStatus → RelayData → Option RelayTransaction → Tx TransitionResult
update_relay_row host id new d none = pure (failure relay_not_found)
update_relay_row host id new d (some relay) = update_found host id new d relay

unfoldable pub update_relay_transaction : Host → ℕ → RelayStatus → RelayData → Tx TransitionResult
update_relay_transaction host id new d = do
  relay ← gets (find_relay id)
  update_relay_row host id new d relay
