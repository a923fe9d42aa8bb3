-- ===== src/Worker/Steps.antt =====
-- The single writes that processing one request makes to the database, and what they keep.
pub mod Safety
use arcpass.Prelude.{ℕ, ◌≡◌, true, Option, none, some}
use arcpass.SponsorshipTypes.{
  SponsorshipStatus, RelayStatus, is_valid_sponsorship_transition, is_valid_relay_transition,
}
use arcpass.Store.{Database, SponsorshipRequest, RelayTransaction}
use arcpass.Worker.Lifecycle.{
  RequestTimestamp, status_timestamp_field, set_status, find_request, write_request, new_relay,
  add_relay, RelayTimestamp, RelayData, set_relay, find_relay, write_relay,
}
use arcpass.Worker.Processor.{explain_blocked, increment_count, write_wallet}

-- The timestamp that is written is the one of the status.
abbrev pub field_of : {A : Type 0} → Option (A × ℕ) → Option A
field_of none = none
field_of (some (field, t)) = some field

pub data Step (id : ℕ) (d : Database) : Database → Type 0 where
  transitioned :
      (r : SponsorshipRequest) (new : SponsorshipStatus) (stamp : Option (RequestTimestamp × ℕ))
      → find_request id d ≡ some r
      → is_valid_sponsorship_transition r.status new ≡ true
      → field_of stamp ≡ status_timestamp_field new
      → Step id d (write_request id (set_status new stamp) d)
  explained : Step id d (write_request id explain_blocked d)
  relay_created : (relay_id attempt : ℕ) → Step id d (add_relay (new_relay relay_id id attempt) d)
  relay_updated :
      (relay_id : ℕ) (r : RelayTransaction) (new : RelayStatus)
      (stamp : Option (RelayTimestamp × ℕ)) (relay_data : RelayData)
      → find_relay relay_id d ≡ some r
      → is_valid_relay_transition r.status new ≡ true
      → Step id d (write_relay relay_id (set_relay new stamp relay_data) d)
  counted : (wallet_id : ℕ) → Step id d (write_wallet wallet_id increment_count d)

pub data Steps (id : ℕ) (d : Database) : Database → Type 0 where
  here : Steps id d d
  next : {e f : Database} → Steps id d e → Step id e f → Steps id d f
