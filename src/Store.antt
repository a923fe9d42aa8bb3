-- ===== src/Store.antt =====
-- The database that the worker and the API share (packages/shared/prisma/schema.prisma): the rows
-- of each table in order of insertion. Identifiers are uuids, which are only compared, so they are
-- numbers here; a `DateTime` is the number of milliseconds that it stands for.
pub mod Table
use arcpass.Prelude.{ℕ, Bool, Option, List, Text}
use arcpass.SponsorshipTypes.{SponsorshipStatus, RelayStatus}

pub record Wallet : Type 0 where
  pub id : ℕ
  pub wallet_address : Text
  pub first_seen_at : ℕ
  pub last_seen_at : ℕ
  pub sponsorship_count : ℕ
  pub is_blocked : Bool
  pub block_reason : Option Text

pub record SponsorshipRequest : Type 0 where
  pub id : ℕ
  pub wallet_id : ℕ
  pub status : SponsorshipStatus
  pub eligibility_reason : Option Text
  pub requested_at : ℕ
  pub approved_at : Option ℕ
  pub rejected_at : Option ℕ
  pub completed_at : Option ℕ
  pub failed_at : Option ℕ
  pub ip_address : Option Text
  pub user_agent : Option Text

-- The `eventData` of a confirmed relay.
pub record EventData : Type 0 where
  pub recipient : Text
  pub amount : ℕ
  pub timestamp : ℕ

pub record RelayTransaction : Type 0 where
  pub id : ℕ
  pub sponsorship_request_id : ℕ
  pub transaction_hash : Option Text
  pub status : RelayStatus
  pub relay_attempt : ℕ
  pub submitted_at : Option ℕ
  pub confirmed_at : Option ℕ
  pub failed_at : Option ℕ
  pub failure_reason : Option Text
  pub block_number : Option ℕ
  pub event_name : Option Text
  pub event_data : Option EventData
  pub explorer_url : Option Text

pub record Database : Type 0 where
  pub wallets : List Wallet
  pub requests : List SponsorshipRequest
  pub relays : List RelayTransaction

-- `RateLimitIdentifierType`; its member `user_agent` is written nowhere.
pub data IdentifierType : Type 0 where
  ip wallet user_agent : IdentifierType

pub record RateLimit : Type 0 where
  pub id : ℕ
  pub identifier : Text
  pub identifier_type : IdentifierType
  pub request_count : ℕ
  pub window_start : ℕ
  pub blocked_until : Option ℕ
