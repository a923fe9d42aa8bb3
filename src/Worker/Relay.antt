-- ===== src/Worker/Relay.antt =====
-- What the processor asks of the relay executor (apps/worker/src/relay-executor.ts) and gets back.
use arcpass.Prelude.{ℕ, Bool, Option, Text}
use arcpass.Store.{EventData}
use arcpass.Worker.Tx.{RelayCall}

-- `RelayResult` of relay-executor.ts; `none` in an optional field is `undefined`.
pub record RelayResult : Type 0 where
  pub success : Bool
  pub transaction_hash : Option Text
  pub failure_reason : Option Text
  pub block_number : Option (Option ℕ)
  pub explorer_url : Option (Option Text)
  pub event_data : Option (Option EventData)

-- `executeRelay` never throws, so it is a function of the call.
abbrev pub Executor : Type 0
Executor = RelayCall → RelayResult
