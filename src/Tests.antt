-- ===== src/Tests.antt =====
-- The theorems at concrete inputs, and runs of the definitions.
pub mod Data
mod Processor
mod Relay
mod Polling
mod Config
mod Logger
mod Service
mod Accounts
mod Limits
mod Forms
