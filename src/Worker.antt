-- ===== src/Worker.antt =====
-- apps/worker: the process that takes pending sponsorship requests to a relayed transaction.
pub mod Tx
pub mod Relay
pub mod Lifecycle
pub mod Processor
pub mod Steps
pub mod ContractClient
pub mod RelayExecutor
pub mod Poller
pub mod Config
pub mod Logger
pub mod ViemClient
pub mod Service
