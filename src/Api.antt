-- ===== src/Api.antt =====
-- apps/api: the HTTP service that registers wallets and takes sponsorship requests into the database.
pub mod Errors
pub mod Responses
pub mod Replay
pub mod Actions
pub mod RateLimits
pub mod Wallets
pub mod Sponsorship
pub mod Relays
pub mod Routes
