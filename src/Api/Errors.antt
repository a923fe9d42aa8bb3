-- ===== src/Api/Errors.antt =====
-- apps/api/src/lib/errors.js: the errors that the services throw, with their
-- messages, and those of the database client that they let through.
use arcpass.Prelude.{ℕ, zero, suc, Option, none, some, Text}

pub data ApiError : Type 0 where
  validation_error blocked_wallet_error wallet_not_found_error : Text → ApiError
  sponsorship_not_found_error invalid_status_transition_error : Text → ApiError
  rate_limit_error : Text → Option ℕ → ApiError
  -- None of the classes: what the database client throws, with its code, which no service catches.
  database_error : Text → ApiError

-- `retryAfter || null`.
abbrev pub or_null : Option ℕ → Option ℕ
or_null none = none
or_null (some zero) = none
or_null (some (suc n)) = some (suc n)

-- `new RateLimitError(message, { retryAfter })`.
abbrev pub rate_limited : Text → Option ℕ → ApiError
rate_limited message retry_after = rate_limit_error message (or_null retry_after)

pub data Result (A : Type 0) : Type 0 where
  ok : A → Result A
  err : ApiError → Result A
