-- ===== src/Api/Responses/Sanitised.antt =====
-- What the error handler keeps from a client.
use arcpass.Prelude.{◌≡◌, refl, true, false, Option, none, some, List, Bool-cases, inl, inr}
use arcpass.Api.Errors.{
  ApiError, validation_error, blocked_wallet_error, wallet_not_found_error,
  sponsorship_not_found_error, rate_limit_error, invalid_status_transition_error, database_error,
}
use arcpass.Api.Responses.{
  Violation, Fault, thrown, other, is_json_parse_error, send_thrown, send_unexpected, handle_error,
}

send_thrown-production :
    (e : ApiError) → send_thrown true e ≡ record (send_thrown false e) { error_name = none }
send_thrown-production (validation_error message) = refl
send_thrown-production (blocked_wallet_error message) = refl
send_thrown-production (wallet_not_found_error message) = refl
send_thrown-production (sponsorship_not_found_error message) = refl
send_thrown-production (rate_limit_error message retry_after) = refl
send_thrown-production (invalid_status_transition_error message) = refl
send_thrown-production (database_error code) = refl

send_unexpected-production :
    (v : Option (List Violation))
    → send_unexpected true v ≡ record (send_unexpected false v) { error_name = none }
send_unexpected-production none = refl
send_unexpected-production (some v) = refl

-- The reply in production is the one of development without the error's name, whatever was thrown: the
-- status, the message and Retry-After do not depend on the mode.
pub handle_error-production :
    (f : Fault) → handle_error true f ≡ record (handle_error false f) { error_name = none }
unfolding handle_error
handle_error-production (thrown e) = send_thrown-production e
handle_error-production (other fault) = elim (Bool-cases (is_json_parse_error fault)) [
  | inl json ↦ rw json refl
  | inr unknown ↦ rw unknown (send_unexpected-production fault.validation)
]
