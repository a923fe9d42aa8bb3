-- ===== src/Api/Responses.antt =====
-- apps/api/src/plugins/error-handler.js: the reply that a client gets for what a handler throws.
pub mod Sanitised
use arcpass.Prelude.{
  ℕ, ◌==◌, Bool, true, false, not, ◌&&◌, ◌||◌, Option, none, some, List, [], ◌∷◌, ◌++◌, Text, codes,
  text_eq, includes_text, to_lower, if◌then◌else◌,
}
use arcpass.Api.Errors.{
  ApiError, validation_error, blocked_wallet_error, wallet_not_found_error,
  sponsorship_not_found_error, rate_limit_error, invalid_status_transition_error, database_error,
  or_null,
}

-- The reply's status and the header Retry-After; the body is the message, the same status and, outside
-- of production, the error's name.
pub record Reply : Type 0 where
  pub status : ℕ
  pub error : Text
  pub error_name : Option Text
  pub retry_after : Option ℕ

-- The keywords of JSON Schema that `formatValidationError` knows.
pub data Keyword : Type 0 where
  required type_of pattern max_length min_length format : Keyword
  additional_properties enum minimum maximum other_keyword : Keyword

-- An entry of `error.validation`; a parameter that is not there is `none`.
pub record Violation : Type 0 where
  pub keyword : Keyword
  pub instance_path : Text
  pub missing_property : Option Text
  pub type_name : Option Text
  pub additional_property : Option Text

-- What a handler throws: an error of the services, or one of Fastify, of the database or of a bug.
pub record OtherFault : Type 0 where
  pub status_code : Option ℕ
  pub code : Option Text
  pub message : Text
  pub validation : Option (List Violation)

pub data Fault : Type 0 where
  thrown : ApiError → Fault
  other : OtherFault → Fault

-- `replace(/^\//, '')`.
abbrev pub without_slash : Text → Text
without_slash [] = []
without_slash (c ∷ s) = if c == b'/' then s else c ∷ s

-- `replace(/\//g, '.')`.
abbrev pub slashes_to_dots : Text → Text
slashes_to_dots [] = []
slashes_to_dots (c ∷ s) = (if c == b'/' then b'.' else c) ∷ slashes_to_dots s

-- A value in a template string.
abbrev pub shown : Option Text → Text
shown none = codes "undefined"
shown (some text) = text

abbrev pub or_request : Option Text → Text
or_request none = codes "request"
or_request (some []) = codes "request"
or_request (some (c ∷ s)) = c ∷ s

abbrev pub field_at : Text → Option Text → Text
field_at [] missing = or_request missing
field_at (c ∷ path) missing = slashes_to_dots (without_slash (c ∷ path))

unfoldable pub field_of : Violation → Text
field_of v = field_at v.instance_path v.missing_property

abbrev pub describe_keyword : Keyword → Text → Violation → Text
describe_keyword required field v = shown v.missing_property ++ codes " is required"
describe_keyword type_of field v = field ++ codes " must be of type " ++ shown v.type_name
describe_keyword pattern field v = field ++ codes " has an invalid format"
describe_keyword max_length field v = field ++ codes " exceeds maximum length"
describe_keyword min_length field v = field ++ codes " is too short"
describe_keyword format field v = field ++ codes " has an invalid format"
describe_keyword additional_properties field v =
    codes "Unknown property: " ++ shown v.additional_property
describe_keyword enum field v = field ++ codes " has an invalid value"
describe_keyword minimum field v = field ++ codes " is out of range"
describe_keyword maximum field v = field ++ codes " is out of range"
describe_keyword other_keyword field v = field ++ codes " is invalid"

abbrev pub describe : Violation → Text
describe v = describe_keyword v.keyword (field_of v) v

-- `parts.join('; ')` of the violations' descriptions.
abbrev pub join_parts : List Violation → Text
join_parts [] = []
join_parts (v ∷ []) = describe v
join_parts (v ∷ w ∷ vs) = describe v ++ codes "; " ++ join_parts (w ∷ vs)

unfoldable pub format_validation_error : List Violation → Text
format_validation_error [] = codes "Request validation failed"
format_validation_error (v ∷ vs) = join_parts (v ∷ vs)

abbrev pub is_code : Text → Option Text → Bool
is_code name none = false
is_code name (some code) = text_eq code name

abbrev pub is_status : ℕ → Option ℕ → Bool
is_status n none = false
is_status n (some status) = status == n

abbrev pub is_json_message : Text → Bool
is_json_message message =
    includes_text message (codes "unexpected token")
    || includes_text message (codes "unexpected end of json")
    || (includes_text message (codes "json") && includes_text message (codes "parse"))
    || includes_text message (codes "invalid json")
    || (includes_text message (codes "not valid json")
        && includes_text message (codes "content-type"))

abbrev pub is_absent : Option (List Violation) → Bool
is_absent none = true
is_absent (some violations) = false

unfoldable pub is_json_parse_error : OtherFault → Bool
is_json_parse_error fault =
    is_status 400 fault.status_code
    && is_absent fault.validation
    && (is_code (codes "FST_ERR_CTP_INVALID_JSON_BODY") fault.code
        || is_code (codes "FST_ERR_CTP_EMPTY_JSON_BODY") fault.code
        || is_json_message (to_lower fault.message))

-- The plugin with `isProduction`; the full error goes to the log.
module _ (is_production : Bool) where
  -- `errorName` is left out of the body in production.
  abbrev pub send_error : ℕ → Text → Option Text → Option ℕ → Reply
  send_error status error error_name retry_after = record {
    status = status;
    error = error;
    error_name = if is_production then none else error_name;
    retry_after = retry_after;
  }

  abbrev pub send_thrown : ApiError → Reply
  send_thrown (validation_error message) =
      send_error 400 message (some (codes "ValidationError")) none
  send_thrown (blocked_wallet_error message) =
      send_error 403 message (some (codes "BlockedWalletError")) none
  send_thrown (wallet_not_found_error message) =
      send_error 404 message (some (codes "WalletNotFoundError")) none
  send_thrown (sponsorship_not_found_error message) =
      send_error 404 message (some (codes "SponsorshipNotFoundError")) none
  send_thrown (rate_limit_error message retry_after) =
      send_error 429 message (some (codes "RateLimitError")) (or_null retry_after)
  send_thrown (invalid_status_transition_error message) =
      send_error 400 message (some (codes "InvalidStatusTransitionError")) none
  -- It has neither a `statusCode` nor a `validation`.
  send_thrown (database_error code) = send_error 500 (codes "Internal server error") none none

  abbrev pub send_unexpected : Option (List Violation) → Reply
  send_unexpected none = send_error 500 (codes "Internal server error") none none
  send_unexpected (some violations) = send_error 400 (format_validation_error violations) none none

  unfoldable pub handle_error : Fault → Reply
  handle_error (thrown e) = send_thrown e
  handle_error (other fault) =
      if is_json_parse_error fault
      then send_error 400 (codes "Invalid JSON in request body") none none
      else send_unexpected fault.validation
