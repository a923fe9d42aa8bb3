-- ===== src/Web/ApiClient.antt =====
-- apps/web/src/lib/api-client.ts: what a call of the API gives, by what `fetch` and the timer do.
pub mod Outcomes
use arcpass.Prelude.{ℕ, Bool, ◌&&◌, Option, none, some, Text, codes, ◌++◌, leb, if◌then◌else◌}
use arcpass.Api.Wallets.{is_wallet_address}

-- ApiError, NetworkError and TimeoutError.
pub data Failure : Type 0 where
  api_error : ℕ → Text → Failure
  network_error : Text → Failure
  timeout_error : Failure

-- What `response.json()` gives: the data, the message of the error it throws, or the abort.
pub data Json (A : Type 0) : Type 0 where
  parsed : A → Json A
  unparsed : Text → Json A
  cut_off : Json A

-- What `fetch` gives: a response with its status, the text in the field `error` of its body, if there
-- is one, and its data; the abort by the timer; or another error, with its message.
pub data Answer (A : Type 0) : Type 0 where
  response : ℕ → Option Text → Json A → Answer A
  aborted : Answer A
  broken : Text → Answer A

pub data Fetched (A : Type 0) : Type 0 where
  fetched : A → Fetched A
  failed : Failure → Fetched A

-- `validateWalletAddress`; the pattern is the one of the API.
unfoldable pub validate_wallet_address : Text → Bool
validate_wallet_address address = is_wallet_address address

-- `show_number` is the text of a number in a template string.
abbrev pub error_message : (ℕ → Text) → ℕ → Option Text → Text
error_message show_number status none = codes "HTTP " ++ show_number status
error_message show_number status (some error) = error

module _ {A : Type 0} where
  abbrev pub read_json : Json A → Fetched A
  read_json (parsed a) = fetched a
  read_json (unparsed message) = failed (network_error message)
  read_json cut_off = failed timeout_error

  unfoldable pub fetch_with_timeout : (ℕ → Text) → Answer A → Fetched A
  fetch_with_timeout show_number (response status error json) =
      if leb 200 status && leb status 299
      then read_json json
      else failed (api_error status (error_message show_number status error))
  fetch_with_timeout show_number aborted = failed timeout_error
  fetch_with_timeout show_number (broken message) = failed (network_error message)
