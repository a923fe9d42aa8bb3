-- ===== src/Worker/ContractClient.antt =====
-- apps/worker/src/contract-client.ts: one call of `SponsorVault.sponsorTransfer`, and the reason
-- that is given when it fails. viem is not part of the repository: what it answers is an argument.
pub mod Reasons
pub mod Results
use arcpass.Prelude.{
  ℕ, Bool, true, false, ◌||◌, Option, none, some, List, [], ◌∷◌, ◌++◌, Text, codes, starts_with,
  includes_text, text_eq, to_lower, length, take, leb, if◌then◌else◌,
}
use arcpass.Store.{EventData}

-- An object that was thrown, as `extractErrorData` sees it: its message, its `data` if that is a
-- string, and either an object as its `cause`, or the string `data` of the object that its `walk`
-- finds, if there is one.
pub data ErrorObject : Type 0 where
  plain_error : Text → Option Text → Option Text → ErrorObject
  caused_by : Text → Option Text → ErrorObject → ErrorObject

-- What a `catch` receives: an `Error`, or another value, with its `String(…)`.
pub data Thrown : Type 0 where
  error : ErrorObject → Thrown
  other : Text → Thrown

pub data Attempt (A : Type 0) : Type 0 where
  returned : A → Attempt A
  threw : Thrown → Attempt A

-- `decoded.errorName`, and `decoded.args` as they are printed.
pub record DecodedError : Type 0 where
  pub error_name : Text
  pub args : Option (List Text)

-- A log of a receipt, by what `decodeEventLog` makes of it: `none` if it throws.
pub record DecodedEvent : Type 0 where
  pub event_name : Text
  pub args : EventData

pub record Receipt : Type 0 where
  pub succeeded : Bool
  pub block_number : ℕ
  pub logs : List (Option DecodedEvent)

pub record ContractRelayResult : Type 0 where
  pub success : Bool
  pub transaction_hash : Option Text
  pub block_number : Option ℕ
  pub failure_reason : Option Text
  pub explorer_url : Option Text
  pub event_data : Option EventData

-- What viem answers with the configured clients: the broadcast, the receipt of a hash, and
-- `decodeErrorResult` for the vault's ABI, `none` where it throws.
pub record Chain : Type 0 where
  pub write_contract : Text → ℕ → Attempt Text
  pub wait_for_receipt : Text → Attempt Receipt
  pub decode_error : Text → Option DecodedError

unfoldable pub truncate_reason : Text → Text
truncate_reason reason = if leb (length reason) 1000 then reason else take 997 reason ++ codes "..."

abbrev pub message_of : ErrorObject → Text
message_of (plain_error message _ _) = message
message_of (caused_by message _ _) = message

abbrev pub is_hex : Option Text → Bool
is_hex none = false
is_hex (some d) = starts_with d (codes "0x")

unfoldable pub extract_error_data : ErrorObject → Option Text
extract_error_data (plain_error message error_data walked) =
    if is_hex error_data then error_data else if is_hex walked then walked else none
extract_error_data (caused_by message error_data cause) =
    if is_hex error_data then error_data else extract_error_data cause

-- The cases of `formatDecodedError` that print arguments.
abbrev pub two_args : Option (List Text) → (Text → Text → Text) → Text → Text
two_args (some (a ∷ b ∷ rest)) print default = print a b
two_args _ print default = default

abbrev pub one_arg : Option (List Text) → (Text → Text) → Text → Text
one_arg (some (a ∷ rest)) print default = print a
one_arg _ print default = default

unfoldable pub format_decoded_error : DecodedError → Text
format_decoded_error d =
    if text_eq d.error_name (codes "Unauthorized")
    then codes "Unauthorized: caller is not the operator"
    else if text_eq d.error_name (codes "ExceedsLimit")
    then two_args d.args (λ a b. codes "ExceedsLimit: requested " ++ (a ++ (codes ", limit " ++ b)))
        (codes "ExceedsLimit: amount exceeds per-transaction limit")
    else if text_eq d.error_name (codes "InsufficientBalance")
    then two_args d.args
        (λ a b. codes "InsufficientBalance: requested " ++ (a ++ (codes ", available " ++ b)))
        (codes "InsufficientBalance: vault has insufficient funds")
    else if text_eq d.error_name (codes "AlreadySponsored")
    then one_arg d.args (λ a. codes "AlreadySponsored: " ++ a)
        (codes "AlreadySponsored: recipient already sponsored")
    else if text_eq d.error_name (codes "InvalidRecipient")
    then codes "InvalidRecipient: recipient address is invalid"
    else if text_eq d.error_name (codes "InvalidAmount")
    then codes "InvalidAmount: sponsorship amount is invalid"
    else codes "Contract error: " ++ d.error_name

abbrev pub reverted_reason : Text
reverted_reason = codes "Transaction reverted on-chain"

-- `decodeRevertReason`, which looks at neither of its arguments.
unfoldable pub decode_revert_reason : Receipt → Text
decode_revert_reason receipt = reverted_reason

-- The `try` around `decodeErrorResult`.
abbrev pub describe_decoded : Option DecodedError → Text
describe_decoded none = reverted_reason
describe_decoded (some d) = format_decoded_error d

abbrev pub describe_data : (Text → Option DecodedError) → Text → Option Text → Text
describe_data decode message none = message
describe_data decode message (some d) = describe_decoded (decode d)

-- The tests on the message, in their order.
unfoldable pub mentions_connection : Text → Bool
mentions_connection msg =
    includes_text msg (codes "econnrefused")
    || includes_text msg (codes "etimedout")
    || includes_text msg (codes "connect")

unfoldable pub mentions_rate_limit : Text → Bool
mentions_rate_limit msg = includes_text msg (codes "429") || includes_text msg (codes "rate limit")

unfoldable pub mentions_nonce : Text → Bool
mentions_nonce msg = includes_text msg (codes "nonce")

unfoldable pub mentions_gas : Text → Bool
mentions_gas msg = includes_text msg (codes "gas")

unfoldable pub mentions_timeout : Text → Bool
mentions_timeout msg = includes_text msg (codes "timed out") || includes_text msg (codes "timeout")

-- Lower case matters here for the ASCII letters only: no other code unit, nor what it becomes in
-- lower case, can complete one of the words above.
unfoldable pub handle_execution_error : (Text → Option DecodedError) → Thrown → Text
handle_execution_error decode (other text) = text
handle_execution_error decode (error e) =
    let msg = to_lower (message_of e) in
    if mentions_connection msg
    then codes "Connection error: " ++ message_of e
    else if mentions_rate_limit msg
    then codes "RPC rate limited: " ++ message_of e
    else if mentions_nonce msg
    then codes "Nonce error: " ++ message_of e
    else if mentions_gas msg
    then codes "Gas estimation failed: " ++ message_of e
    else if mentions_timeout msg
    then codes "Transaction confirmation timeout"
    else describe_data decode (message_of e) (extract_error_data e)

-- The first log that decodes to a `SponsorshipGranted`; a log that does not decode is passed over.
unfoldable pub extract_sponsorship_granted_event : List (Option DecodedEvent) → Option EventData
extract_sponsorship_granted_event [] = none
extract_sponsorship_granted_event (none ∷ logs) = extract_sponsorship_granted_event logs
extract_sponsorship_granted_event (some e ∷ logs) =
    if text_eq e.event_name (codes "SponsorshipGranted")
    then some e.args
    else extract_sponsorship_granted_event logs

abbrev pub failed_relay : Option Text → Option ℕ → Text → ContractRelayResult
failed_relay hash block reason = record {
  success = false;
  transaction_hash = hash;
  block_number = block;
  failure_reason = some reason;
  explorer_url = none;
  event_data = none;
}

-- Steps 3 and 4. `base` is the configured `explorerBaseUrl`.
unfoldable pub relay_outcome : Text → Text → Receipt → ContractRelayResult
relay_outcome base hash receipt =
    if receipt.succeeded
    then record {
      success = true;
      transaction_hash = some hash;
      block_number = some receipt.block_number;
      failure_reason = none;
      explorer_url = some (base ++ hash);
      event_data = extract_sponsorship_granted_event receipt.logs;
    }
    else failed_relay (some hash) (some receipt.block_number)
        (truncate_reason (decode_revert_reason receipt))

-- Step 5; `hash` is known if the broadcast had returned.
abbrev pub relay_error : Chain → Option Text → Thrown → ContractRelayResult
relay_error chain hash e =
    failed_relay hash none (truncate_reason (handle_execution_error chain.decode_error e))

abbrev pub await_receipt : Chain → Text → Text → Attempt Receipt → ContractRelayResult
await_receipt chain base hash (returned receipt) = relay_outcome base hash receipt
await_receipt chain base hash (threw e) = relay_error chain (some hash) e

abbrev pub await_broadcast : Chain → Text → Attempt Text → ContractRelayResult
await_broadcast chain base (returned hash) =
    await_receipt chain base hash (chain.wait_for_receipt hash)
await_broadcast chain base (threw e) = relay_error chain none e

-- `executeContractRelay`; the module's state is `none` until `initializeContractClient`.
unfoldable pub execute_contract_relay : Option (Chain × Text) → Text → ℕ → ContractRelayResult
execute_contract_relay none recipient amount =
    failed_relay none none
      (codes "Contract client not initialized — call initializeContractClient() first")
execute_contract_relay (some (chain, base)) recipient amount =
    await_broadcast chain base (chain.write_contract recipient amount)

-- `initializeContractClient`, for the clients and ABIs that `chain` stands for.
unfoldable pub initialize_contract_client :
    Chain → Text → Option (Chain × Text) → Option (Chain × Text)
initialize_contract_client chain base before = some (chain, base)
