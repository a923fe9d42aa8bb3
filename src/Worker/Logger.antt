-- ===== src/Worker/Logger.antt =====
-- apps/worker/src/logger.ts: a worker's log entries. An object is the list of its own properties in
-- the order of `Object.entries`; of a value that is no text, array or object only equality matters.
pub mod Redaction
pub mod Entries
use arcpass.Prelude.{
  ℕ, ◌+◌, ◌==◌, ltb, leb, Bool, true, false, ◌&&◌, ◌||◌, List, [], ◌∷◌, Text, codes, to_lower,
  starts_with, includes_text, text_eq, ◌++◌, length, take, drop, if◌then◌else◌, Option, none, some,
}

-- The values of a record, and records; `scalar` stands for a number, a truth value, null and what
-- else is not redacted.
mutual
  pub data Value : Type 0 where
    text : Text → Value
    scalar : ℕ → Value
    array : Values → Value
    object : Fields → Value

  pub data Values : Type 0 where
    no_values : Values
    item : Value → Values → Values

  pub data Fields : Type 0 where
    no_fields : Fields
    field : Text → Value → Fields → Fields

-- A case-insensitive pattern that is a plain word.
abbrev pub mentions : Text → Text → Bool
mentions key word = includes_text (to_lower key) word

-- `isSensitiveKey`.
unfoldable pub is_sensitive_key : Text → Bool
is_sensitive_key key =
    mentions key (codes "privatekey")
    || mentions key (codes "private_key")
    || mentions key (codes "mnemonic")
    || mentions key (codes "secret")
    || mentions key (codes "password")
    || mentions key (codes "credential")
    || mentions key (codes "authorization")

-- `[^/@]+@`; the flag tells that a character was read.
abbrev pub matches_password : Bool → Text → Bool
matches_password seen [] = false
matches_password seen (c ∷ s) =
    let rest = matches_password true s in
    if c == b'@' then seen else if c == b'/' then false else rest

-- `[^/@]+:[^/@]+@`, trying each colon.
abbrev pub matches_user : Bool → Text → Bool
matches_user seen [] = false
matches_user seen (c ∷ s) =
    let rest = matches_user true s in
    if (c == b'/') || (c == b'@')
    then false
    else ((c == b':') && seen && matches_password false s) || rest

-- `CREDENTIAL_URL_PATTERN`.
unfoldable pub matches_credential_url : Text → Bool
matches_credential_url s =
    (starts_with (to_lower s) (codes "http://") && matches_user false (drop 7 s))
    || (starts_with (to_lower s) (codes "https://") && matches_user false (drop 8 s))

-- `isCredentialUrl`.
abbrev pub is_credential_url : Value → Bool
is_credential_url (text s) = matches_credential_url s
is_credential_url (scalar a) = false
is_credential_url (array vs) = false
is_credential_url (object fs) = false

abbrev pub redacted : Value
redacted = text (codes "[REDACTED]")

abbrev pub redacted_url : Value
redacted_url = text (codes "[REDACTED_URL]")

-- `filterSensitiveData`, and what it stores for a value under a key that is not sensitive.
unfoldable mutual
  pub filter_sensitive_data : ℕ → ℕ → Fields → Fields
  filter_sensitive_data max_depth current_depth no_fields = no_fields
  filter_sensitive_data max_depth current_depth (field key value rest) =
      let kept = filter_value max_depth current_depth value in
      field key (if is_sensitive_key key then redacted else kept)
        (filter_sensitive_data max_depth current_depth rest)

  pub filter_value : ℕ → ℕ → Value → Value
  filter_value max_depth current_depth (text s) =
      if is_credential_url (text s) then redacted_url else text s
  filter_value max_depth current_depth (scalar a) = scalar a
  filter_value max_depth current_depth (array vs) = array vs
  filter_value max_depth current_depth (object fs) =
      let filtered = filter_sensitive_data max_depth (current_depth + 1) fs in
      if leb max_depth (current_depth + 1) then redacted else object filtered

pub data Level : Type 0 where
  info warn error : Level

pub data Stream : Type 0 where
  stdout stderr : Stream

abbrev pub level_name : Level → Text
level_name info = codes "info"
level_name warn = codes "warn"
level_name error = codes "error"

abbrev pub stream_of : Level → Stream
stream_of error = stderr
stream_of info = stdout
stream_of warn = stdout

abbrev pub max_message_length : ℕ
max_message_length = 10000

abbrev pub max_filter_depth : ℕ
max_filter_depth = 10

abbrev pub truncated_message : Text → Text
truncated_message message =
    if ltb max_message_length (length message) then take max_message_length message else message

-- `object[key] = value`.
abbrev pub assign : Text → Value → Fields → Fields
assign key value no_fields = field key value no_fields
assign key value (field k v rest) =
    let assigned = assign key value rest in
    if text_eq k key then field k value rest else field k v assigned

-- `{ ...target, ...source }`.
abbrev pub spread : Fields → Fields → Fields
spread target no_fields = target
spread target (field key value rest) = spread (assign key value target) rest

abbrev pub filtered_data : Option Fields → Fields
filtered_data none = no_fields
filtered_data (some data_fields) = filter_sensitive_data max_filter_depth 0 data_fields

-- The entry that `log` writes, at the time `timestamp`.
unfoldable pub entry : Text → Text → Level → Text → Option Fields → Fields
entry component timestamp level message data_fields =
    spread
      (field (codes "timestamp") (text timestamp) (
        field (codes "level") (text (level_name level)) (
          field (codes "component") (text component)
            (field (codes "message") (text (truncated_message message)) no_fields))))
      (filtered_data data_fields)

-- `log`: the stream and the text; `stringify` is `JSON.stringify`.
unfoldable pub log : (Fields → Text) → Text → Text → Level → Text → Option Fields → Stream × Text
log stringify component timestamp level message data_fields =
    (stream_of level, stringify (entry component timestamp level message data_fields) ++ (10 ∷ []))
