-- ===== src/Worker/Config/Variables.antt =====
-- apps/worker/src/config.ts: the variables one by one, with the checks that read no number.
use arcpass.Prelude.{
  ℕ, ◌==◌, leb, Bool, true, false, not, ◌&&◌, ◌||◌, Option, none, some, List, [], ◌∷◌, ◌++◌, Text,
  codes, trim, starts_with, ends_with, length, drop, if◌then◌else◌,
}

-- The names of the environment variables.
pub data Var : Type 0 where
  database_url chain_rpc_url arc_rpc_url sponsor_private_key deployer_private_key chain_id : Var
  contract_address_sponsor_vault contract_address_sponsorship_registry : Var
  poll_interval_ms batch_size max_retries lock_timeout_ms shutdown_timeout_ms : Var
  confirmation_blocks tx_timeout_ms sponsorship_amount_wei chain_id_verify_timeout_ms : Var
  explorer_base_url : Var

-- A number for each name, by which names are compared.
abbrev pub var_code : Var → ℕ
var_code database_url = 0
var_code chain_rpc_url = 1
var_code arc_rpc_url = 2
var_code sponsor_private_key = 3
var_code deployer_private_key = 4
var_code chain_id = 5
var_code contract_address_sponsor_vault = 6
var_code contract_address_sponsorship_registry = 7
var_code poll_interval_ms = 8
var_code batch_size = 9
var_code max_retries = 10
var_code lock_timeout_ms = 11
var_code shutdown_timeout_ms = 12
var_code confirmation_blocks = 13
var_code tx_timeout_ms = 14
var_code sponsorship_amount_wei = 15
var_code chain_id_verify_timeout_ms = 16
var_code explorer_base_url = 17

abbrev pub without : Var → List Var → List Var
without v [] = []
without v (w ∷ ws) = if var_code w == var_code v then without v ws else w ∷ without v ws

-- `[...new Set(errors)]`: each name once, where it stood first.
abbrev pub unique : List Var → List Var
unique [] = []
unique (v ∷ vs) = v ∷ without v (unique vs)

abbrev pub Env : Type 0
Env = Var → Option Text

-- A `BigInt`: its sign and its magnitude.
pub record BigNumber : Type 0 where
  pub negative : Bool
  pub magnitude : ℕ

-- JavaScript numbers: `Number(text)`, a numeral, `Number.isNaN`, `Number.isInteger`, `<`, and
-- `BigInt(text)`, which throws on a text that is no integer.
pub record Numbers : Type 1 where
  pub Num : Type 0
  pub to_number : Text → Num
  pub numeral : ℕ → Num
  pub is_nan : Num → Bool
  pub is_integer : Num → Bool
  pub lt : Num → Num → Bool
  pub to_big_int : Text → Option BigNumber

abbrev pub is_blank : Option Text → Bool
is_blank none = true
is_blank (some text) = leb (length (trim text)) 0

-- `resolveEnv` for a pair of names: the fallback is promoted to the canonical name.
unfoldable pub resolve_env : Option Text → Option Text → Option Text
resolve_env canonical fallback =
    if not (is_blank canonical)
    then canonical
    else if not (is_blank fallback)
    then fallback
    else canonical

-- The environment after step 0.
unfoldable pub resolved : Env → Env
resolved env chain_rpc_url = resolve_env (env chain_rpc_url) (env arc_rpc_url)
resolved env sponsor_private_key = resolve_env (env sponsor_private_key) (env deployer_private_key)
resolved env var = env var

-- `(process.env.X ?? '').trim()`.
abbrev pub trimmed : Option Text → Text
trimmed none = trim []
trimmed (some text) = trim text

abbrev pub is_empty : Text → Bool
is_empty [] = true
is_empty (c ∷ s) = false

-- `if (test) errors.push(name)`.
abbrev pub push_if : Bool → Var → List Var
push_if true var = var ∷ []
push_if false var = []

abbrev pub is_hex_digit : ℕ → Bool
is_hex_digit c =
    (leb b'0' c && leb c b'9') || (leb b'a' c && leb c b'f') || (leb b'A' c && leb c b'F')

abbrev pub all_chars : (ℕ → Bool) → Text → Bool
all_chars p [] = true
all_chars p (c ∷ s) = p c && all_chars p s

-- `/^[0-9a-fA-F]{n}$/`.
unfoldable pub is_hex_text : ℕ → Text → Bool
is_hex_text n s = (length s == n) && all_chars is_hex_digit s

-- `CONTRACT_ADDRESS_PATTERN`.
unfoldable pub is_contract_address : Text → Bool
is_contract_address s = starts_with s (codes "0x") && is_hex_text 40 (drop 2 s)

abbrev pub without_prefix : Text → Text
without_prefix key = if starts_with key (codes "0x") then drop 2 key else key

unfoldable pub is_rpc_url : Text → Bool
is_rpc_url url = starts_with url (codes "http://") || starts_with url (codes "https://")

unfoldable pub is_private_key : Text → Bool
is_private_key key = is_hex_text 64 (without_prefix key)

-- The format of a variable is looked at only if it is there.
abbrev pub check_format : Bool → Text → Var → List Var
check_format fits text var = push_if (not (is_empty text) && not fits) var

abbrev pub is_unset : Option Text → Bool
is_unset none = true
is_unset (some text) = is_empty text

unfoldable pub normalize_trailing_slash : Text → Text
normalize_trailing_slash url = if ends_with url (codes "/") then url else url ++ codes "/"

abbrev pub explorer_or_default : Option Text → Text
explorer_or_default none = codes "https://testnet.arcscan.app/tx/"
explorer_or_default (some text) =
    if is_empty text then codes "https://testnet.arcscan.app/tx/" else text

-- A value, and what was pushed on `errors` for it.
pub record Parsed (A : Type 0) : Type 0 where
  pub value : A
  pub errors : List Var

-- `BigInt(raw)`, with its `catch`, and the test `parsed <= 0n`.
abbrev pub accept_big_int : Var → ℕ → Option BigNumber → Parsed ℕ
accept_big_int var default none = record { value = default; errors = var ∷ [] }
accept_big_int var default (some n) =
    if n.negative || leb n.magnitude 0
    then record { value = default; errors = var ∷ [] }
    else record { value = n.magnitude; errors = [] }

abbrev pub read_big_int : (Text → Option BigNumber) → Var → ℕ → Option Text → Parsed ℕ
read_big_int to_big_int var default none = record { value = default; errors = [] }
read_big_int to_big_int var default (some raw) =
    if is_empty raw
    then record { value = default; errors = [] }
    else accept_big_int var default (to_big_int raw)

-- The six required variables, in the order of the list.
abbrev pub missing : Env → List Var
missing env =
    push_if (is_blank (env database_url)) database_url
    ++ (push_if (is_blank (env chain_rpc_url)) chain_rpc_url
        ++ (push_if (is_blank (env sponsor_private_key)) sponsor_private_key
            ++ (push_if (is_blank (env chain_id)) chain_id
                ++ (push_if (is_blank (env contract_address_sponsor_vault))
                      contract_address_sponsor_vault
                    ++ push_if (is_blank (env contract_address_sponsorship_registry))
                        contract_address_sponsorship_registry))))
