-- ===== src/Tests/Config.antt =====
-- The configuration, with a reading of numbers that knows the decimal numerals.
use arcpass.Prelude.{
  ℕ, ◌+◌, ◌*◌, ◌-◌, ltb, leb, ◌&&◌, ◌≡◌, refl, Bool, true, false, Option, none, some, [], ◌∷◌, Text,
  codes, starts_with, trim, arith, if◌then◌else◌,
}
use arcpass.Worker.Config.{
  Env, Numbers, BigNumber, exits, loaded, load_config, build_config, resolved, chain_id,
  database_url, batch_size, arc_rpc_url, sponsor_private_key, contract_address_sponsor_vault,
  contract_address_sponsorship_registry, resolve_env, collect_errors, is_rpc_url, is_private_key,
  is_contract_address, is_hex_text, is_chain_id,
}
use arcpass.Worker.Config.Checks.{ComparesNumerals}
use arcpass.Worker.Config.Validity.{IsAdmissible, load_config-IsAdmissible}

abbrev read_digits : ℕ → Text → Option ℕ
read_digits acc [] = some acc
read_digits acc (c ∷ s) =
    let rest = read_digits (10 * acc + (c - 48)) s in if leb 48 c && leb c 57 then rest else none

abbrev below : Option ℕ → Option ℕ → Bool
below (some a) (some b) = ltb a b
below _ _ = false

abbrev unreadable : Option ℕ → Bool
unreadable none = true
unreadable (some a) = false

abbrev readable : Option ℕ → Bool
readable none = false
readable (some a) = true

abbrev unsigned : Option ℕ → Option BigNumber
unsigned none = none
unsigned (some a) = some (record { negative = false; magnitude = a })

abbrev pub decimals : Numbers
decimals = record {
  Num = Option ℕ;
  to_number = λ s. read_digits 0 s;
  numeral = λ a. some a;
  is_nan = unreadable;
  is_integer = readable;
  lt = below;
  to_big_int = λ s. unsigned (read_digits 0 s);
}

pub decimals-ComparesNumerals : ComparesNumerals decimals
decimals-ComparesNumerals = λ a b h. ground arith

abbrev address : Text
address = codes "0x52908400098527886E0F7030069857D2E4169EE7"

abbrev pub local_env : Env
local_env database_url = some (codes "postgresql://db")
local_env arc_rpc_url = some (codes "https://rpc.testnet")
local_env sponsor_private_key =
    some (codes "0123456789abcdef0123456789abcdef0123456789abcdef0123456789abcdef")
local_env chain_id = some (codes " 5042002 ")
local_env contract_address_sponsor_vault = some address
local_env contract_address_sponsorship_registry = some address
local_env batch_size = some (codes "50")
local_env _ = none

local_loads : load_config decimals local_env ≡ loaded (build_config decimals (resolved local_env))
unfolding load_config build_config resolved resolve_env collect_errors is_rpc_url is_private_key
    is_contract_address is_hex_text is_chain_id starts_with trim
local_loads = refl

load_config-IsAdmissible_example :
    IsAdmissible decimals (build_config decimals (resolved local_env))
load_config-IsAdmissible_example =
    load_config-IsAdmissible decimals local_env (build_config decimals (resolved local_env))
      decimals-ComparesNumerals local_loads

abbrev wrong_env : Env
wrong_env batch_size = some (codes "500")
wrong_env chain_id = some (codes "arc")
wrong_env v = local_env v

wrong_exits : load_config decimals wrong_env ≡ exits (chain_id ∷ batch_size ∷ [])
unfolding load_config resolved resolve_env collect_errors is_rpc_url is_private_key
    is_contract_address is_hex_text is_chain_id starts_with trim
wrong_exits = refl
