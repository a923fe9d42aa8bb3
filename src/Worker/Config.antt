-- ===== src/Worker/Config.antt =====
-- apps/worker/src/config.ts: the worker's configuration from the environment. A JavaScript number
-- is an argument, with what the checks ask of it; so is the reading of a `BigInt`.
mod Variables
pub mod Checks
pub mod Validity
unfoldable pub use Variables.*
use arcpass.Prelude.{
  ℕ, ◌==◌, leb, Bool, true, false, not, ◌&&◌, ◌||◌, Option, none, some, List, [], ◌∷◌, ◌++◌, Text,
  codes, trim, starts_with, ends_with, length, drop, if◌then◌else◌,
}

module _ (n : Numbers) where
  open n use {Num, to_number, numeral, is_nan, is_integer, lt, to_big_int}

  pub record WorkerConfig : Type 0 where
    pub database_url : Text
    pub chain_rpc_url : Text
    pub sponsor_private_key : Text
    pub poll_interval_ms : Num
    pub batch_size : Num
    pub max_retries : Num
    pub lock_timeout_ms : Num
    pub shutdown_timeout_ms : Num
    pub confirmation_blocks : Num
    pub tx_timeout_ms : Num
    pub chain_id : Num
    pub contract_address_sponsor_vault : Text
    pub contract_address_sponsorship_registry : Text
    pub sponsorship_amount : ℕ
    pub chain_id_verify_timeout_ms : Num
    pub explorer_base_url : Text

  -- `parseNumericEnvCollect`.
  unfoldable pub parse_numeric : Var → ℕ → Option Text → Parsed Num
  parse_numeric var default none = record { value = numeral default; errors = [] }
  parse_numeric var default (some raw) =
      if is_empty raw
      then record { value = numeral default; errors = [] }
      else if is_nan (to_number raw)
      then record { value = numeral default; errors = var ∷ [] }
      else record { value = to_number raw; errors = [] }

  -- `validateRangeCollect`.
  unfoldable pub validate_range : Var → Option Text → Num → ℕ → ℕ → List Var
  validate_range var raw value min max =
      push_if (not (is_unset raw) && (lt value (numeral min) || lt (numeral max) value)) var

  -- The two calls for a numeric variable.
  unfoldable pub numeric : Env → Var → ℕ → ℕ → ℕ → Parsed Num
  unfolding parse_numeric validate_range
  numeric env var default min max =
      let p = parse_numeric var default (env var) in
      record { value = p.value; errors = p.errors ++ validate_range var (env var) p.value min max }

  -- `Number.isInteger(chainIdNum) && chainIdNum > 0`.
  unfoldable pub is_chain_id : Text → Bool
  is_chain_id raw = is_integer (to_number raw) && lt (numeral 0) (to_number raw)

  -- `errors`, in the order of the pushes, over the resolved environment.
  unfoldable pub collect_errors : Env → List Var
  unfolding numeric
  collect_errors env =
      missing env
      ++ (check_format (is_rpc_url (trimmed (env chain_rpc_url))) (trimmed (env chain_rpc_url))
            chain_rpc_url
          ++ (check_format (is_private_key (trimmed (env sponsor_private_key)))
                (trimmed (env sponsor_private_key)) sponsor_private_key
              ++ (check_format (is_chain_id (trimmed (env chain_id))) (trimmed (env chain_id))
                    chain_id
                  ++ (check_format
                        (is_contract_address (trimmed (env contract_address_sponsor_vault)))
                        (trimmed (env contract_address_sponsor_vault))
                        contract_address_sponsor_vault
                      ++ (check_format
                            (is_contract_address
                              (trimmed (env contract_address_sponsorship_registry)))
                            (trimmed (env contract_address_sponsorship_registry))
                            contract_address_sponsorship_registry
                          ++ ((numeric env poll_interval_ms 5000 1000 60000).errors
                              ++ ((numeric env batch_size 20 1 100).errors
                                  ++ ((numeric env max_retries 5 1 10).errors
                                      ++ ((numeric env lock_timeout_ms 30000 5000 120000).errors
                                          ++ ((numeric env shutdown_timeout_ms 10000 5000
                                                60000).errors
                                              ++ ((numeric env confirmation_blocks 2 1 50).errors
                                                  ++ ((numeric env tx_timeout_ms 120000 10000
                                                        600000).errors
                                                      ++ ((read_big_int to_big_int
                                                            sponsorship_amount_wei 1000000000000000
                                                            (env sponsorship_amount_wei)).errors
                                                          ++ (numeric env chain_id_verify_timeout_ms
                                                            10000 1000 30000).errors)))))))))))))

  -- The configuration, as `loadConfig` builds it where it has no errors.
  unfoldable pub build_config : Env → WorkerConfig
  unfolding numeric
  build_config env = record {
    database_url = trimmed (env database_url);
    chain_rpc_url = trimmed (env chain_rpc_url);
    sponsor_private_key = trimmed (env sponsor_private_key);
    poll_interval_ms = (numeric env poll_interval_ms 5000 1000 60000).value;
    batch_size = (numeric env batch_size 20 1 100).value;
    max_retries = (numeric env max_retries 5 1 10).value;
    lock_timeout_ms = (numeric env lock_timeout_ms 30000 5000 120000).value;
    shutdown_timeout_ms = (numeric env shutdown_timeout_ms 10000 5000 60000).value;
    confirmation_blocks = (numeric env confirmation_blocks 2 1 50).value;
    tx_timeout_ms = (numeric env tx_timeout_ms 120000 10000 600000).value;
    chain_id = to_number (trimmed (env chain_id));
    contract_address_sponsor_vault = trimmed (env contract_address_sponsor_vault);
    contract_address_sponsorship_registry = trimmed (env contract_address_sponsorship_registry);
    sponsorship_amount =
        (read_big_int to_big_int sponsorship_amount_wei 1000000000000000
          (env sponsorship_amount_wei)).value;
    chain_id_verify_timeout_ms = (numeric env chain_id_verify_timeout_ms 10000 1000 30000).value;
    explorer_base_url = normalize_trailing_slash (explorer_or_default (env explorer_base_url));
  }

  -- `process.exit(1)` with the names on stderr, or the configuration.
  pub data Loaded : Type 0 where
    exits : List Var → Loaded
    loaded : WorkerConfig → Loaded

  abbrev pub finish_loading : List Var → WorkerConfig → Loaded
  finish_loading [] config = loaded config
  finish_loading (e ∷ es) config = exits (e ∷ es)

  -- `loadConfig`.
  unfoldable pub load_config : Env → Loaded
  load_config env =
      finish_loading (unique (collect_errors (resolved env))) (build_config (resolved env))
