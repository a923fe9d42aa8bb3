-- ===== src/Tests/Service.antt =====
-- Starts of the worker.
use arcpass.Prelude.{
  ℕ, ◌==◌, ◌≡◌, ◌≢◌, refl, Bool, true, false, Option, none, some, Text, starts_with, trim,
}
use arcpass.Worker.Config.{
  WorkerConfig, load_config, build_config, resolved, resolve_env, collect_errors, is_rpc_url,
  is_private_key, is_contract_address, is_hex_text, is_chain_id,
}
use arcpass.Worker.ViemClient.{
  ChainError, mismatch, answers, verify_chain_id, validate_sponsor_private_key,
}
use arcpass.Worker.Service.{
  Surroundings, Service, Started, exits_on_chain, start, stop, started, nothing_to_stop,
}
use arcpass.Worker.Service.Readiness.{IsReady, start-IsReady, start-unstarted}
use arcpass.Tests.Config.{decimals, local_env, decimals-ComparesNumerals}
use arcpass.Tests.Relay.{good_chain}

abbrev same_option : Option ℕ → Option ℕ → Bool
same_option (some a) (some b) = a == b
same_option _ _ = false

abbrev network : ℕ → Surroundings decimals
network chain = record {
  env = local_env;
  Account = Text;
  private_key_to_account = λ key. some key;
  is_url = λ url. true;
  same = same_option;
  get_chain_id = λ url timeout. answers (some chain);
  chain_of = λ url account vault registry timeout. good_chain;
}

abbrev idle : Service decimals
idle = record {
  config = none;
  poller = none;
  clients = record {
    initialized = false;
    sponsorship_amount = 1000000000000000;
    contract_client = none;
  };
}

local_starts :
    start decimals (network 5042002) idle ≡ (started, (start decimals (network 5042002) idle).1)
unfolding start load_config resolved resolve_env collect_errors is_rpc_url is_private_key
    is_contract_address is_hex_text is_chain_id starts_with trim verify_chain_id
    validate_sponsor_private_key build_config
local_starts = refl

start-IsReady_example :
    (c : WorkerConfig decimals) × (account : Text) × IsReady decimals
      (network 5042002)
      c
      account
      (start decimals (network 5042002) idle).1
start-IsReady_example =
    start-IsReady decimals (network 5042002) idle (start decimals (network 5042002) idle).1
      decimals-ComparesNumerals local_starts

refused-unstarted :
    (r : Started decimals) (e : ChainError (Option ℕ)) → r ≡ exits_on_chain e → r ≢ started
refused-unstarted r e refused = λ h. cc

wrong_chain :
    (start decimals (network 1) idle).0 ≡ exits_on_chain (mismatch (some 5042002) (some 1))
unfolding start load_config resolved resolve_env collect_errors is_rpc_url is_private_key
    is_contract_address is_hex_text is_chain_id starts_with trim verify_chain_id
    validate_sponsor_private_key build_config
wrong_chain = refl

wrong_chain-unstarted : (start decimals (network 1) idle).0 ≢ started
wrong_chain-unstarted = refused-unstarted _ _ wrong_chain

start-unstarted_example :
    ((start decimals (network 1) idle).1.clients ≡ idle.clients)
    × (stop decimals false true (start decimals (network 1) idle).1
        ≡ (nothing_to_stop, (start decimals (network 1) idle).1))
start-unstarted_example =
    start-unstarted decimals (network 1) idle false true refl wrong_chain-unstarted
