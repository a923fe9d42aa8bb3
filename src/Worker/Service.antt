-- ===== src/Worker/Service.antt =====
-- apps/worker/src/worker.ts: start and stop of the worker, over the state of its modules.
pub mod Readiness
use arcpass.Prelude.{ℕ, Bool, true, false, Option, none, some, List, Text, if◌then◌else◌}
use arcpass.Worker.ContractClient.{Chain, initialize_contract_client}
use arcpass.Worker.RelayExecutor.{Clients, initialize_relay_executor}
use arcpass.Worker.Poller
use arcpass.Worker.Poller.{Poller, create_poller}
use arcpass.Worker.Config.{Var, Env, Numbers, WorkerConfig, Loaded, exits, loaded, load_config}
use arcpass.Worker.ViemClient.{Raced, ChainError, verify_chain_id, validate_sponsor_private_key}

module _ (n : Numbers) where
  open n use {Num}

  -- What surrounds the worker: the environment, viem, the URL class, the answer of the RPC endpoint
  -- within a time, and the comparison of numbers.
  pub record Surroundings : Type 1 where
    pub env : Env
    pub Account : Type 0
    pub private_key_to_account : Text → Option Account
    pub is_url : Text → Bool
    pub same : Num → Num → Bool
    pub get_chain_id : Text → Num → Raced Num
    pub chain_of : Text → Account → Text → Text → Num → Chain

  -- The variables of worker.ts and of the two modules that it initializes.
  pub record Service : Type 0 where
    pub config : Option (WorkerConfig n)
    pub poller : Option Poller
    pub clients : Clients

  pub data Started : Type 0 where
    started : Started
    exits_on_config : List Var → Started
    exits_on_key : Started
    throws_on_url : Started
    exits_on_chain : ChainError Num → Started

  pub data Stopped : Type 0 where
    nothing_to_stop stopped exits_on_timeout throws_on_disconnect : Stopped

  -- `initializeContractClient` and `initializeRelayExecutor`.
  abbrev pub initialize_clients : Chain → WorkerConfig n → Clients → Clients
  initialize_clients chain c clients =
      initialize_relay_executor c.sponsorship_amount (record clients {
        contract_client =
            initialize_contract_client chain c.explorer_base_url clients.contract_client;
      })

  abbrev pub start_poller :
      Chain → WorkerConfig n → Service → Option (ChainError Num) → Started × Service
  start_poller chain c s (some e) = (exits_on_chain e, s)
  start_poller chain c s none = (
    started,
    record s {
      clients = initialize_clients chain c s.clients;
      poller = some (arcpass.Worker.Poller.start create_poller);
    },
  )

  module _ (o : Surroundings) where
    abbrev pub start_clients : WorkerConfig n → Service → Option o.Account → Started × Service
    start_clients c s none = (exits_on_key, s)
    start_clients c s (some account) =
        if o.is_url c.chain_rpc_url
        then start_poller
            (o.chain_of c.chain_rpc_url account c.contract_address_sponsor_vault
              c.contract_address_sponsorship_registry c.tx_timeout_ms)
            c s
            (verify_chain_id o.same c.chain_id
              (o.get_chain_id c.chain_rpc_url c.chain_id_verify_timeout_ms))
        else (throws_on_url, s)

    abbrev pub start_loaded : Service → Loaded n → Started × Service
    start_loaded s (exits names) = (exits_on_config names, s)
    start_loaded s (loaded c) =
        start_clients c (record s { config = some c })
          (validate_sponsor_private_key o.private_key_to_account c.sponsor_private_key)

    -- `start`.
    unfoldable pub start : Service → Started × Service
    start s = start_loaded s (load_config n o.env)

  -- `stop`, where the timer fires before the poller has stopped or not, and `$disconnect` resolves
  -- or not.
  abbrev pub stop_poller : Bool → Bool → Service → Option Poller → Stopped × Service
  stop_poller times_out disconnects s none = (nothing_to_stop, s)
  stop_poller times_out disconnects s (some p) =
      if disconnects
      then (
        if times_out then exits_on_timeout else stopped,
        record s { poller = none; config = none },
      )
      else (throws_on_disconnect, record s { poller = some (arcpass.Worker.Poller.stop p) })

  unfoldable pub stop : Bool → Bool → Service → Stopped × Service
  stop times_out disconnects s = stop_poller times_out disconnects s s.poller
