-- ===== src/Worker/Config/Validity.antt =====
-- What a configuration that is loaded satisfies.
use arcpass.Prelude.{
  and-true_left, and-true_right, ◌<◌, ◌≡◌, refl, true, false, List, [], ◌∷◌, codes, ends_with,
  arith,
}
use arcpass.Worker.Config.{
  chain_rpc_url, sponsor_private_key, database_url, chain_id, contract_address_sponsor_vault,
  contract_address_sponsorship_registry, poll_interval_ms, batch_size, max_retries, lock_timeout_ms,
  shutdown_timeout_ms, confirmation_blocks, tx_timeout_ms, sponsorship_amount_wei,
  chain_id_verify_timeout_ms, explorer_base_url, Var, Env, Numbers, resolved, trimmed, is_empty,
  unique, is_contract_address, is_rpc_url, is_private_key, explorer_or_default, WorkerConfig,
  is_chain_id, collect_errors, build_config, loaded, finish_loading, load_config,
}
use arcpass.Worker.Config.Checks.{
  append-eq-nil, push_if-eq-nil, present, format_fits, ends_with-normalize, positive,
  ComparesNumerals, InRange, numeric-InRange,
}

module _ (n : Numbers) where
  open n use {Num, numeral, lt}

  -- What the worker relies on in its configuration.
  pub record IsAdmissible (c : WorkerConfig n) : Type 0 where
    pub database : is_empty c.database_url ≡ false
    pub rpc : is_rpc_url c.chain_rpc_url ≡ true
    pub key : is_private_key c.sponsor_private_key ≡ true
    pub vault : is_contract_address c.contract_address_sponsor_vault ≡ true
    pub registry : is_contract_address c.contract_address_sponsorship_registry ≡ true
    pub chain : n.is_integer c.chain_id ≡ true
    pub chain_positive : lt (numeral 0) c.chain_id ≡ true
    pub amount : 0 < c.sponsorship_amount
    pub poll_interval : InRange n 1000 60000 c.poll_interval_ms
    pub batch : InRange n 1 100 c.batch_size
    pub retries : InRange n 1 10 c.max_retries
    pub lock_timeout : InRange n 5000 120000 c.lock_timeout_ms
    pub shutdown_timeout : InRange n 5000 60000 c.shutdown_timeout_ms
    pub confirmations : InRange n 1 50 c.confirmation_blocks
    pub tx_timeout : InRange n 10000 600000 c.tx_timeout_ms
    pub verify_timeout : InRange n 1000 30000 c.chain_id_verify_timeout_ms
    pub explorer : ends_with c.explorer_base_url (codes "/") ≡ true

  finish_loading-loaded :
      (es : List Var) (b c : WorkerConfig n)
      → finish_loading n (unique es) b ≡ loaded c
      → (es ≡ []) × (b ≡ c)
  finish_loading-loaded [] b c h = (refl, cc)
  finish_loading-loaded (e ∷ es) b c h = cc

  build-IsAdmissible :
      (env : Env)
      → ComparesNumerals n
      → collect_errors n env ≡ []
      → IsAdmissible (build_config n env)
  unfolding collect_errors build_config is_chain_id
  build-IsAdmissible env compares h =
      let (required, h1) = append-eq-nil _ _ h in
      let (rpc, h2) = append-eq-nil _ _ h1 in
      let (key, h3) = append-eq-nil _ _ h2 in
      let (chain, h4) = append-eq-nil _ _ h3 in
      let (vault, h5) = append-eq-nil _ _ h4 in
      let (registry, h6) = append-eq-nil _ _ h5 in
      let (poll, h7) = append-eq-nil _ _ h6 in
      let (batch, h8) = append-eq-nil _ _ h7 in
      let (retries, h9) = append-eq-nil _ _ h8 in
      let (lock, h10) = append-eq-nil _ _ h9 in
      let (shutdown, h11) = append-eq-nil _ _ h10 in
      let (confirm, h12) = append-eq-nil _ _ h11 in
      let (tx, h13) = append-eq-nil _ _ h12 in
      let (amount, verify) = append-eq-nil _ _ h13 in
      let (has_db, m1) = append-eq-nil _ _ required in
      let (has_rpc, m2) = append-eq-nil _ _ m1 in
      let (has_key, m3) = append-eq-nil _ _ m2 in
      let (has_chain, m4) = append-eq-nil _ _ m3 in
      let (has_vault, has_registry) = append-eq-nil _ _ m4 in
      let chain_ok =
        format_fits (is_chain_id n (trimmed (env chain_id))) (trimmed (env chain_id)) chain_id
          (present (env chain_id) (push_if-eq-nil _ _ has_chain)) chain in
      record {
        database = present (env database_url) (push_if-eq-nil _ _ has_db);
        rpc =
            format_fits (is_rpc_url (trimmed (env chain_rpc_url))) (trimmed (env chain_rpc_url))
              chain_rpc_url (present (env chain_rpc_url) (push_if-eq-nil _ _ has_rpc)) rpc;
        key =
            format_fits (is_private_key (trimmed (env sponsor_private_key)))
              (trimmed (env sponsor_private_key)) sponsor_private_key
              (present (env sponsor_private_key) (push_if-eq-nil _ _ has_key)) key;
        vault =
            format_fits (is_contract_address (trimmed (env contract_address_sponsor_vault)))
              (trimmed (env contract_address_sponsor_vault)) contract_address_sponsor_vault
              (present (env contract_address_sponsor_vault) (push_if-eq-nil _ _ has_vault)) vault;
        registry =
            format_fits (is_contract_address (trimmed (env contract_address_sponsorship_registry)))
              (trimmed (env contract_address_sponsorship_registry))
              contract_address_sponsorship_registry
              (present (env contract_address_sponsorship_registry)
                (push_if-eq-nil _ _ has_registry))
              registry;
        chain = and-true_left _ _ chain_ok;
        chain_positive = and-true_right _ _ chain_ok;
        amount =
            positive n.to_big_int sponsorship_amount_wei 1000000000000000
              (env sponsorship_amount_wei) (omega arith) amount;
        poll_interval =
            numeric-InRange n env poll_interval_ms 5000 1000 60000 compares (omega arith)
              (omega arith) poll;
        batch =
            numeric-InRange n env batch_size 20 1 100 compares (omega arith) (omega arith) batch;
        retries =
            numeric-InRange n env max_retries 5 1 10 compares (omega arith) (omega arith) retries;
        lock_timeout =
            numeric-InRange n env lock_timeout_ms 30000 5000 120000 compares (omega arith)
              (omega arith) lock;
        shutdown_timeout =
            numeric-InRange n env shutdown_timeout_ms 10000 5000 60000 compares (omega arith)
              (omega arith) shutdown;
        confirmations =
            numeric-InRange n env confirmation_blocks 2 1 50 compares (omega arith) (omega arith)
              confirm;
        tx_timeout =
            numeric-InRange n env tx_timeout_ms 120000 10000 600000 compares (omega arith)
              (omega arith) tx;
        verify_timeout =
            numeric-InRange n env chain_id_verify_timeout_ms 10000 1000 30000 compares (omega arith)
              (omega arith) verify;
        explorer = ends_with-normalize (explorer_or_default (env explorer_base_url));
      }

  -- Where a configuration is loaded, the database URL is not blank, the RPC URL starts with
  -- http:// or https://, the key is 64 hexadecimal digits after an optional 0x, both contract
  -- addresses are 0x and 40 hexadecimal digits, the chain id is a positive integer, the amount is
  -- positive, each of the eight numeric settings is neither below its minimum nor above its maximum
  -- and the explorer URL ends with a slash. A condition: of two numerals the greater is not below
  -- the smaller.
  pub load_config-IsAdmissible :
      (env : Env) (c : WorkerConfig n)
      → ComparesNumerals n
      → load_config n env ≡ loaded c
      → IsAdmissible c
  unfolding load_config
  load_config-IsAdmissible env c compares h =
      let (none_wrong, same) =
        finish_loading-loaded (collect_errors n (resolved env)) (build_config n (resolved env)) c
          h in
      rw (← same) (build-IsAdmissible (resolved env) compares none_wrong)
