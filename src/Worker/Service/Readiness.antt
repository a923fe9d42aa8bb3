-- ===== src/Worker/Service/Readiness.antt =====
-- What holds of a worker that has started, and of one that has not.
use arcpass.Prelude.{
  ◌≡◌, ◌≢◌, refl, sym, ◌∙◌, ◌⊎◌, inl, inr, Bool, true, false, Option, none, some, if◌then◌else◌,
  Bool-cases,
}
use arcpass.Worker.ContractClient.{Chain, initialize_contract_client}
use arcpass.Worker.RelayExecutor.{initialize_relay_executor}
use arcpass.Worker.Poller
use arcpass.Worker.Poller.{Poller, create_poller}
use arcpass.Worker.Config.{Numbers, WorkerConfig, Loaded, exits, loaded, load_config}
use arcpass.Worker.Config.Checks.{ComparesNumerals}
use arcpass.Worker.Config.Validity.{IsAdmissible, load_config-IsAdmissible}
use arcpass.Worker.ViemClient.{
  Raced, answers, refuses, timer_fires, ChainError, verify_chain_id, normalized_key,
  validate_sponsor_private_key,
}
use arcpass.Worker.Service.{
  Surroundings, Service, Started, started, throws_on_url, stop, nothing_to_stop, start_poller,
  start_clients, start_loaded, start,
}

verify_chain_id-none :
    {N : Type 0} (same : N → N → Bool) (expected : N) (raced : Raced N)
    → verify_chain_id same expected raced ≡ none
    → (actual : N) × (raced ≡ answers actual) × (same actual expected ≡ true)
unfolding verify_chain_id
verify_chain_id-none same expected (refuses m) h = cc
verify_chain_id-none same expected timer_fires h = cc
verify_chain_id-none same expected (answers actual) h =
    (actual, refl, by_test (same actual expected) h)
  where
    by_test :
        (b : Bool)
        → (if b then none else some (ChainError.mismatch expected actual)) ≡ none
        → b ≡ true
    by_test true h = refl
    by_test false h = cc

second : {A B : Type 0} {a a' : A} {b b' : B} → ◌≡◌ {A = A × B} (a, b) (a', b') → b ≡ b'
second h = λ i. (h i).1

module _ (n : Numbers) (o : Surroundings n) where
  open n use {Num}

  -- A worker that is ready: its configuration is admissible, the account is that of the configured
  -- key, the endpoint has answered with the configured chain, both relay modules are initialized
  -- from the configuration, and the poller runs with its first query in flight.
  pub record IsReady (c : WorkerConfig n) (account : o.Account) (t : Service n) : Type 0 where
    pub configured : t.config ≡ some c
    pub admissible : IsAdmissible n c
    pub key : o.private_key_to_account (normalized_key c.sponsor_private_key) ≡ some account
    pub chain :
        (actual : Num) × (o.get_chain_id c.chain_rpc_url c.chain_id_verify_timeout_ms
          ≡ answers actual)
        × (o.same actual c.chain_id ≡ true)
    pub contract :
        t.clients.contract_client
        ≡ some (
          o.chain_of c.chain_rpc_url account c.contract_address_sponsor_vault
              c.contract_address_sponsorship_registry c.tx_timeout_ms,
          c.explorer_base_url,
        )
    pub executor : t.clients.initialized ≡ true
    pub amount : t.clients.sponsorship_amount ≡ c.sponsorship_amount
    pub polling : t.poller ≡ some (arcpass.Worker.Poller.start create_poller)

  start_clients-IsReady :
      (c : WorkerConfig n) (s t : Service n) (derived : Option o.Account)
      → IsAdmissible n c
      → s.config ≡ some c
      → derived ≡ o.private_key_to_account (normalized_key c.sponsor_private_key)
      → start_clients n o c s derived ≡ (started, t)
      → (account : o.Account) × IsReady c account t
  unfolding initialize_contract_client initialize_relay_executor
  start_clients-IsReady c s t none ok set same h = cc
  start_clients-IsReady c s t (some account) ok set same h =
      (account, by_outcome (o.is_url c.chain_rpc_url) _ refl h)
    where
      raced : Raced Num
      raced = o.get_chain_id c.chain_rpc_url c.chain_id_verify_timeout_ms

      chain : Chain
      chain =
          o.chain_of c.chain_rpc_url account c.contract_address_sponsor_vault
            c.contract_address_sponsorship_registry c.tx_timeout_ms

      by_outcome :
          (b : Bool) (e : Option (ChainError Num))
          → verify_chain_id o.same c.chain_id raced ≡ e
          → (if b then start_poller n chain c s e else (throws_on_url, s)) ≡ (started, t)
          → IsReady c account t
      by_outcome false e v h = cc
      by_outcome true (some e) v h = cc
      by_outcome true none v h = rw (← second h) (record {
        configured = set;
        admissible = ok;
        key = sym same;
        chain = verify_chain_id-none o.same c.chain_id raced v;
        contract = refl;
        executor = refl;
        amount = refl;
        polling = refl;
      })

  start_loaded-IsReady :
      (l : Loaded n) (s t : Service n)
      → ((c : WorkerConfig n) → l ≡ loaded c → IsAdmissible n c)
      → start_loaded n o s l ≡ (started, t)
      → (c : WorkerConfig n) × (account : o.Account) × IsReady c account t
  unfolding validate_sponsor_private_key
  start_loaded-IsReady (exits names) s t ok h = cc
  start_loaded-IsReady (loaded c) s t ok h =
      let (account, ready) =
        start_clients-IsReady c (record s { config = some c }) t _ (ok c refl) refl refl h in
      (c, account, ready)

  -- Where start reports that the worker has started, its configuration is admissible, viem has derived
  -- an account from the configured key, normalized to start with 0x, the RPC endpoint has answered in
  -- time with the configured chain id, the contract client and the relay executor are initialized
  -- with the configured URLs, addresses, timeout and amount and with that account, and the poller
  -- runs with its first query in flight. A condition: of two numerals the greater is not below the
  -- smaller.
  pub start-IsReady :
      (s t : Service n)
      → ComparesNumerals n
      → start n o s ≡ (started, t)
      → (c : WorkerConfig n) × (account : o.Account) × IsReady c account t
  unfolding start
  start-IsReady s t compares h =
      start_loaded-IsReady (load_config n o.env) s t
        (λ c e. load_config-IsAdmissible n o.env c compares e) h

  abbrev Keeps : Service n → Started n × Service n → Type 0
  Keeps s r = (r.0 ≡ started) ⊎ ((r.1.poller ≡ s.poller) × (r.1.clients ≡ s.clients))

  start_poller-Keeps :
      (chain : Chain) (c : WorkerConfig n) (s : Service n) (e : Option (ChainError Num))
      → Keeps s (start_poller n chain c s e)
  start_poller-Keeps chain c s none = inl refl
  start_poller-Keeps chain c s (some e) = inr (refl, refl)

  start_clients-Keeps :
      (c : WorkerConfig n) (s : Service n) (derived : Option o.Account)
      → Keeps s (start_clients n o c s derived)
  start_clients-Keeps c s none = inr (refl, refl)
  start_clients-Keeps c s (some account) = elim (Bool-cases (o.is_url c.chain_rpc_url)) [
    | inl h ↦ rw h (start_poller-Keeps _ c s _)
    | inr h ↦ rw h (inr (refl, refl))
  ]

  start_loaded-Keeps : (s : Service n) (l : Loaded n) → Keeps s (start_loaded n o s l)
  start_loaded-Keeps s (exits names) = inr (refl, refl)
  start_loaded-Keeps s (loaded c) = start_clients-Keeps c (record s { config = some c }) _

  start-Keeps : (s : Service n) → Keeps s (start n o s)
  unfolding start
  start-Keeps s = start_loaded-Keeps s (load_config n o.env)

  stop-nothing :
      (times_out disconnects : Bool) (t : Service n)
      → t.poller ≡ none
      → stop n times_out disconnects t ≡ (nothing_to_stop, t)
  unfolding stop
  stop-nothing times_out disconnects t h = rw h refl

  -- Where start does not report that the worker has started and there was no poller, both relay
  -- modules are as before, and a stop finds nothing to stop and changes nothing.
  pub start-unstarted :
      (s : Service n) (times_out disconnects : Bool)
      → s.poller ≡ none
      → (start n o s).0 ≢ started
      → ((start n o s).1.clients ≡ s.clients)
        × (stop n times_out disconnects (start n o s).1 ≡ (nothing_to_stop, (start n o s).1))
  start-unstarted s times_out disconnects empty unstarted = elim (start-Keeps s) [
    | inl yes_started ↦ absurd (unstarted yes_started)
    | inr kept ↦ (kept.1, stop-nothing times_out disconnects _ (kept.0 ∙ empty))
  ]
