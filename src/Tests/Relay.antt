-- ===== src/Tests/Relay.antt =====
-- The relay and its failure reasons.
use arcpass.Prelude.{
  ◌≤◌, ◌≡◌, refl, ◌&&◌, not, true, false, Option, none, some, [], Text, codes, length, take,
  to_lower, includes_text, starts_with, text_eq,
}
use arcpass.Worker.Tx.{RelayCall}
use arcpass.Worker.Processor.{is_already_sponsored_error}
use arcpass.Worker.ContractClient.{
  ErrorObject, plain_error, caused_by, error, returned, Chain, DecodedError, truncate_reason,
  handle_execution_error, extract_error_data, message_of, execute_contract_relay,
  format_decoded_error, mentions_connection, mentions_rate_limit, mentions_nonce, mentions_gas,
  mentions_timeout,
}
use arcpass.Worker.ContractClient.Reasons.{
  truncate_reason-keeps, handle-is_already_sponsored, mentions_network, reveals_already,
}
use arcpass.Worker.ContractClient.Results.{Explained, execute_contract_relay-Explained}
use arcpass.Worker.RelayExecutor.{Clients, Weather}

abbrev already : Text → Option DecodedError
already d = some (record { error_name = codes "AlreadySponsored"; args = none })

abbrev reverted : ErrorObject
reverted = caused_by (codes "execution reverted") none (plain_error [] (some (codes "0x01")) none)

-- The same revert, with a recipient whose address has `429` in it.
abbrev unlucky : ErrorObject
unlucky = caused_by (codes "args: (0x4290)") none (plain_error [] (some (codes "0x01")) none)

truncate_reason-keeps_example :
    (length (truncate_reason (codes "boom")) ≤ 1000)
    × (take 997 (truncate_reason (codes "boom")) ≡ take 997 (codes "boom"))
truncate_reason-keeps_example = truncate_reason-keeps (codes "boom")

handle-is_already_sponsored_example :
    is_already_sponsored_error
      (some (truncate_reason (handle_execution_error already (error reverted))))
    ≡ (not (mentions_network (to_lower (message_of reverted)))
        && reveals_already already (message_of reverted) (extract_error_data reverted))
handle-is_already_sponsored_example = handle-is_already_sponsored already reverted

reasons : Unit {0}
unfolding truncate_reason handle_execution_error extract_error_data is_already_sponsored_error
    format_decoded_error mentions_connection mentions_rate_limit mentions_nonce mentions_gas
    mentions_timeout starts_with includes_text text_eq to_lower
reasons = tt

handle_tests :
    (handle_execution_error already (error reverted)
      ≡ codes "AlreadySponsored: recipient already sponsored")
    × (handle_execution_error already (error unlucky) ≡ codes "RPC rate limited: args: (0x4290)")
unfolding reasons
handle_tests = (refl, refl)

abbrev pub good_chain : Chain
good_chain = record {
  write_contract = λ recipient amount. returned (codes "0xbeef");
  wait_for_receipt = λ hash. returned (record { succeeded = true; block_number = 5; logs = [] });
  decode_error = already;
}

execute_contract_relay-Explained_example :
    Explained
      (some (good_chain, codes "https://scan/"))
      (codes "0xabc")
      3
      (execute_contract_relay (some (good_chain, codes "https://scan/")) (codes "0xabc") 3)
execute_contract_relay-Explained_example =
    execute_contract_relay-Explained (some (good_chain, codes "https://scan/")) (codes "0xabc") 3

abbrev clients : Clients
clients = record {
  initialized = true;
  sponsorship_amount = 3;
  contract_client = some (good_chain, codes "https://scan/");
}

abbrev weather : Weather
weather = record {
  query_error = λ call. none;
  deadline_passes = λ call. false;
  print_id = λ id. [];
}

abbrev call : RelayCall
call = record { request_id = 2; relay_id = 100; attempt = 1 }
