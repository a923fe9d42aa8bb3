-- ===== src/Tests/Accounts.antt =====
-- The API's wallets and requests, and the whole system.
use arcpass.Prelude.{
  ℕ, ◌+◌, ◌≤◌, ◌≡◌, ◌↔◌, refl, true, none, some, List, [], ◌∷◌, Text, codes, length, trim, is_space,
  to_lower, starts_with, text_eq, arith,
}
use arcpass.SponsorshipTypes.{RelayStatus, SponsorshipStatus, pending, approved, completed}
use arcpass.Store.{Wallet, SponsorshipRequest}
use arcpass.Store.Table.{keep_rows}
use arcpass.Worker.Config.{is_hex_text}
use arcpass.Worker.Lifecycle.{transition_sponsorship_status}
use arcpass.Worker.Processor.Accounting.{completed_of, count_of}
use arcpass.Api.Errors.{ok}
use arcpass.Api.Actions.{ApiStore}
use arcpass.Api.Wallets.{
  is_wallet_address, is_valid_wallet_address, normalize_wallet_address, register_wallet,
  get_wallet_history, is_of_wallet,
}
use arcpass.Api.Wallets.Addresses.{IsLower, normalize-normalize}
use arcpass.Api.Wallets.Counts.{register_wallet-overcounts}
use arcpass.Api.Wallets.History.{walk, walk-get_wallet_history}
use arcpass.Api.Sponsorship.{
  validate_wallet_exists, validate_wallet_not_blocked, validate_no_pending_request,
  create_sponsorship_request, update_sponsorship_status, find_eligible, insert_request,
}
use arcpass.Api.Sponsorship.Transitions.{Agree, update_sponsorship_status-Agree}
use arcpass.Api.Sponsorship.Exclusive.{IsExclusive, Creation}
use arcpass.Api.Responses.{handle_error}
use arcpass.Api.RateLimits.{
  RateConfig, limit_ip, limit_wallet, check_ip_rate_limit, increment_ip_request_count,
  check_wallet_rate_limit, increment_wallet_request_count, check_record, count_record,
  get_client_ip,
}
use arcpass.Api.Replay.{Request, replay_protection}
use arcpass.Api.Routes.{
  Headers, Platform, PostReply, created, refused, check_content_type, post_request,
}
use arcpass.Api.Relays.Attempts.{
  RelayWrite, adds_attempt, updates_relay, IsNumbered, write_all, write_all-IsNumbered,
}
use arcpass.System.{Call, registers, creates, updates, processes, make_calls, make_calls-once}
use arcpass.Tests.Data.{wallet, request, host, confirming, unlocked}

abbrev address : Text
address = codes "0xabcdefabcdefabcdefabcdefabcdefabcdefabcd"

abbrev typed : Text
typed = codes " 0xABCDEFabcdefabcdefabcdefabcdefabcdefabCD "

abbrev new_row : {A : Type 0} → List A → ℕ
new_row rows = length rows + 1

abbrev known : Wallet
known = record (wallet 7 0) { wallet_address = address }

-- A wallet that is known, without requests.
abbrev idle_store : ApiStore
idle_store = record {
  db = record { wallets = known ∷ []; requests = []; relays = [] };
  limits = [];
}

-- The same with three requests, the last one of another wallet.
abbrev rows : List SponsorshipRequest
rows = request 4 7 pending ∷ request 3 8 completed ∷ request 2 7 SponsorshipStatus.failed ∷ []

abbrev busy_store : ApiStore
busy_store = record {
  db = record { wallets = known ∷ []; requests = rows; relays = [] };
  limits = [];
}

abbrev by_time : List SponsorshipRequest → List SponsorshipRequest
by_time rs = rs

checks : Unit {0}
unfolding normalize_wallet_address is_valid_wallet_address is_wallet_address is_hex_text starts_with
    trim is_space to_lower text_eq
checks = tt

typed-normal : normalize_wallet_address (some typed) ≡ ok address
unfolding checks
typed-normal = refl

address-normal : normalize_wallet_address (some address) ≡ ok address
unfolding checks
address-normal = refl

normalize-normalize_example :
    (is_valid_wallet_address (some address) ≡ true)
    × (normalize_wallet_address (some address) ≡ ok address)
    × IsLower address
    × ((address ≡ address) ↔ (to_lower (trim typed) ≡ to_lower (trim address)))
normalize-normalize_example =
    normalize-normalize typed address address address typed-normal address-normal

register_wallet-overcounts_example :
    count_of 7 (register_wallet new_row 9 (some typed) idle_store).1.db
    ≡ completed_of 7 (register_wallet new_row 9 (some typed) idle_store).1.db + 1
unfolding text_eq
register_wallet-overcounts_example =
    register_wallet-overcounts new_row 9 (some typed) address idle_store known typed-normal refl
      refl (refl, tt) (λ v. ground arith)

walk-get_wallet_history_example :
    walk 4 (λ c. (get_wallet_history by_time (some typed) c 1 busy_store).0) none
    ≡ some (keep_rows (is_of_wallet 7) rows)
unfolding text_eq
walk-get_wallet_history_example =
    walk-get_wallet_history by_time (some typed) 1 4 busy_store address known typed-normal refl
      ((refl, (refl, tt)), ((refl, tt), (tt, tt))) (refl, (refl, (refl, tt))) (omega arith)

abbrev first_call : Creation
first_call = record { now = 9; ip_address = some (codes "10.0.0.1"); user_agent = none }

abbrev second_call : Creation
second_call = record { now = 10; ip_address = none; user_agent = some (codes "curl") }

update_sponsorship_status-Agree_example :
    Agree 4 approved busy_store.db (update_sponsorship_status 50 4 approved busy_store) (
      transition_sponsorship_status host 4 approved
        (record { db = busy_store.db; reads = 0; calls = [] }))
update_sponsorship_status-Agree_example =
    update_sponsorship_status-Agree host 4 approved busy_store
      (record { db = busy_store.db; reads = 0; calls = [] }) refl

abbrev day : List Call
day =
    registers new_row 8 (some typed)
    ∷ creates new_row 9 address none none
    ∷ creates new_row 10 address none none
    ∷ processes host confirming unlocked true 5 1 0 []
    ∷ creates new_row 11 address none none
    ∷ updates 12 1 SponsorshipStatus.failed
    ∷ []

make_calls-once_example :
    IsExclusive (make_calls day idle_store.db)
    × ((v : ℕ) → completed_of v (make_calls day idle_store.db) ≤ 1)
make_calls-once_example = make_calls-once day idle_store.db (λ v. omega arith)

-- A request that comes through.
abbrev post : Request
post = record {
  method = codes "POST";
  url = codes "/sponsorship/request";
  wallet_address = some address;
  forwarded = none;
  address = codes "10.0.0.1";
}

abbrev headers : Headers
headers = record { content_type = some (codes "application/json"); user_agent = none }

abbrev limits_of : RateConfig
limits_of = record {
  rate_limit_ip_max = 2;
  rate_limit_wallet_max = 1;
  rate_limit_window_ms = 1000;
  rate_limit_block_duration_ms = 500;
}

abbrev platform : Platform
platform = record {
  replay_now = 10;
  ip_checked = 11;
  ip_now = 12;
  ip_later = 13;
  wallet_checked = 14;
  wallet_now = 15;
  wallet_later = 16;
  created_now = 17;
  new_limit_id = new_row;
  new_request_id = new_row;
}

handlers : Unit {0}
unfolding checks post_request check_content_type replay_protection limit_ip limit_wallet
    check_ip_rate_limit increment_ip_request_count check_wallet_rate_limit
    increment_wallet_request_count create_sponsorship_request find_eligible validate_wallet_exists
    validate_wallet_not_blocked validate_no_pending_request insert_request check_record count_record
    handle_error
handlers = tt

abbrev status_of : PostReply → ℕ
status_of (created row) = 201
status_of (refused reply) = reply.status

abbrev ask_in : ApiStore → PostReply × ApiStore
ask_in s = post_request limits_of platform true (λ request. none) post headers s

-- A request that came over three proxies.
abbrev far_post : Request
far_post = record post {
  forwarded = some (codes "203.0.113.195, 198.51.100.178, 192.0.2.146, 10.1.2.3");
}

-- The request itself, the same one again in the same moment, and one with too long a header.
post_request_tests :
    (status_of (ask_in idle_store).0 ≡ 201)
    × (status_of (ask_in (ask_in idle_store).1).0 ≡ 429)
    × (status_of
          (post_request limits_of platform true (λ request. none) far_post headers idle_store).0
        ≡ 500)
unfolding handlers get_client_ip
post_request_tests = (refl, refl, refl)

-- Two attempts of one request, the first of which fails.
abbrev writes : List RelayWrite
writes =
    adds_attempt new_row 4
    ∷ updates_relay 20 1 RelayStatus.failed none (some (codes "nonce too low"))
    ∷ adds_attempt new_row 4
    ∷ []

write_all-IsNumbered_example : IsNumbered (write_all writes busy_store).db.relays
write_all-IsNumbered_example = write_all-IsNumbered writes busy_store tt
