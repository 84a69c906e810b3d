-- ===== src/Relay/Tests.antt =====
-- The theorems on the relay at concrete inputs, and test runs.
use nimble_xchain_contracts.Prelude.{[], ◌∷◌, ◌≡◌, ◌↔◌, ◌⊎◌, refl}
use nimble_xchain_contracts.Prelude.{Option, none, some, true, if◌then◌else◌}
use nimble_xchain_contracts.Js.{Text, text, text_eq, num, str, ok}
use nimble_xchain_contracts.Js.{is_empty, to_lower_case}
use nimble_xchain_contracts.Js.Convert.{
  string_of, big_int, string_to_big_int, literal, base_prefix, trim_end, trim_start, is_space,
  value_to_lower_case,
}
use nimble_xchain_contracts.Js.Decimal.{decimal, numeral}
use nimble_xchain_contracts.Js.Object.{Member, own, define, object_of}
use nimble_xchain_contracts.Sdk.{documented}
use nimble_xchain_contracts.Relay.Thresholds.{Thresholds, supported_addresses, supported_dev}
use nimble_xchain_contracts.Relay.ChainIds.{number_to_chain_id}
use nimble_xchain_contracts.Relay.Config.{Env, ChainConfigInfo, validate_environment}
use nimble_xchain_contracts.Relay.Config.StartUp.{Starts, first_missing, karura_names, start_up}
use nimble_xchain_contracts.Relay.Policy.{
  VaaInfo, Query, do_relay, should_relay, should_relay_vaa, check_supported, check_token,
  check_least,
}
use nimble_xchain_contracts.Relay.Policy.Accepted.{IsPlain, IsAccepted, should_relay_iff}
use nimble_xchain_contracts.Relay.Policy.LetterCase.{query}
use nimble_xchain_contracts.Relay.Server.{
  Bytes, Receipt, World, Request, Services, post_relay, find_chain, relay, nimble_relay, serve,
}
use nimble_xchain_contracts.Relay.Server.Responses.{AnsweredOnce, serve-AnsweredOnce}
use nimble_xchain_contracts.Relay.Server.Redeeming.{
  Cleared, Untouched, Submitted, redeem_call, relay_redeems, relay_submits, Warrants,
}
use nimble_xchain_contracts.Relay.Server.NimbleRelay.{
  IsReady, NimbleSubmitted, nimble_call, nimble_relay-submits,
}

abbrev bare : Text → Option Member
bare k = none

abbrev testnet : Thresholds
testnet = supported_addresses documented true

abbrev usdt : Text
usdt = text "0x337610D27c682E347C9cD60BD4b3b107C9d34dDd"

abbrev usdt_query : Query
usdt_query = query (str (text "11")) usdt (str (text "1000000"))

policy : Unit {0}
unfolding should_relay supported_addresses own text_eq is_empty to_lower_case string_of big_int
    string_to_big_int literal base_prefix trim_end trim_start is_space numeral supported_dev
    object_of define decimal check_supported check_token value_to_lower_case check_least
policy = tt

usdt-plain : IsPlain bare testnet usdt_query
usdt-plain = record { chain_plain = refl; token_plain = λ asset e. refl }

should_relay_iff_example :
    (should_relay bare testnet usdt_query ≡ ok do_relay) ↔ IsAccepted testnet usdt_query
should_relay_iff_example = should_relay_iff bare testnet usdt_query usdt-plain

abbrev karura_env : Env
karura_env k =
    if text_eq k (text "KARURA_ETH_RPC_URL")
    then some (text "http://a")
    else if text_eq k (text "KARURA_SUBSTRATE_NODE_URL")
    then some (text "ws://b")
    else if text_eq k (text "KARURA_PRIVATE_KEY")
    then some (text "k")
    else none

start_up_example :
    Starts documented
      (validate_environment documented karura_env)
      (first_missing karura_env karura_names)
start_up_example = start_up documented karura_env

-- A relay with one chain, services that always succeed, and a VAA of one byte.
abbrev karura_config : ChainConfigInfo
karura_config = record {
  chain_id = 11;
  node_url = text "http://a";
  substrate_node_url = text "ws://b";
  token_bridge_address = text "0xb";
  wallet_private_key = text "k";
}

abbrev acala_vaa : VaaInfo
acala_vaa = record {
  amount = 2_000_000;
  origin_address = text "00";
  origin_chain = 4;
  target_address = text "01";
  target_chain = 12;
}

abbrev receipt : Receipt
receipt = record { transaction_hash = text "0x1" }

abbrev services : Services
services = record {
  hex_to_uint8_array = λ v. ok (1 ∷ []);
  parse_vaa = λ bytes. ok acala_vaa;
  hex_to_native_string = λ address chain. ok (str usdt);
  wallet = λ key. ok tt;
  submit = λ call. ok receipt;
  prototype = bare;
  chain_id = documented;
}

abbrev request : Request
request k = if text_eq k (text "targetChain") then num 11 else str (text "ff")

abbrev start : World
start = record { replies = []; calls = [] }

handlers : Unit {0}
unfolding policy relay nimble_relay find_chain should_relay_vaa number_to_chain_id
handlers = tt

serve-AnsweredOnce_example :
    AnsweredOnce start (serve services (karura_config ∷ []) testnet post_relay request start)
serve-AnsweredOnce_example =
    serve-AnsweredOnce services start (karura_config ∷ []) testnet post_relay request

relay_redeems_example :
    Untouched start (relay services (karura_config ∷ []) testnet request start).1
    ⊎ ((config : ChainConfigInfo) × (bytes : Bytes) × Cleared services
          (karura_config ∷ [])
          testnet
          request
          config
          bytes
        × Submitted services start
            (relay services (karura_config ∷ []) testnet request start).1
            (redeem_call config bytes))
relay_redeems_example = relay_redeems services (karura_config ∷ []) testnet request start

acala-Cleared : Cleared services (karura_config ∷ []) testnet request karura_config (1 ∷ [])
unfolding handlers
acala-Cleared = record {
  vaa = acala_vaa;
  result = do_relay;
  configured = refl;
  decoded = refl;
  parsed = refl;
  judged = refl;
  accepted = refl;
}

-- The request names Karura and the VAA is for Acala: it is submitted on Karura.
relay_submits_example :
    ((relay services (karura_config ∷ []) testnet request start).1.calls
      ≡ redeem_call karura_config (1 ∷ []) ∷ start.calls)
    ↔ Warrants services
        (karura_config ∷ [])
        testnet
        request
        start
        (redeem_call karura_config (1 ∷ []))
relay_submits_example =
    relay_submits services (karura_config ∷ []) testnet request start
      (redeem_call karura_config (1 ∷ []))

-- It is one of those that are submitted.
relay_submits_test :
    (relay services (karura_config ∷ []) testnet request start).1.calls
    ≡ redeem_call karura_config (1 ∷ []) ∷ start.calls
unfolding text_eq is_empty
relay_submits_test =
    relay_submits_example.1 (karura_config, 1 ∷ [], acala-Cleared, refl, refl, refl)

request-IsReady : IsReady services request (1 ∷ [])
unfolding text_eq is_empty
request-IsReady = record {
  node_url = refl;
  user_key = refl;
  relayer_key = refl;
  contract = refl;
  signed_vaa = refl;
  user_wallet = refl;
  relayer_wallet = refl;
  decoded = refl;
}

nimble_relay-submits_example :
    NimbleSubmitted services request start
      (nimble_relay services request start).1
      (nimble_call request (1 ∷ []))
nimble_relay-submits_example = nimble_relay-submits services request start (1 ∷ []) request-IsReady
