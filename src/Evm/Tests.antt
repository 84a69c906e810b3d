-- ===== src/Evm/Tests.antt =====
-- The client on a small deployment: Arbitrum and Polygon, and a chain that refuses a redemption
-- once before it takes it.
use nimble_xchain_contracts.Prelude.{ℕ, zero, suc, List, [], ◌∷◌, ◌≡◌, refl, Option, none, some}
use nimble_xchain_contracts.Prelude.{◌*◌, Bool}
use nimble_xchain_contracts.Js.{Text, text, text_eq, Error, error, Outcome, ok, throws}
use nimble_xchain_contracts.Js.Object.{own}
use nimble_xchain_contracts.Evm.Networks.{Wallet, Contract, Info, info_named}
use nimble_xchain_contracts.Evm.Relay.{
  Receipt, Call, World, RelayerInfo, Attempt, Retry, retried, last_try, redeem_call, nimble_relay,
  ask, try_redeem,
}
use nimble_xchain_contracts.Evm.Relay.Retries.{Retried, nimble_relay-Retried}
use nimble_xchain_contracts.Evm.Transfer.{
  Services, Transfer, fees_of, transfer_token, get_override, send, redeem_on, after_send, fetch_vaa,
  finish, needs_override, to_number,
}
use nimble_xchain_contracts.Evm.Transfer.Steps.{Returned, transfer_token-Returned}

abbrev too_many : Error
too_many = error (text "Too many tries")

abbrev retry_async : ℕ → (Option Receipt → Bool) → Attempt → Attempt
retry_async zero until f w = (throws too_many, w)
retry_async (suc zero) until f w = last_try too_many until (f w)
retry_async (suc (suc n)) until f w = retried until (retry_async (suc n) until f) (f w)

abbrev retry : Retry
retry = record {
  retry_async = retry_async;
  too_many_tries = too_many;
  one_try = λ until f w. refl;
  more_tries = λ n until f w. refl;
}

abbrev receipt : Receipt
receipt = record { transaction_hash = text "0xabc"; logs = [] }

-- A call of an untouched world is refused.
abbrev second_time : World → Call → Outcome Receipt
second_time [] call = throws (error (text "not yet"))
second_time (c ∷ w) call = ok receipt

abbrev wallet : Wallet
wallet = record { private_key = text "key"; provider = text "rpc" }

abbrev contract : Contract
contract = record { address = text "0x1"; signer = wallet }

abbrev relayer_info : RelayerInfo
relayer_info = record {
  target_nimble_xchain = contract;
  target_relayer_wallet = wallet;
  vaa_bytes = 1 ∷ 2 ∷ [];
  override = none;
}

-- The second try succeeds.
nimble_relay_test :
    nimble_relay retry second_time relayer_info []
    ≡ (ok (some receipt), redeem_call relayer_info ∷ redeem_call relayer_info ∷ [])
unfolding nimble_relay try_redeem ask
nimble_relay_test = refl

nimble_relay_example :
    Retried second_time
      (redeem_call relayer_info)
      20
      []
      (nimble_relay retry second_time relayer_info [])
nimble_relay_example = nimble_relay-Retried retry second_time relayer_info []

abbrev info : ℕ → Info
info n = record {
  provider = text "rpc";
  wallet = wallet;
  relayer_wallet = wallet;
  wormhole_address = text "0x2";
  bridge_address = text "0x3";
  nimble_xchain = contract;
  chain_id = n;
}

abbrev buffer : List (Text × Info)
buffer = (text "Arbitrum", info 23) ∷ (text "Polygon", info 5) ∷ []

abbrev services : Services
services = record {
  Number = ℕ;
  times = λ a b. a * b;
  over = λ a b. a;
  decimals_of = λ w call. ok 6;
  sends = λ w call. ok receipt;
  base_fees = λ w call. ok 20_000_000_000;
  vaas = λ w call. ok (7 ∷ []);
  redeems = second_time;
  fee_numbers = λ w call. ok 1;
  parse_units = λ amount places. ok 1_000_000;
  try_native_to_hex_string = λ address chain. ok address;
  parse_sequence_from_log_eth = λ r address. ok (text "42");
  get_emitter_address_eth = λ address. address;
  decode = λ bytes. bytes;
  encode = λ t. t;
  retry = retry;
}

abbrev transfer : Transfer
transfer = record {
  src_chain_name = text "Arbitrum";
  src_token_address = text "0x4";
  target_chain_name = text "Polygon";
  transfer_amount = text "1";
  target_wallet_address = text "0x5";
}

-- The calls of the transfer, the newest first: the redemption is already taken at the first try,
-- since the world is not untouched.
abbrev last_world : World
last_world = (transfer_token services buffer transfer []).1

abbrev result : Option (Text × Receipt)
result = some (7 ∷ [], receipt)

transfer_token_test : transfer_token services buffer transfer [] ≡ (ok result, last_world)
unfolding transfer_token get_override send redeem_on after_send fetch_vaa finish needs_override
    fees_of to_number info_named nimble_relay try_redeem ask text_eq own
transfer_token_test = refl

transfer_token_example : Returned services buffer transfer [] last_world result
transfer_token_example =
    transfer_token-Returned services buffer transfer [] last_world result transfer_token_test
