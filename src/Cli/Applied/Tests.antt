-- ===== src/Cli/Applied/Tests.antt =====
-- The commands at contracts that were just deployed.
use nimble_xchain_contracts.Prelude.{ℕ, [], ◌∷◌, ◌++◌, ◌≡◌, ◌≢◌, refl, true}
use nimble_xchain_contracts.Js.{Text, text, text_eq, ok}
use nimble_xchain_contracts.Constants.{
  Network, arbitrum, avalanche, binance, ethereum, injective, optimism, polygon,
}
use nimble_xchain_contracts.Cli
use nimble_xchain_contracts.Cli.{contract_of, chain_info, sdk_chain, is_same}
use nimble_xchain_contracts.Cli.Tests.{network_number, config, main_config, services}
use nimble_xchain_contracts.Cli.Applied.{kept, same_contract, after_calls}
use nimble_xchain_contracts.Cli.Applied.Registrations.{register_emitter-after_calls}
use nimble_xchain_contracts.Cli.Applied.FreshContracts.{register_emitter-send_tokens_with_payload}
use nimble_xchain_contracts.Cli.Applied.FeesSet.{update_relayer_fee-after_calls}
use nimble_xchain_contracts.Cli.{check_chains, includes}
use nimble_xchain_contracts.Xchain.{zeros, State, Deployment, deployed}
use nimble_xchain_contracts.Xchain.Governance
use nimble_xchain_contracts.Xchain.Governance.{construct}
use nimble_xchain_contracts.Xchain.Fees.{SafeMath}
use nimble_xchain_contracts.Xchain.Transfers.{Chain, send_tokens_with_payload}

abbrev hex : Network → Text
hex n = network_number n ∷ []

hexes :
    (n : Network)
    → services.try_native_to_hex_string
        (chain_info services config main_config n).chain_addr
        (chain_info services config main_config n).chain_id
      ≡ ok (hex n)
unfolding chain_info contract_of
hexes n = refl

apart :
    (a b : Network)
    → same_contract
        (contract_of services config main_config a)
        (contract_of services config main_config b)
      ≡ is_same a b
unfolding same_contract contract_of text_eq
apart arbitrum arbitrum = refl
apart avalanche avalanche = refl
apart binance binance = refl
apart ethereum ethereum = refl
apart injective injective = refl
apart optimism optimism = refl
apart polygon polygon = refl
apart _ _ = refl

-- The user's wallet deploys on a chain of the given number.
abbrev deployment : ℕ → Deployment
deployment number = record {
  wormhole = 1 ∷ zeros 19;
  token_bridge = 2 ∷ zeros 19;
  chain_id = number;
  wormhole_finality = 1;
  fee_precision = 1000;
  relayer_fee_percentage = 3;
}

abbrev state : ℕ → State
state number = deployed (text "user") (deployment number)

after_register_emitter_example :
    after_calls
      (λ key. key)
      (λ hex_text. hex_text)
      services
      (contract_of services config main_config arbitrum)
      ((Cli.register_emitter services config main_config []).1)
      (state 23)
    ≡ kept
        (state 23)
        (Governance.register_emitter (text "user") 6 (text "0x" ++ hex avalanche) (state 23))
unfolding chain_info sdk_chain text_eq
after_register_emitter_example =
    register_emitter-after_calls (λ key. key) (λ hex_text. hex_text) services config main_config hex
      hexes apart arbitrum (state 23) refl

-- A chain whose token bridge takes every transfer.
abbrev chain : Chain (Unit {0})
chain = record {
  balance_of = λ w token who. ok 0;
  decimals = λ w token. ok 6;
  transfer = λ token to n w. ok w;
  transfer_from = λ token from to n w. ok w;
  approve = λ token spender n w. ok w;
  message_fee = λ w. 0;
  parse_vm = λ w encoded. ok (record { emitter_chain_id = 6; payload = encoded });
  wrapped_asset = λ w number address. address;
  transfer_tokens_with_payload = λ o w. ok (0, w);
  complete_transfer_with_payload = λ encoded w. ok (encoded, w);
  parse_transfer_with_payload =
      λ w payload. ok (record { from_address = zeros 32; payload = payload });
}

-- No transfer gets as far as the arithmetic.
abbrev safe_math : SafeMath
safe_math = record {
  try_sub = λ a b. (true, 0);
  try_mul = λ a b. (true, 0);
  try_div = λ a b. (true, 0);
}

-- From Polygon to Arbitrum.
register_emitter-send_example :
    send_tokens_with_payload safe_math chain
      (3 ∷ zeros 19)
      (4 ∷ zeros 19)
      (after_calls
        (λ key. key)
        (λ hex_text. hex_text)
        services
        (contract_of services config main_config polygon)
        ((Cli.register_emitter services config main_config []).1)
        (state 5))
      (5 ∷ zeros 19)
      1_000_000
      23
      0
      (6 ∷ zeros 31)
      0
      tt
    ≢ ok (0, tt)
unfolding construct chain_info sdk_chain text_eq
register_emitter-send_example =
    register_emitter-send_tokens_with_payload (λ key. key) (λ hex_text. hex_text) services config
      main_config hex hexes apart safe_math chain (3 ∷ zeros 19) (4 ∷ zeros 19) (text "user")
      polygon (deployment 5) (state 5) (5 ∷ zeros 19) 1_000_000 23 0 (6 ∷ zeros 31) 0 tt (0, tt)
      refl refl refl

-- The configuration of the tests has another fee than this deployment.
abbrev cheap : State
cheap = record (state 5) { relayer_fee_percentage = 1 }

after_update_relayer_fee_example :
    after_calls
      (λ key. key)
      (λ hex_text. hex_text)
      services
      (contract_of services config main_config polygon)
      ((Cli.update_relayer_fee services config main_config []).1)
      cheap
    ≡ record cheap { relayer_fee_percentage = 3; fee_precision = 1_000 }
unfolding check_chains includes text_eq
after_update_relayer_fee_example =
    update_relayer_fee-after_calls (λ key. key) (λ hex_text. hex_text) services config main_config
      apart polygon cheap
