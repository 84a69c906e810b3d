-- ===== src/Cli/Tests.antt =====
-- The administrator's commands on a small deployment.
use nimble_xchain_contracts.Prelude.{ℕ, [], ◌∷◌, ◌≡◌, refl, false}
use nimble_xchain_contracts.Js.{text, text_eq, ok}
use nimble_xchain_contracts.Sdk.{documented}
use nimble_xchain_contracts.Constants.{
  Network, arbitrum, avalanche, binance, ethereum, injective, optimism, polygon, ConfigJson,
  MainConfig,
}
use nimble_xchain_contracts.Cli.{Services, check_chains}

abbrev pub network_number : Network → ℕ
network_number arbitrum = 42_161
network_number avalanche = 43_114
network_number binance = 56
network_number ethereum = 1
network_number injective = 888
network_number optimism = 10
network_number polygon = 137

abbrev pub config : ConfigJson
config = record {
  wormhole_rpc_host = [];
  usdc_address = λ n. [];
  wormhole_core_contract_address = λ n. [];
  wormhole_token_bridge_contract_address = λ n. [];
  chain_id = network_number;
}

abbrev pub main_config : MainConfig
main_config = record {
  user_wallet_private_key = text "user";
  relayer_wallet_private_key = text "relayer";
  end_points = λ n. network_number n ∷ [];
  relayer_fee_precision = 1_000;
  relayer_fee_percentage = 3;
}

-- Contracts at one-character addresses, and a chain that takes every call.
abbrev pub services : Services
services = record {
  answers = λ w call. ok (record { transaction_hash = text "0x1" });
  try_native_to_hex_string = λ address chain. ok address;
  contract_address = λ n. n ∷ [];
  chain_id = documented;
}

-- Ethereum is not supported.
check_chains_test : check_chains (text "Ethereum") ≡ false
unfolding check_chains text_eq
check_chains_test = refl
