-- ===== src/Constants.antt =====
-- constants/constants.ts: what the clients take from the two configuration files. The files are
-- records of what is read from them: by the name of a chain, as config/mainnet-test/config.json
-- has it, for the addresses, and the deployment's own mainnet_config.json for keys and endpoints.
use nimble_xchain_contracts.Prelude.{ℕ, List}
use nimble_xchain_contracts.Js.{Text}

-- The chains' names in the configuration.
pub data Network : Type 0 where
  arbitrum avalanche binance ethereum injective optimism polygon : Network

pub record ConfigJson : Type 0 where
  pub wormhole_rpc_host : List Text
  pub usdc_address : Network → Text
  pub wormhole_core_contract_address : Network → Text
  pub wormhole_token_bridge_contract_address : Network → Text
  pub chain_id : Network → ℕ

-- The two fees are what `Number` makes of the file's values.
pub record MainConfig : Type 0 where
  pub user_wallet_private_key : Text
  pub relayer_wallet_private_key : Text
  pub end_points : Network → Text
  pub relayer_fee_precision : ℕ
  pub relayer_fee_percentage : ℕ

module _ (config : ConfigJson) (main_config : MainConfig) where
  abbrev pub wormhole_rpc_hosts : List Text
  wormhole_rpc_hosts = config.wormhole_rpc_host

  -- The on-chain tokens of Arbitrum, Avalanche, Binance, Injective, Optimism and Polygon.
  abbrev pub usdc_address : Network → Text
  usdc_address = config.usdc_address

  abbrev pub user_wallet_private_key : Text
  user_wallet_private_key = main_config.user_wallet_private_key

  abbrev pub relayer_wallet_private_key : Text
  relayer_wallet_private_key = main_config.relayer_wallet_private_key

  -- ARBITRUM_ENDPOINT to POLYGON_ENDPOINT
  abbrev pub endpoint : Network → Text
  endpoint = main_config.end_points

  -- ARBITRUM_WORMHOLE_ADDRESS to POLYGON_WORMHOLE_ADDRESS
  abbrev pub wormhole_address : Network → Text
  wormhole_address = config.wormhole_core_contract_address

  -- ARBITRUM_BRIDGE_ADDRESS to POLYGON_BRIDGE_ADDRESS
  abbrev pub bridge_address : Network → Text
  bridge_address = config.wormhole_token_bridge_contract_address

  -- ARBITRUM_CHAIN_ID to POLYGON_CHAIN_ID
  abbrev pub network_id : Network → ℕ
  network_id = config.chain_id

  abbrev pub relayer_fee_precision : ℕ
  relayer_fee_precision = main_config.relayer_fee_precision

  abbrev pub relayer_fee_percentage : ℕ
  relayer_fee_percentage = main_config.relayer_fee_percentage
