-- ===== src/Evm/Networks.antt =====
-- `getInfo` of evm/ts/api/xchain.ts: what the client knows of each chain.
use nimble_xchain_contracts.Prelude.{ℕ, List, [], ◌∷◌, Option, none, some}
use nimble_xchain_contracts.Js.{Text, text, Outcome, ok, throws, type_error}
use nimble_xchain_contracts.Js.Object.{own, object_of}
use nimble_xchain_contracts.Sdk
use nimble_xchain_contracts.Sdk.{SdkChain}
use nimble_xchain_contracts.Constants.{
  Network, arbitrum, avalanche, binance, optimism, polygon, ConfigJson, MainConfig,
  user_wallet_private_key, relayer_wallet_private_key, endpoint, wormhole_address, bridge_address,
  network_id,
}

-- A wallet is its key and the endpoint of its provider.
pub record Wallet : Type 0 where
  pub private_key : Text
  pub provider : Text

-- A contract at an address, with the wallet that signs for it.
pub record Contract : Type 0 where
  pub address : Text
  pub signer : Wallet

pub record Info : Type 0 where
  pub provider : Text
  pub wallet : Wallet
  pub relayer_wallet : Wallet
  pub wormhole_address : Text
  pub bridge_address : Text
  pub nimble_xchain : Contract
  pub chain_id : ℕ

-- `contract_address` is what the deployment's broadcast file of an EVM chain has.
module _ (config : ConfigJson) (main_config : MainConfig) (chain_id : SdkChain → ℕ)
    (contract_address : ℕ → Text) where
  user_wallet : Network → Wallet
  user_wallet n = record {
    private_key = user_wallet_private_key config main_config;
    provider = endpoint config main_config n;
  }

  relayer_wallet : Network → Wallet
  relayer_wallet n = record {
    private_key = relayer_wallet_private_key config main_config;
    provider = endpoint config main_config n;
  }

  -- The five entries of `getInfo` follow one pattern, over the network and the SDK's chain id.
  unfoldable pub info_of : Network → SdkChain → Info
  unfolding user_wallet relayer_wallet
  info_of n c = record {
    provider = endpoint config main_config n;
    wallet = user_wallet n;
    relayer_wallet = relayer_wallet n;
    wormhole_address = wormhole_address config main_config n;
    bridge_address = bridge_address config main_config n;
    nimble_xchain = record {
      address = contract_address (network_id config main_config n);
      signer = user_wallet n;
    };
    chain_id = chain_id c;
  }

  -- `localBuffer`
  unfoldable pub get_info : List (Text × Info)
  unfolding info_of
  get_info = object_of (
      (text "Arbitrum", info_of arbitrum Sdk.arbitrum)
      ∷ (text "Avalanche", info_of avalanche Sdk.avax)
      ∷ (text "Binance", info_of binance Sdk.bsc)
      ∷ (text "Optimism", info_of optimism Sdk.optimism)
      ∷ (text "Polygon", info_of polygon Sdk.polygon)
      ∷ [])

abbrev pub or_type_error : Option Info → Outcome Info
or_type_error none = throws type_error
or_type_error (some i) = ok i

-- `localBuffer[chainName].x` reads a field of undefined for a name that is not there. Names that
-- every object inherits are left out.
unfoldable pub info_named : List (Text × Info) → Text → Outcome Info
info_named buffer name = or_type_error (own name buffer)
