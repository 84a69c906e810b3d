-- ===== src/Cli.antt =====
-- evm/ts/cli/deltafi_xchain_cli.ts: the administrator's commands. What they do is a list of calls,
-- the newest first, whose answers may depend on all calls before.
pub mod Registered
pub mod Fees
pub mod Applied
mod Tests
use nimble_xchain_contracts.Prelude.{ℕ, String, List, [], ◌∷◌, ◌++◌, Option, none, some}
use nimble_xchain_contracts.Prelude.{Bool, true, false, ◌||◌, if◌then◌else◌}
use nimble_xchain_contracts.Js.{Text, text, text_eq, Outcome, ok, throws, error}
use nimble_xchain_contracts.Exec.{Exec, pure, lift, fail, catch, ◌>>=◌, ◌>>◌}
use nimble_xchain_contracts.Sdk
use nimble_xchain_contracts.Sdk.{SdkChain}
use nimble_xchain_contracts.Constants.{
  Network, arbitrum, avalanche, binance, ethereum, injective, optimism, polygon, ConfigJson,
  MainConfig, user_wallet_private_key, endpoint, network_id, relayer_fee_precision,
  relayer_fee_percentage,
}

-- SUPPORTED_CHAINS
abbrev pub supported_chains : List Network
supported_chains = arbitrum ∷ avalanche ∷ binance ∷ optimism ∷ polygon ∷ []

abbrev pub name_of : Network → Text
name_of arbitrum = text "Arbitrum"
name_of avalanche = text "Avalanche"
name_of binance = text "Binance"
name_of optimism = text "Optimism"
name_of polygon = text "Polygon"
name_of ethereum = text "Ethereum"
name_of injective = text "Injective"

unfoldable pub includes : Text → List Network → Bool
includes name [] = false
includes name (n ∷ ns) = text_eq (name_of n) name || includes name ns

unfoldable pub check_chains : Text → Bool
unfolding includes
check_chains name = includes name supported_chains

pub record Contract : Type 0 where
  pub address : Text
  pub signer_key : Text
  pub provider : Text

pub data Call : Type 0 where
  run : (command : Text) → Call
  register : (contract : Contract) (chain : ℕ) (emitter : Text) → Call
  update_fee : (contract : Contract) (percentage precision : ℕ) → Call

abbrev pub World : Type 0
World = List Call

pub record Receipt : Type 0 where
  pub transaction_hash : Text

pub record Services : Type 0 where
  pub answers : World → Call → Outcome Receipt
  pub try_native_to_hex_string : Text → ℕ → Outcome Text
  -- what the deployment's broadcast file of an EVM chain has
  pub contract_address : ℕ → Text
  pub chain_id : SdkChain → ℕ

-- The address and the Wormhole id of a chain, an entry of `chainInfo`.
pub record ChainInfo : Type 0 where
  pub chain_addr : Text
  pub chain_id : ℕ

-- `chain !== chainName`
abbrev is_same : Network → Network → Bool
is_same a b = text_eq (name_of a) (name_of b)

module _ (s : Services) where
  unfoldable pub ask : Call → Exec World Receipt
  ask call w = (s.answers w call, call ∷ w)

  -- `.then(tx => tx.wait()).catch(… return null)`
  unfoldable pub or_null : Call → Exec World (Option Receipt)
  unfolding ask
  or_null call = catch (do receipt ← ask call; pure (some receipt)) (λ e. pure none)

  -- The loop of `registerBridge`, which returns in its first round for another chain.
  unfoldable pub register_loop :
      Network → (Network → ChainInfo) → Contract → List Network → Exec World (Option Receipt)
  register_loop name chain_info contract [] = pure none
  register_loop name chain_info contract (chain ∷ chains) =
      let rest = register_loop name chain_info contract chains in
      if is_same chain name then rest else (do
        hex ←
            lift
              (s.try_native_to_hex_string (chain_info name).chain_addr (chain_info name).chain_id)
        or_null (register contract (chain_info name).chain_id (text "0x" ++ hex)))

  unfoldable pub register_bridge :
      Network → (Network → ChainInfo) → Contract → Exec World (Option Receipt)
  register_bridge name chain_info contract = register_loop name chain_info contract supported_chains

  module _ (config : ConfigJson) (main_config : MainConfig) where
    -- The contract of a chain, with the user's wallet.
    unfoldable pub contract_of : Network → Contract
    contract_of n = record {
      address = s.contract_address (network_id config main_config n);
      signer_key = user_wallet_private_key config main_config;
      provider = endpoint config main_config n;
    }

    sdk_chain : Network → SdkChain
    sdk_chain arbitrum = Sdk.arbitrum
    sdk_chain avalanche = Sdk.avax
    sdk_chain binance = Sdk.bsc
    sdk_chain optimism = Sdk.optimism
    sdk_chain polygon = Sdk.polygon
    sdk_chain ethereum = Sdk.eth
    sdk_chain injective = Sdk.injective

    unfoldable pub chain_info : Network → ChainInfo
    unfolding contract_of sdk_chain
    chain_info n = record {
      chain_addr = (contract_of n).address;
      chain_id = s.chain_id (sdk_chain n);
    }

    -- Avalanche's round is given the contract of Arbitrum.
    unfoldable pub register_emitter : Exec World (Unit {0})
    register_emitter = do
      register_bridge arbitrum chain_info (contract_of arbitrum)
      register_bridge avalanche chain_info (contract_of arbitrum)
      register_bridge binance chain_info (contract_of binance)
      register_bridge optimism chain_info (contract_of optimism)
      register_bridge polygon chain_info (contract_of polygon)
      pure tt

    unfoldable pub update_bridge_relayer_fee : Contract → Exec World (Unit {0})
    unfolding or_null
    update_bridge_relayer_fee contract = do
      or_null (
          update_fee contract (relayer_fee_percentage config main_config)
            (relayer_fee_precision config main_config))
      pure tt

    -- The five calls are not awaited: they are sent in this order.
    unfoldable pub update_relayer_fee : Exec World (Unit {0})
    update_relayer_fee = do
      update_bridge_relayer_fee (contract_of arbitrum)
      update_bridge_relayer_fee (contract_of avalanche)
      update_bridge_relayer_fee (contract_of binance)
      update_bridge_relayer_fee (contract_of optimism)
      update_bridge_relayer_fee (contract_of polygon)

    -- A command that fails makes `execSync` throw.
    unfoldable pub deploy_smart_contract : Exec World (Unit {0})
    unfolding ask
    deploy_smart_contract = do done ← ask (run (text "make bnb-polygon-mainnet-deploy")); pure tt

    -- Commander runs the action of the command that is named, and refuses others.
    unfoldable pub main : Text → Exec World (Unit {0})
    main command =
        if text_eq command (text "deploy")
        then deploy_smart_contract
        else if text_eq command (text "register-emitter")
        then register_emitter
        else if text_eq command (text "update-relayer-fee")
        then update_relayer_fee
        else fail (error (text "unknown command"))
