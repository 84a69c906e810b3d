-- ===== src/Injective.antt =====
-- injective/ts/api/xchain.ts and relay.ts: the client of Injective. Its two unresolved names,
-- nimbleXChain__factory and readnimbleXChainContractAddress, are taken as those of the EVM client.
-- Calls and wallets are those of the EVM client too; a call without overrides has none.
pub mod Alone
use nimble_xchain_contracts.Prelude.{ℕ, List, [], ◌∷◌, ◌++◌, Option, none, some}
use nimble_xchain_contracts.Js.{Text, text, Outcome, ok, throws}
use nimble_xchain_contracts.Exec.{Exec, pure, lift, catch, ◌>>=◌}
use nimble_xchain_contracts.Constants.{
  injective, ConfigJson, MainConfig, user_wallet_private_key, endpoint, wormhole_address,
  bridge_address, network_id,
}
use nimble_xchain_contracts.Evm.Networks.{Wallet, Contract, Info, info_named}
use nimble_xchain_contracts.Evm.Relay.{
  Bytes, Receipt, Call, decimals, send_tokens, signed_vaa, redeem, World, ask, is_some, Retry,
}
use nimble_xchain_contracts.Evm.Transfer.{Transfer}

-- `contract_address` is what the deployment's broadcast file of a chain has.
module _ (config : ConfigJson) (main_config : MainConfig) (contract_address : ℕ → Text) where
  injective_wallet : Wallet
  injective_wallet = record {
    private_key = user_wallet_private_key config main_config;
    provider = endpoint config main_config injective;
  }

  -- The relayer's wallet is the user's.
  unfoldable pub injective_info : Info
  unfolding injective_wallet
  injective_info = record {
    provider = endpoint config main_config injective;
    wallet = injective_wallet;
    relayer_wallet = injective_wallet;
    wormhole_address = wormhole_address config main_config injective;
    bridge_address = bridge_address config main_config injective;
    nimble_xchain = record {
      address = contract_address (network_id config main_config injective);
      signer = injective_wallet;
    };
    chain_id = network_id config main_config injective;
  }

  -- `localBuffer`
  unfoldable pub get_info : List (Text × Info)
  get_info = (text "Injective", injective_info) ∷ []

pub record RelayerInfo : Type 0 where
  pub target_nimble_xchain : Contract
  pub target_relayer_wallet : Wallet
  pub vaa_bytes : Bytes

abbrev pub redeem_call : RelayerInfo → Call
redeem_call info =
    redeem info.target_nimble_xchain.address info.target_relayer_wallet info.vaa_bytes none

pub record Services : Type 0 where
  pub coalesce_chain_id : Text → Outcome ℕ
  pub wormhole_chain_injective : ℕ
  pub decimals_of : World → Call → Outcome ℕ
  pub sends : World → Call → Outcome Receipt
  pub vaas : World → Call → Outcome Bytes
  pub redeems : World → Call → Outcome Receipt
  pub parse_units : Text → ℕ → Outcome ℕ
  pub try_native_to_hex_string : Text → ℕ → Outcome Text
  pub parse_sequence_from_log_eth : Receipt → Text → Outcome Text
  pub get_emitter_address_eth : Text → Text
  pub decode : Bytes → Text
  pub retry : Retry

module _ (s : Services) where
  unfoldable pub try_redeem : RelayerInfo → Exec World (Option Receipt)
  unfolding ask
  try_redeem info =
      catch (do receipt ← ask s.redeems (redeem_call info); pure (some receipt)) (λ e. pure none)

  unfoldable pub nimble_relay : RelayerInfo → Exec World (Option Receipt)
  nimble_relay info = s.retry.retry_async 20 is_some (try_redeem info)

  unfoldable pub send : Transfer → Info → ℕ → Exec World (Option Receipt)
  unfolding ask
  send t source target_chain = do
    places ← ask s.decimals_of (decimals t.src_token_address)
    amount ← lift (s.parse_units t.transfer_amount places)
    recipient ← lift (s.try_native_to_hex_string t.target_wallet_address target_chain)
    catch
        (do
          receipt ← ask s.sends (
              send_tokens source.nimble_xchain t.src_token_address amount target_chain 0
                (text "0x" ++ recipient) none)
          pure (some receipt))
        (λ e. pure none)

  abbrev pub result_of : Bytes → Option Receipt → Option (Text × Receipt)
  result_of vaa_bytes none = none
  result_of vaa_bytes (some receipt) = some (s.decode vaa_bytes, receipt)

  unfoldable pub after_send : Info → Info → Option Receipt → Exec World (Option (Text × Receipt))
  unfolding ask
  after_send source target none = pure none
  after_send source target (some receipt) = do
    sequence ← lift (s.parse_sequence_from_log_eth receipt source.wormhole_address)
    vaa_bytes ← ask s.vaas (
        signed_vaa s.wormhole_chain_injective (s.get_emitter_address_eth source.bridge_address)
          sequence)
    redeemed ← nimble_relay (record {
      target_nimble_xchain = target.nimble_xchain;
      target_relayer_wallet = target.relayer_wallet;
      vaa_bytes = vaa_bytes;
    })
    pure (result_of vaa_bytes redeemed)

  unfoldable pub transfer_token :
      List (Text × Info) → Transfer → Exec World (Option (Text × Receipt))
  transfer_token buffer t = do
    source ← lift (info_named buffer t.src_chain_name)
    target_chain ← lift (s.coalesce_chain_id t.target_chain_name)
    target ← lift (info_named buffer t.target_chain_name)
    sent ← send t source target_chain
    after_send source target sent
