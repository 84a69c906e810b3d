-- ===== src/Evm/Transfer.antt =====
-- evm/ts/api/xchain.ts: `getRelayerFee`, `getOverride`, `transferToken` and `redeemToken`.
pub mod Fee
pub mod Sending
pub mod Steps
use nimble_xchain_contracts.Prelude.{ℕ, zero, suc, ◌+◌, ◌*◌, ◌^◌, String, List, [], ◌∷◌, ◌++◌}
use nimble_xchain_contracts.Prelude.{Option, none, some, Bool, ◌||◌, ltb, if◌then◌else◌}
use nimble_xchain_contracts.Js.{Text, text, text_eq, Error, error, Outcome, ok, throws}
use nimble_xchain_contracts.Exec.{Exec, pure, lift, catch, ◌>>=◌}
use nimble_xchain_contracts.Sdk.{SdkChain}
use nimble_xchain_contracts.Evm.Networks.{Info, info_named}
use nimble_xchain_contracts.Evm.Relay.{
  Bytes, Receipt, Fees, Override, Call, decimals, send_tokens, base_fee, signed_vaa, fee_precision,
  fee_percentage, World, ask, RelayerInfo, Retry, nimble_relay,
}

-- What the API uses of the SDKs and the chains. Numbers of JavaScript that need not be whole are an
-- abstract type with the two operations of `getRelayerFee`.
pub record Services : Type 1 where
  pub Number : Type 0
  pub times : Number → Number → Number
  pub over : Number → Number → Number
  pub decimals_of : World → Call → Outcome ℕ
  pub sends : World → Call → Outcome Receipt
  pub base_fees : World → Call → Outcome ℕ
  pub vaas : World → Call → Outcome Bytes
  pub redeems : World → Call → Outcome Receipt
  pub fee_numbers : World → Call → Outcome Number
  pub parse_units : Text → ℕ → Outcome ℕ
  pub try_native_to_hex_string : Text → ℕ → Outcome Text
  pub parse_sequence_from_log_eth : Receipt → Text → Outcome Text
  pub get_emitter_address_eth : Text → Text
  pub decode : Bytes → Text
  pub encode : Text → Bytes
  pub retry : Retry

-- `BigNumber.toNumber` of ethers: an error above the safe integers.
unfoldable pub to_number : ℕ → Outcome ℕ
to_number n = if ltb n (2 ^ 53) then ok n else throws (error (text "overflow"))

-- 31 gwei
abbrev pub max_priority_fee : ℕ
max_priority_fee = 31_000_000_000

unfoldable pub fees_of : ℕ → Outcome Override
unfolding to_number
fees_of base = elim (to_number (base * 2)) [
  | throws e ↦ throws e
  | ok max_fee ↦
      ok (some (record { max_fee_per_gas = max_fee; max_priority_fee_per_gas = max_priority_fee }))
]

unfoldable pub needs_override : Text → Bool
needs_override name = text_eq name (text "Polygon") || text_eq name (text "Avalanche")

-- What `transferToken` and `redeemToken` are called with.
pub record Transfer : Type 0 where
  pub src_chain_name : Text
  pub src_token_address : Text
  pub target_chain_name : Text
  pub transfer_amount : Text
  pub target_wallet_address : Text

module _ (s : Services) (buffer : List (Text × Info)) where
  unfoldable pub get_override : Text → Exec World Override
  unfolding fees_of ask
  get_override name =
      if needs_override name
      then (do
        info ← lift (info_named buffer name)
        base ← ask s.base_fees (base_fee info.provider)
        lift (fees_of base))
      else pure none

  unfoldable pub get_relayer_fee : Text → s.Number → Exec World s.Number
  unfolding ask
  get_relayer_fee name amount = do
    info ← lift (info_named buffer name)
    precision ← ask s.fee_numbers (fee_precision info.nimble_xchain)
    override ← get_override name
    percentage ← ask s.fee_numbers (fee_percentage info.nimble_xchain override)
    pure (s.over (s.times amount percentage) precision)

  -- The amount in the token's units, and the sending transaction; its failure is null.
  unfoldable pub send : Transfer → Info → Info → Exec World (Option Receipt)
  unfolding ask
  send t source target = do
    places ← ask s.decimals_of (decimals t.src_token_address)
    amount ← lift (s.parse_units t.transfer_amount places)
    recipient ← lift (s.try_native_to_hex_string t.target_wallet_address target.chain_id)
    override ← get_override t.src_chain_name
    catch
        (do
          receipt ← ask s.sends (
              send_tokens source.nimble_xchain t.src_token_address amount target.chain_id 0
                (text "0x" ++ recipient) override)
          pure (some receipt))
        (λ e. pure none)

  -- A redemption with the override of the target chain.
  unfoldable pub redeem_on : Text → Info → Bytes → Exec World (Option Receipt)
  redeem_on name target vaa_bytes = do
    override ← get_override name
    nimble_relay s.retry s.redeems (record {
      target_nimble_xchain = target.nimble_xchain;
      target_relayer_wallet = target.relayer_wallet;
      vaa_bytes = vaa_bytes;
      override = override;
    })

  abbrev pub result_of : Bytes → Option Receipt → Option (Text × Receipt)
  result_of vaa_bytes none = none
  result_of vaa_bytes (some receipt) = some (s.decode vaa_bytes, receipt)

  abbrev pub vaa_call : Info → Text → Call
  vaa_call source sequence =
      signed_vaa source.chain_id (s.get_emitter_address_eth source.bridge_address) sequence

  -- The signed message of a sending.
  unfoldable pub fetch_vaa : Info → Receipt → Exec World Bytes
  unfolding ask
  fetch_vaa source receipt = do
    sequence ← lift (s.parse_sequence_from_log_eth receipt source.wormhole_address)
    ask s.vaas (vaa_call source sequence)

  unfoldable pub finish : Transfer → Info → Bytes → Exec World (Option (Text × Receipt))
  finish t target vaa_bytes = do
    redeemed ← redeem_on t.target_chain_name target vaa_bytes
    pure (result_of vaa_bytes redeemed)

  -- What follows the sending.
  unfoldable pub after_send :
      Transfer → Info → Info → Option Receipt → Exec World (Option (Text × Receipt))
  after_send t source target none = pure none
  after_send t source target (some receipt) = do
    vaa_bytes ← fetch_vaa source receipt
    finish t target vaa_bytes

  unfoldable pub transfer_token : Transfer → Exec World (Option (Text × Receipt))
  transfer_token t = do
    source ← lift (info_named buffer t.src_chain_name)
    target ← lift (info_named buffer t.target_chain_name)
    sent ← send t source target
    after_send t source target sent

  unfoldable pub redeem_token : Transfer → Text → Exec World (Option Receipt)
  redeem_token t decoded_vaa = do
    target ← lift (info_named buffer t.target_chain_name)
    redeem_on t.target_chain_name target (s.encode decoded_vaa)
