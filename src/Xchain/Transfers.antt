-- ===== src/Xchain/Transfers.antt =====
-- sendTokensWithPayload and redeemTransferWithPayload. The tokens, Wormhole's core contract and its
-- token bridge are external contracts: operations of a `Chain` on the rest of the chain's state
-- `W`. A revert undoes a transaction, so that it gives no state; no external call is taken to come
-- back to the contract, whose own state neither function writes. Events are not modelled.
pub mod Settled
pub mod Sent
pub mod Delivered
pub mod Ledger
pub mod Redeemable
pub mod Sendable
pub mod Custody
pub mod Tests
use nimble_xchain_contracts.Prelude.{
  ℕ, ◌+◌, ◌==◌, ltb, List, [], ◌∷◌, length, take, drop, Bool, true, false, ◌||◌, not, if◌then◌else◌,
}
use nimble_xchain_contracts.Js.{text, text_eq, Outcome, ok, throws, ◌>>=◌}
use nimble_xchain_contracts.Xchain.{Bytes, all_zero, require, State}
use nimble_xchain_contracts.Xchain.Governance.{◌>>◌}
use nimble_xchain_contracts.Xchain.Messages.{
  NimbleXchainMessage, encode_payload, decode_payload, to_bytes32, to_uint16,
}
use nimble_xchain_contracts.Xchain.Fees.{SafeMath, checked, calculate_relayer_fee, normalize_amount}

-- What `parseVM` and `parseTransferWithPayload` return, as far as it is read.
pub record Vm : Type 0 where
  pub emitter_chain_id : ℕ
  pub payload : Bytes

pub record TransferWithPayload : Type 0 where
  pub from_address : Bytes
  pub payload : Bytes

-- The transfer that the token bridge is asked for.
pub record Order : Type 0 where
  pub token : Bytes
  pub amount : ℕ
  pub target_chain : ℕ
  pub target_contract : Bytes
  pub batch_id : ℕ
  pub payload : Bytes
  pub fee : ℕ

-- The external contracts, called by this one.
pub record Chain (W : Type 0) : Type 0 where
  pub balance_of : W → (token holder : Bytes) → Outcome ℕ
  pub decimals : W → (token : Bytes) → Outcome ℕ
  pub transfer : (token to : Bytes) → ℕ → W → Outcome W
  pub transfer_from : (token from to : Bytes) → ℕ → W → Outcome W
  pub approve : (token spender : Bytes) → ℕ → W → Outcome W
  pub message_fee : W → ℕ
  pub parse_vm : W → Bytes → Outcome Vm
  pub wrapped_asset : W → ℕ → Bytes → Bytes
  pub transfer_tokens_with_payload : Order → W → Outcome (ℕ × W)
  pub complete_transfer_with_payload : Bytes → W → Outcome (Bytes × W)
  pub parse_transfer_with_payload : W → Bytes → Outcome TransferWithPayload

-- The last 20 of 32 bytes, where the first 12 are zero.
unfoldable pub bytes32_to_address : Bytes → Outcome Bytes
bytes32_to_address bs = do
  require (all_zero (take 12 bs)) (text "invalid EVM address")
  ok (drop 12 bs)

-- What `sendTokensWithPayload` asks for, with the amount that it received.
unfoldable pub order_of :
    State
    → (token : Bytes) (amount target_chain batch_id : ℕ) (target_recipient : Bytes) (fee : ℕ)
    → Order
order_of st token amount target_chain batch_id target_recipient fee = record {
  token = token;
  amount = amount;
  target_chain = target_chain;
  target_contract = st.registered_emitters target_chain;
  batch_id = batch_id;
  payload = encode_payload (record { payload_id = 1; target_recipient = target_recipient });
  fee = fee;
}

module _ {W : Type 0} (m : SafeMath) (chain : Chain W) (this sender : Bytes) (st : State) where
  open chain use {
    balance_of, decimals, transfer, transfer_from, approve, message_fee, parse_vm, wrapped_asset,
    transfer_tokens_with_payload, complete_transfer_with_payload, parse_transfer_with_payload,
  }

  -- `localAddress` of a token of another chain.
  abbrev pub attested : Bytes → Outcome Bytes
  attested address = do require (not (all_zero address)) (text "token not attested"); ok address

  unfoldable pub fetch_local_address_from_transfer_message : W → Bytes → Outcome Bytes
  unfolding bytes32_to_address to_bytes32 to_uint16
  fetch_local_address_from_transfer_message w payload = do
    source_address ← to_bytes32 payload 33
    token_chain ← to_uint16 payload 65
    (if not (token_chain == st.chain_id)
        then attested (wrapped_asset w token_chain source_address)
        else bytes32_to_address source_address)

  -- The balance after a transfer less the balance before.
  abbrev pub increase : W → Bytes → ℕ → Outcome ℕ
  increase w token before = do
    after ← balance_of w token this
    checked (m.try_sub after before) (text "Sub failed")

  unfoldable pub custody_tokens : Bytes → ℕ → W → Outcome (ℕ × W)
  custody_tokens token amount w = do
    before ← balance_of w token this
    w' ← transfer_from token sender this amount w
    received ← increase w' token before
    ok (received, w')

  -- What `sendTokensWithPayload` does once its checks have passed.
  unfoldable pub deposit_and_order :
      (token : Bytes) (amount target_chain batch_id : ℕ) (target_recipient : Bytes) (value : ℕ)
      → W
      → Outcome (ℕ × W)
  deposit_and_order token amount target_chain batch_id target_recipient value w = do
    custody ← custody_tokens token amount w
    w2 ← approve token st.token_bridge custody.0 custody.1
    transfer_tokens_with_payload
        (order_of st token custody.0 target_chain batch_id target_recipient value) w2

  unfoldable pub send_tokens_with_payload :
      (token : Bytes) (amount target_chain batch_id : ℕ) (target_recipient : Bytes) (value : ℕ)
      → W
      → Outcome (ℕ × W)
  send_tokens_with_payload token amount target_chain batch_id target_recipient value w = do
    require (not (all_zero token)) (text "token cannot be address(0)")
    require (ltb 0 amount) (text "amount must be greater than 0")
    require (not (all_zero target_recipient)) (text "targetRecipient cannot be bytes32(0)")
    token_decimals ← decimals w token
    normalized ← normalize_amount amount token_decimals
    require (ltb 0 normalized) (text "normalized amount must be > 0")
    let target_contract = st.registered_emitters target_chain
    require (not (all_zero target_contract)) (text "emitter not registered")
    require (value == message_fee w) (text "insufficient value")
    deposit_and_order token amount target_chain batch_id target_recipient value w

  -- The relayer's fee first, then the rest to the recipient.
  unfoldable pub pay_both : (token recipient : Bytes) (amount fee : ℕ) → W → Outcome W
  pay_both token recipient amount fee w = do
    w' ← transfer token sender fee w
    rest ← checked (m.try_sub amount fee) (text "Sub failed")
    transfer token recipient rest w'

  -- `if (relayerFee == 0 || msg.sender == recipient)`
  unfoldable pub pay_out : (token recipient : Bytes) (amount fee : ℕ) → W → Outcome W
  pay_out token recipient amount fee w =
      if fee == 0 || text_eq sender recipient
      then transfer token recipient amount w
      else pay_both token recipient amount fee w

  -- What follows `completeTransferWithPayload`, with the amount that it brought.
  unfoldable pub settle :
      (token : Bytes) (amount emitter_chain_id : ℕ) (payload : Bytes) → W → Outcome W
  settle token amount emitter_chain_id payload w = do
    parsed ← parse_transfer_with_payload w payload
    require (text_eq parsed.from_address (st.registered_emitters emitter_chain_id))
        (text "emitter not registered")
    message ← decode_payload parsed.payload
    fee ← calculate_relayer_fee m st amount
    recipient ← bytes32_to_address message.target_recipient
    pay_out token recipient amount fee w

  unfoldable pub redeem_transfer_with_payload : Bytes → W → Outcome W
  redeem_transfer_with_payload encoded_transfer_message w = do
    vm ← parse_vm w encoded_transfer_message
    token ← fetch_local_address_from_transfer_message w vm.payload
    before ← balance_of w token this
    completed ← complete_transfer_with_payload encoded_transfer_message w
    amount ← increase completed.1 token before
    settle token amount vm.emitter_chain_id completed.0 completed.1
