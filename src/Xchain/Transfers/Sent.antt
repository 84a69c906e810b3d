-- ===== src/Xchain/Transfers/Sent.antt =====
-- What a transfer asks of the token bridge, and whom it pays on the other chain.
use nimble_xchain_contracts.Prelude.{ℕ, ◌+◌, ◌<◌, ◌==◌, ◌≡◌, ◌∙◌, ap, arith, ltb, false, not}
use nimble_xchain_contracts.Js.{text, ok, ok_injective, returned}
use nimble_xchain_contracts.Xchain.{Bytes, all_zero, require, State}
use nimble_xchain_contracts.Xchain.Messages.{encode_payload}
use nimble_xchain_contracts.Xchain.Fees.{SafeMath, Documented, checked, normalize_amount}
use nimble_xchain_contracts.Xchain.Fees.Checked.{checked-try_sub}
use nimble_xchain_contracts.Xchain.Transfers.{
  Chain, custody_tokens, deposit_and_order, send_tokens_with_payload, order_of,
}

-- What the checks of a transfer require.
pub record Passed {W : Type 0} (chain : Chain W) (st : State) (token : Bytes)
    (amount target_chain : ℕ) (recipient : Bytes) (value : ℕ) (w : W) : Type 0 where
  pub token_set : all_zero token ≡ false
  pub amount_set : 0 < amount
  pub recipient_set : all_zero recipient ≡ false
  pub token_decimals : ℕ
  pub decimals_read : chain.decimals w token ≡ ok token_decimals
  pub normalized : ℕ
  pub normalizes : normalize_amount amount token_decimals ≡ ok normalized
  pub above_dust : 0 < normalized
  pub registered : all_zero (st.registered_emitters target_chain) ≡ false
  pub fee_paid : value ≡ chain.message_fee w

pub checks-Passed :
    {W : Type 0} (m : SafeMath) (chain : Chain W) (this sender : Bytes) (st : State) (token : Bytes)
    (amount target_chain batch_id : ℕ) (recipient : Bytes) (value : ℕ) (w : W) (sent : ℕ × W)
    → send_tokens_with_payload m chain this sender st token amount target_chain batch_id recipient
        value w
      ≡ ok sent
    → Passed chain st token amount target_chain recipient value w
      × (deposit_and_order m chain this sender st token amount target_chain batch_id recipient value
            w
          ≡ ok sent)
unfolding send_tokens_with_payload
checks-Passed m chain this sender st token amount target_chain batch_id recipient value w sent
      gives =
    let (_, h1, token_set) = returned _ sent (require (not (all_zero token)) _) gives in
    let (_, h2, amount_set) = returned _ sent (require (ltb 0 amount) _) h1 in
    let (_, h3, recipient_set) = returned _ sent (require (not (all_zero recipient)) _) h2 in
    let (token_decimals, h4, decimals_read) = returned _ sent (chain.decimals w token) h3 in
    let (normalized, h4', normalizes) =
      returned _ sent (normalize_amount amount token_decimals) h4 in
    let (_, h5, above_dust) = returned _ sent (require (ltb 0 normalized) _) h4' in
    let (_, h6, registered) =
      returned _ sent (require (not (all_zero (st.registered_emitters target_chain))) _) h5 in
    let (_, h7, fee_paid) = returned _ sent (require (value == chain.message_fee w) _) h6 in
    (
      record {
        token_set = ground arith;
        amount_set = ground arith;
        recipient_set = ground arith;
        token_decimals = token_decimals;
        decimals_read = decimals_read;
        normalized = normalized;
        normalizes = normalizes;
        above_dust = ground arith;
        registered = ground arith;
        fee_paid = ground arith;
      },
      h7,
    )

-- What a transfer that succeeds did. `ledger` is the token's balances.
pub record Sending {W : Type 0} (chain : Chain W) (this sender : Bytes) (st : State)
    (ledger : W → Bytes → ℕ) (token : Bytes) (amount target_chain batch_id : ℕ) (recipient : Bytes)
    (value sequence : ℕ) (w w' : W) : Type 0 where
  pub passed : Passed chain st token amount target_chain recipient value w
  pub deposited : W
  pub deposit : chain.transfer_from token sender this amount w ≡ ok deposited
  pub received : ℕ
  pub grown : ledger deposited this ≡ ledger w this + received
  pub approved : W
  pub approval : chain.approve token st.token_bridge received deposited ≡ ok approved
  pub ordered :
      chain.transfer_tokens_with_payload
        (record {
          token = token;
          amount = received;
          target_chain = target_chain;
          target_contract = st.registered_emitters target_chain;
          batch_id = batch_id;
          payload = encode_payload (record { payload_id = 1; target_recipient = recipient });
          fee = value;
        })
        approved
      ≡ ok (sequence, w')

module _ {W : Type 0} (m : SafeMath) (laws : Documented m) (chain : Chain W) (this sender : Bytes)
    (st : State) (token : Bytes) (ledger : W → Bytes → ℕ)
    (counted : (w : W) (who : Bytes) → chain.balance_of w token who ≡ ok (ledger w who)) where
  custody_tokens_lem :
      (amount received : ℕ) (w w' : W)
      → custody_tokens m chain this sender st token amount w ≡ ok (received, w')
      → (chain.transfer_from token sender this amount w ≡ ok w')
        × (ledger w' this ≡ ledger w this + received)
  unfolding custody_tokens
  custody_tokens_lem amount received w w' gives =
      let h1 = rw (counted w this) at gives in
      let (deposited, h2, deposit) =
        returned _ (received, w') (chain.transfer_from token sender this amount w) h1 in
      let h3 = rw (counted deposited this) at h2 in
      let (difference, last, is_difference) =
        returned _ (received, w')
          (checked (m.try_sub (ledger deposited this) (ledger w this)) (text "Sub failed")) h3 in
      let (_, sum) = checked-try_sub m laws _ _ difference _ is_difference in
      let pair : ◌≡◌ {A = ℕ × W} (difference, deposited) (received, w') = ok_injective last in
      let is_w : deposited ≡ w' = ap (λ p. p.1) pair in
      let is_received : difference ≡ received = ap (λ p. p.0) pair in
      let at_w : ledger deposited this ≡ ledger w' this = ap (λ x. ledger x this) is_w in
      (deposit ∙ ap ok is_w, omega arith)

  -- Where the token's balances can be read, a transfer that succeeds passed all checks, took the
  -- tokens into the contract's custody, and asked the bridge to send exactly what arrived to the
  -- contract that is registered for the target chain.
  pub send_tokens_with_payload-Sending :
      (amount target_chain batch_id : ℕ) (recipient : Bytes) (value sequence : ℕ) (w w' : W)
      → send_tokens_with_payload m chain this sender st token amount target_chain batch_id recipient
          value w
        ≡ ok (sequence, w')
      → Sending chain this sender st ledger token amount target_chain batch_id recipient value
          sequence w w'
  unfolding deposit_and_order order_of
  send_tokens_with_payload-Sending amount target_chain batch_id recipient value sequence w w'
        gives =
      let (passed, h) =
        checks-Passed m chain this sender st token amount target_chain batch_id recipient value w
          (sequence, w') gives in
      let ((received, deposited), h1, custody) =
        returned _ (sequence, w') (custody_tokens m chain this sender st token amount w) h in
      let (approved, ordered, approval) =
        returned _ (sequence, w') (chain.approve token st.token_bridge received deposited) h1 in
      let (deposit, grown) = custody_tokens_lem amount received w deposited custody in
      record {
        passed = passed;
        deposited = deposited;
        deposit = deposit;
        received = received;
        grown = grown;
        approved = approved;
        approval = approval;
        ordered = ordered;
      }
