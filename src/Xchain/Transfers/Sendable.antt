-- ===== src/Xchain/Transfers/Sendable.antt =====
-- When a transfer goes through.
use nimble_xchain_contracts.Prelude.{ℕ, ◌+◌, ◌==◌, ◌≡◌, ◌↔◌, refl, ◌∙◌, arith, ltb, true}
use nimble_xchain_contracts.Js.{ok}
use nimble_xchain_contracts.Xchain.{Bytes, State}
use nimble_xchain_contracts.Xchain.Fees.{SafeMath, Documented}
use nimble_xchain_contracts.Xchain.Transfers.{
  Chain, order_of, custody_tokens, deposit_and_order, send_tokens_with_payload,
}
use nimble_xchain_contracts.Xchain.Transfers.Redeemable.{checked_difference}
use nimble_xchain_contracts.Xchain.Transfers.Sent.{
  Passed, Sending, send_tokens_with_payload-Sending,
}

module _ {W : Type 0} (m : SafeMath) (laws : Documented m) (chain : Chain W) (this sender : Bytes)
    (st : State) (token : Bytes) (ledger : W → Bytes → ℕ)
    (counted : (w : W) (who : Bytes) → chain.balance_of w token who ≡ ok (ledger w who)) where
  custody_tokens_succeeds :
      (amount received : ℕ) (w w' : W)
      → chain.transfer_from token sender this amount w ≡ ok w'
      → ledger w' this ≡ ledger w this + received
      → custody_tokens m chain this sender st token amount w ≡ ok (received, w')
  unfolding custody_tokens
  custody_tokens_succeeds amount received w w' deposit grown =
      rw
        (
          counted w this,
          deposit,
          counted w' this,
          checked_difference m laws (ledger w' this) (ledger w this) received grown,
        )
        refl

  Passed-sends :
      (amount target_chain batch_id : ℕ) (recipient : Bytes) (value : ℕ) (w : W)
      → Passed chain st token amount target_chain recipient value w
      → send_tokens_with_payload m chain this sender st token amount target_chain batch_id recipient
          value w
        ≡ deposit_and_order m chain this sender st token amount target_chain batch_id recipient
            value w
  unfolding send_tokens_with_payload
  Passed-sends amount target_chain batch_id recipient value w p =
      let some_amount : ltb 0 amount ≡ true = ground (arith, p.amount_set) in
      let some_normalized : ltb 0 p.normalized ≡ true = ground (arith, p.above_dust) in
      let paid : (value == chain.message_fee w) ≡ true = ground (arith, p.fee_paid) in
      rw
        (
          p.token_set, some_amount, p.recipient_set, p.decimals_read, p.normalizes, some_normalized,
          p.registered, paid,
        )
        refl

  -- With SafeMath as documented and where the token's balances can be read, a transfer succeeds
  -- with a sequence number and a state exactly where all checks pass, the transfer into the
  -- contract's custody brings some amount, perhaps none, and the bridge takes the order of
  -- exactly what arrived, for the target chain and the contract registered for it, with the
  -- encoded message number 1 for the recipient and the value paid, and answers with this number
  -- and state.
  pub send_tokens_with_payload_iff :
      (amount target_chain batch_id : ℕ) (recipient : Bytes) (value sequence : ℕ) (w w' : W)
      → (send_tokens_with_payload m chain this sender st token amount target_chain batch_id
            recipient value w
          ≡ ok (sequence, w'))
        ↔ Sending chain this sender st ledger token amount target_chain batch_id recipient value
            sequence w w'
  unfolding deposit_and_order order_of
  send_tokens_with_payload_iff amount target_chain batch_id recipient value sequence w w' = (
    send_tokens_with_payload-Sending m laws chain this sender st token ledger counted amount
        target_chain batch_id recipient value sequence w w',
    λ s.
        Passed-sends amount target_chain batch_id recipient value w s.passed
        ∙ rw (custody_tokens_succeeds amount s.received w s.deposited s.deposit s.grown, s.approval)
            s.ordered,
  )
