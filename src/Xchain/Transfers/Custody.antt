-- ===== src/Xchain/Transfers/Custody.antt =====
-- What the contract holds of a token is not spent by the transfers of others.
use nimble_xchain_contracts.Prelude.{ℕ, ◌+◌, ◌≤◌, ◌≡◌, arith}
use nimble_xchain_contracts.Js.{text_eq_refl, ok}
use nimble_xchain_contracts.Xchain.{Bytes, State}
use nimble_xchain_contracts.Xchain.Fees.{SafeMath, Documented}
use nimble_xchain_contracts.Xchain.Transfers.{
  Vm, Order, Chain, order_of, fetch_local_address_from_transfer_message, send_tokens_with_payload,
  redeem_transfer_with_payload,
}
use nimble_xchain_contracts.Xchain.Transfers.Settled.{
  PlainToken, redeem_transfer_with_payload-Redemption,
}
use nimble_xchain_contracts.Xchain.Transfers.Sent.{send_tokens_with_payload-Sending}

-- An approval moves nothing, and the token bridge takes the order's amount at most.
pub record Takes {W : Type 0} (chain : Chain W) (this token : Bytes) (ledger : W → Bytes → ℕ)
    : Type 0 where
  pub approves :
      (spender : Bytes) (n : ℕ) (w w' : W)
      → chain.approve token spender n w ≡ ok w'
      → ledger w' this ≡ ledger w this
  pub takes :
      (o : Order) (w w' : W) (sequence : ℕ)
      → chain.transfer_tokens_with_payload o w ≡ ok (sequence, w')
      → ledger w this ≤ ledger w' this + o.amount

module _ {W : Type 0} (m : SafeMath) (chain : Chain W) (this token : Bytes)
    (ledger : W → Bytes → ℕ) where
  -- Transactions of anyone with the token, under any state of the contract, and what happens
  -- between them.
  pub data Run (w : W) : W → Type 0 where
    starts : Run w w
    sends :
        {w1 w2 : W} (sender : Bytes) (st : State) (amount target_chain batch_id : ℕ)
        (recipient : Bytes) (value sequence : ℕ)
        → Run w w1
        → send_tokens_with_payload m chain this sender st token amount target_chain batch_id
            recipient value w1
          ≡ ok (sequence, w2)
        → Run w w2
    redeems :
        {w1 w2 : W} (sender : Bytes) (st : State) (encoded : Bytes) (vm : Vm)
        → Run w w1
        → chain.parse_vm w1 encoded ≡ ok vm
        → fetch_local_address_from_transfer_message m chain this sender st w1 vm.payload ≡ ok token
        → redeem_transfer_with_payload m chain this sender st encoded w1 ≡ ok w2
        → Run w w2
    others : {w1 w2 : W} → Run w w1 → ledger w1 this ≤ ledger w2 this → Run w w2

  module _ (laws : Documented m) (plain : PlainToken chain this token ledger)
      (takes : Takes chain this token ledger) where
    sends_kept :
        (sender : Bytes) (st : State) (amount target_chain batch_id : ℕ) (recipient : Bytes)
        (value sequence : ℕ) (w w' : W)
        → send_tokens_with_payload m chain this sender st token amount target_chain batch_id
            recipient value w
          ≡ ok (sequence, w')
        → ledger w this ≤ ledger w' this
    unfolding order_of
    sends_kept sender st amount target_chain batch_id recipient value sequence w w' gives =
        let s =
          send_tokens_with_payload-Sending m laws chain this sender st token ledger plain.counted
            amount target_chain batch_id recipient value sequence w w' gives in
        let taken = takes.takes _ s.approved w' sequence s.ordered in
        let approved =
          takes.approves st.token_bridge s.received s.deposited s.approved s.approval in
        omega (arith, taken, approved, s.grown)

    redeems_kept :
        (sender : Bytes) (st : State) (encoded : Bytes) (vm : Vm) (w w' : W)
        → chain.parse_vm w encoded ≡ ok vm
        → fetch_local_address_from_transfer_message m chain this sender st w vm.payload ≡ ok token
        → redeem_transfer_with_payload m chain this sender st encoded w ≡ ok w'
        → ledger w this ≤ ledger w' this
    redeems_kept sender st encoded vm w w' is_vm is_token gives =
        let r =
          redeem_transfer_with_payload-Redemption m laws chain this sender st token ledger plain
            encoded vm w w' is_vm is_token gives in
        let moved = r.paid.moves this in
        let own = text_eq_refl this in ground (arith, moved, own, r.received)

    -- With SafeMath as documented, a token whose transfers move the whole amount, and a token
    -- bridge that takes an order's amount at most and whose approvals move nothing, no transfers
    -- and redemptions of the token, by anyone and in any number, under any state of the contract
    -- and with anything between them that takes nothing from the contract, leave the contract
    -- with less of the token than it had.
    pub Run-kept : {w w' : W} → Run w w' → ledger w this ≤ ledger w' this
    Run-kept starts = omega arith
    Run-kept
          (sends {w1} {w2} sender st amount target_chain batch_id recipient value sequence r
            gives) =
        omega (
          arith,
          Run-kept r,
          sends_kept sender st amount target_chain batch_id recipient value sequence w1 w2 gives,
        )
    Run-kept (redeems {w1} {w2} sender st encoded vm r is_vm is_token gives) =
        omega (arith, Run-kept r, redeems_kept sender st encoded vm w1 w2 is_vm is_token gives)
    Run-kept (others r kept) = omega (arith, Run-kept r, kept)
