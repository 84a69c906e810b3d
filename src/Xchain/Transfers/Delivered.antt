-- ===== src/Xchain/Transfers/Delivered.antt =====
-- Whom a transfer of one contract pays when the other redeems it.
use nimble_xchain_contracts.Prelude.{ℕ, ◌≡◌, refl, sym, ◌∙◌, ap, true, length, take, drop}
use nimble_xchain_contracts.Js.{text, ok, ok_injective, returned}
use nimble_xchain_contracts.Xchain.{required, Bytes, all_zero, require, State}
use nimble_xchain_contracts.Xchain.Messages.{NimbleXchainMessage, decode_payload}
use nimble_xchain_contracts.Xchain.Messages.RoundTrip.{decode_payload-encode_payload}
use nimble_xchain_contracts.Xchain.Fees.{SafeMath}
use nimble_xchain_contracts.Xchain.Transfers.{Vm, Chain, bytes32_to_address, order_of}
use nimble_xchain_contracts.Xchain.Transfers.Settled.{Redemption, Paid, part_of}

address_found :
    (recipient address : Bytes)
    → bytes32_to_address recipient ≡ ok address
    → (all_zero (take 12 recipient) ≡ true) × (drop 12 recipient ≡ address)
unfolding bytes32_to_address
address_found recipient address h =
    let (_, last, zero_first) =
      returned _ address (require (all_zero (take 12 recipient)) (text "invalid EVM address")) h in
    (required _ _ zero_first, ok_injective last)

-- What one contract was asked to send to a recipient of 32 bytes, and the other redeems with the
-- payload as it was sent, is paid to the recipient's last 20 bytes, and the first 12 are zero.
pub order_of-Paid :
    {W : Type 0} (m : SafeMath) (chain : Chain W) (this sender : Bytes) (source target : State)
    (ledger : W → Bytes → ℕ) (encoded : Bytes) (vm : Vm) (w w' : W) (token : Bytes)
    (amount target_chain batch_id : ℕ) (recipient : Bytes) (fee : ℕ)
    → length recipient ≡ 32
    → (r : Redemption m chain this sender target ledger encoded vm w w')
    → r.transfer.payload
      ≡ (order_of source token amount target_chain batch_id recipient fee).payload
    → (all_zero (take 12 recipient) ≡ true)
      × Paid ledger this sender
          (drop 12 recipient)
          r.amount
          (part_of sender (drop 12 recipient) r.fee)
          (r.completed.1)
          w'
unfolding order_of
order_of-Paid m chain this sender source target ledger encoded vm w w' token amount target_chain
      batch_id recipient fee long r same =
    let sent : NimbleXchainMessage = record { payload_id = 1; target_recipient = recipient } in
    let decodes : decode_payload r.transfer.payload ≡ ok sent =
      rw same (decode_payload-encode_payload sent refl long) in
    let is_sent : r.message ≡ sent = ok_injective (sym r.decoded ∙ decodes) in
    let addressed : bytes32_to_address recipient ≡ ok r.recipient =
      sym (ap (λ x. bytes32_to_address x.target_recipient) is_sent) ∙ r.addressed in
    let (zeros_first, found) = address_found recipient r.recipient addressed in
    (zeros_first, rw found r.paid)
