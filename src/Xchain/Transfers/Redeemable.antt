-- ===== src/Xchain/Transfers/Redeemable.antt =====
-- When a redemption goes through.
use nimble_xchain_contracts.Prelude.{
  ℕ, ◌+◌, ◌-◌, ◌≤◌, ◌==◌, ◌≡◌, ◌↔◌, refl, Bool-cases, inl, inr, arith, true, ◌||◌,
}
use nimble_xchain_contracts.Js.{text, text_eq, text_eq_refl, ok}
use nimble_xchain_contracts.Xchain.{Bytes, State}
use nimble_xchain_contracts.Xchain.Messages.{NimbleXchainMessage, decode_payload}
use nimble_xchain_contracts.Xchain.Fees.{SafeMath, Documented, checked, calculate_relayer_fee}
use nimble_xchain_contracts.Xchain.Transfers.{
  Vm, TransferWithPayload, Chain, bytes32_to_address, fetch_local_address_from_transfer_message,
  pay_both, pay_out, settle, redeem_transfer_with_payload,
}
use nimble_xchain_contracts.Xchain.Transfers.Settled.{
  PlainToken, part_of, redeem_transfer_with_payload-Redemption,
}

-- A token that can be moved as far as the contract has it.
abbrev pub Payable :
    {W : Type 0} (chain : Chain W) (this token : Bytes) (ledger : W → Bytes → ℕ) → Type 0
Payable {W} chain this token ledger =
    (to : Bytes) (n : ℕ) (w : W)
    → n ≤ ledger w this
    → (w' : W) × (chain.transfer token to n w ≡ ok w')

-- What a redemption needs of the bridge, the message and the fee.
pub record Ready {W : Type 0} (m : SafeMath) (chain : Chain W) (this sender : Bytes) (st : State)
    (ledger : W → Bytes → ℕ) (encoded : Bytes) (vm : Vm) (w : W) : Type 0 where
  pub completed : Bytes × W
  pub brought : chain.complete_transfer_with_payload encoded w ≡ ok completed
  pub amount : ℕ
  pub received : ledger (completed.1) this ≡ ledger w this + amount
  pub transfer : TransferWithPayload
  pub parsed : chain.parse_transfer_with_payload (completed.1) (completed.0) ≡ ok transfer
  pub registered : transfer.from_address ≡ st.registered_emitters vm.emitter_chain_id
  pub message : NimbleXchainMessage
  pub decoded : decode_payload transfer.payload ≡ ok message
  pub recipient : Bytes
  pub addressed : bytes32_to_address message.target_recipient ≡ ok recipient
  pub fee : ℕ
  pub computed : calculate_relayer_fee m st amount ≡ ok fee
  pub within : part_of sender recipient fee ≤ amount

pub checked_difference :
    (m : SafeMath) (laws : Documented m) (a b n : ℕ)
    → a ≡ b + n
    → checked (m.try_sub a b) (text "Sub failed") ≡ ok n
checked_difference m laws a b n sum =
    let exact : a - b ≡ n = omega arith in rw (laws.sub a b (omega arith), exact) refl

module _ {W : Type 0} (m : SafeMath) (laws : Documented m) (chain : Chain W) (this sender : Bytes)
    (st : State) (token : Bytes) (ledger : W → Bytes → ℕ)
    (plain : PlainToken chain this token ledger) (payable : Payable chain this token ledger) where
  pay_both_succeeds :
      (recipient : Bytes) (amount fee : ℕ) (w : W)
      → fee ≤ amount
      → amount ≤ ledger w this
      → (w' : W) × (pay_both m chain this sender st token recipient amount fee w ≡ ok w')
  unfolding pay_both
  pay_both_succeeds recipient amount fee w within enough =
      let (w1, first) = payable sender fee w (omega arith) in
      let moved = plain.moved sender fee w w1 first this in
      let left : amount - fee ≤ ledger w1 this = ground (arith, text_eq_refl this) in
      let (w', last) = payable recipient (amount - fee) w1 left in
      (w', rw (first, checked_difference m laws amount fee (amount - fee) (omega arith)) last)

  pay_out_succeeds :
      (recipient : Bytes) (amount fee : ℕ) (w : W)
      → part_of sender recipient fee ≤ amount
      → amount ≤ ledger w this
      → (w' : W) × (pay_out m chain this sender st token recipient amount fee w ≡ ok w')
  unfolding pay_out
  pay_out_succeeds recipient amount fee w within enough =
      let (all, whole) = payable recipient amount w enough in
      elim (Bool-cases (fee == 0 || text_eq sender recipient)) [
        | inl unshared ↦ (all, rw unshared whole)
        | inr shared ↦
            let below : fee ≤ amount = ground arith in
            let (w', pays) = pay_both_succeeds recipient amount fee w below enough in
            (w', rw shared pays)
      ]

  pub Ready-redeems :
      (encoded : Bytes) (vm : Vm) (w : W)
      → chain.parse_vm w encoded ≡ ok vm
      → fetch_local_address_from_transfer_message m chain this sender st w vm.payload ≡ ok token
      → Ready m chain this sender st ledger encoded vm w
      → (w' : W) × (redeem_transfer_with_payload m chain this sender st encoded w ≡ ok w')
  unfolding redeem_transfer_with_payload settle
  Ready-redeems encoded vm w is_vm is_token r =
      let (w', pays) =
        pay_out_succeeds r.recipient r.amount r.fee r.completed.1 r.within
          (omega (arith, r.received)) in
      let difference : checked (m.try_sub (ledger r.completed.1 this) (ledger w this))
            (text "Sub failed")
          ≡ ok r.amount =
        checked_difference m laws (ledger r.completed.1 this) (ledger w this) r.amount r.received in
      let same : text_eq r.transfer.from_address (st.registered_emitters vm.emitter_chain_id)
          ≡ true =
        rw r.registered (text_eq_refl (st.registered_emitters vm.emitter_chain_id)) in
      (
        w',
        rw
            (
              is_vm,
              is_token,
              plain.counted w this,
              r.brought,
              plain.counted r.completed.1 this,
              difference,
              r.parsed,
              same,
              r.decoded,
              r.computed,
              r.addressed,
            )
            pays,
      )

  -- With SafeMath as documented and a token that the contract can move as far as it has it and
  -- whose transfers move the whole amount, a redemption of a parsed message with a known token
  -- goes through exactly where the bridge completes the transfer with an amount, its sender is
  -- registered for the message's chain, the payload decodes to a valid address, the fee is
  -- computed, and the redeemer's part is at most the amount.
  pub redeem_transfer_with_payload_iff :
      (encoded : Bytes) (vm : Vm) (w : W)
      → chain.parse_vm w encoded ≡ ok vm
      → fetch_local_address_from_transfer_message m chain this sender st w vm.payload ≡ ok token
      → ((w' : W) × (redeem_transfer_with_payload m chain this sender st encoded w ≡ ok w'))
        ↔ Ready m chain this sender st ledger encoded vm w
  redeem_transfer_with_payload_iff encoded vm w is_vm is_token = (
    λ g.
        let (w', gives) = g in
        let r =
          redeem_transfer_with_payload-Redemption m laws chain this sender st token ledger plain
            encoded vm w w' is_vm is_token gives in
        record {
          completed = r.completed;
          brought = r.brought;
          amount = r.amount;
          received = r.received;
          transfer = r.transfer;
          parsed = r.parsed;
          registered = r.registered;
          message = r.message;
          decoded = r.decoded;
          recipient = r.recipient;
          addressed = r.addressed;
          fee = r.fee;
          computed = r.computed;
          within = r.paid.within;
        },
    Ready-redeems encoded vm w is_vm is_token,
  )
