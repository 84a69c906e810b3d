-- ===== src/Xchain/Transfers/Settled.antt =====
-- What a redemption pays.
use nimble_xchain_contracts.Prelude.{
  ℕ, ◌+◌, ◌-◌, ◌≤◌, ◌==◌, ◌≡◌, Bool-cases, inl, inr, arith, Bool, if◌then◌else◌,
}
use nimble_xchain_contracts.Js.{text, text_eq, text_eq_sound, ok, returned}
use nimble_xchain_contracts.Xchain.{Bytes, State, require}
use nimble_xchain_contracts.Xchain.Messages.{NimbleXchainMessage, decode_payload}
use nimble_xchain_contracts.Xchain.Fees.{SafeMath, Documented, checked, calculate_relayer_fee}
use nimble_xchain_contracts.Xchain.Fees.Checked.{checked-try_sub}
use nimble_xchain_contracts.Xchain.Transfers.{
  Vm, TransferWithPayload, Chain, bytes32_to_address, fetch_local_address_from_transfer_message,
  pay_both, pay_out, settle, redeem_transfer_with_payload,
}

-- `n` for the one that is meant, nothing for another.
abbrev pub amount_if : Bool → ℕ → ℕ
amount_if concerned n = if concerned then n else 0

-- A token whose transfer moves the whole amount: `ledger` is its balances.
pub record PlainToken {W : Type 0} (chain : Chain W) (this token : Bytes) (ledger : W → Bytes → ℕ)
    : Type 0 where
  pub counted : (w : W) (who : Bytes) → chain.balance_of w token who ≡ ok (ledger w who)
  pub moved :
      (to : Bytes) (n : ℕ) (w w' : W)
      → chain.transfer token to n w ≡ ok w'
      → (who : Bytes)
      → ledger w' who + amount_if (text_eq who this) n ≡ ledger w who + amount_if (text_eq who to) n

-- The relayer's part: nothing where the recipient redeems.
abbrev pub part_of : (sender recipient : Bytes) → ℕ → ℕ
part_of sender recipient fee = if text_eq sender recipient then 0 else fee

-- The contract paid out `amount`: `part` to the sender of the transaction and the rest to the
-- recipient.
pub record Paid {W : Type 0} (ledger : W → Bytes → ℕ) (this sender recipient : Bytes)
    (amount part : ℕ) (w w' : W) : Type 0 where
  pub within : part ≤ amount
  pub moves :
      (who : Bytes)
      → ledger w' who + amount_if (text_eq who this) amount
        ≡ ledger w who
          + amount_if (text_eq who recipient) (amount - part)
          + amount_if (text_eq who sender) part

-- What a redemption did on the way to its end.
pub record Redemption {W : Type 0} (m : SafeMath) (chain : Chain W) (this sender : Bytes)
    (st : State) (ledger : W → Bytes → ℕ) (encoded : Bytes) (vm : Vm) (w w' : W) : Type 0 where
  pub completed : Bytes × W
  pub brought : chain.complete_transfer_with_payload encoded w ≡ ok completed
  pub amount : ℕ
  pub received : ledger (completed.1) this ≡ ledger w this + amount
  pub transfer : TransferWithPayload
  pub parsed : chain.parse_transfer_with_payload (completed.1) (completed.0) ≡ ok transfer
  pub registered : transfer.from_address ≡ st.registered_emitters vm.emitter_chain_id
  pub message : NimbleXchainMessage
  pub decoded : decode_payload transfer.payload ≡ ok message
  pub recipient : Bytes
  pub addressed : bytes32_to_address message.target_recipient ≡ ok recipient
  pub fee : ℕ
  pub computed : calculate_relayer_fee m st amount ≡ ok fee
  pub paid : Paid ledger this sender recipient amount (part_of sender recipient fee) completed.1 w'

module _ {W : Type 0} (m : SafeMath) (chain : Chain W) (this sender : Bytes) (st : State)
    (token : Bytes) where
  -- The last steps, with the fee and the recipient.
  pub settle-steps :
      (amount emitter_chain_id : ℕ) (payload : Bytes) (w w' : W)
      → settle m chain this sender st token amount emitter_chain_id payload w ≡ ok w'
      → (transfer : TransferWithPayload) × (message : NimbleXchainMessage) × (fee : ℕ)
        × (recipient : Bytes) × (chain.parse_transfer_with_payload w payload ≡ ok transfer)
        × (transfer.from_address ≡ st.registered_emitters emitter_chain_id)
        × (decode_payload transfer.payload ≡ ok message)
        × (calculate_relayer_fee m st amount ≡ ok fee)
        × (bytes32_to_address message.target_recipient ≡ ok recipient)
        × (pay_out m chain this sender st token recipient amount fee w ≡ ok w')
  unfolding settle
  settle-steps amount emitter_chain_id payload w w' gives =
      let (transfer, h1, parsed) =
        returned _ w' (chain.parse_transfer_with_payload w payload) gives in
      let (_, h2, same) =
        returned _ w'
          (require (text_eq transfer.from_address (st.registered_emitters emitter_chain_id))
            (text "emitter not registered"))
          h1 in
      let (message, h3, decoded) = returned _ w' (decode_payload transfer.payload) h2 in
      let (fee, h4, computed) = returned _ w' (calculate_relayer_fee m st amount) h3 in
      let (recipient, pays, addressed) =
        returned _ w' (bytes32_to_address message.target_recipient) h4 in
      (
        transfer,
        message,
        fee,
        recipient,
        parsed,
        text_eq_sound transfer.from_address (st.registered_emitters emitter_chain_id)
            (ground arith),
        decoded,
        computed,
        addressed,
        pays,
      )

module _ {W : Type 0} (m : SafeMath) (laws : Documented m) (chain : Chain W) (this sender : Bytes)
    (st : State) (token : Bytes) (ledger : W → Bytes → ℕ)
    (plain : PlainToken chain this token ledger) where
  pay_both-Paid :
      (recipient : Bytes) (amount fee : ℕ) (w w' : W)
      → pay_both m chain this sender st token recipient amount fee w ≡ ok w'
      → Paid ledger this sender recipient amount fee w w'
  unfolding pay_both
  pay_both-Paid recipient amount fee w w' gives =
      let (w1, then_rest, first) = returned _ w' (chain.transfer token sender fee w) gives in
      let (rest, last, difference) =
        returned _ w' (checked (m.try_sub amount fee) (text "Sub failed")) then_rest in
      let (within, sum) = checked-try_sub m laws amount fee rest _ difference in
      record {
        within = within;
        moves = λ who. ground (
          arith,
          plain.moved sender fee w w1 first who,
          plain.moved recipient rest w1 w' last who,
        );
      }

  whole-Paid :
      (recipient : Bytes) (amount : ℕ) (w w' : W)
      → chain.transfer token recipient amount w ≡ ok w'
      → Paid ledger this sender recipient amount 0 w w'
  whole-Paid recipient amount w w' first = record {
    within = omega arith;
    moves = λ who. ground (arith, plain.moved recipient amount w w' first who);
  }

  pay_out-Paid :
      (recipient : Bytes) (amount fee : ℕ) (w w' : W)
      → pay_out m chain this sender st token recipient amount fee w ≡ ok w'
      → Paid ledger this sender recipient amount (part_of sender recipient fee) w w'
  unfolding pay_out
  pay_out-Paid recipient amount fee w w' gives = elim (Bool-cases (text_eq sender recipient)) [
    | inl own ↦ rw own (whole-Paid recipient amount w w' (ground arith))
    | inr other ↦ elim (Bool-cases (fee == 0)) [
      | inl free ↦
          let none : fee ≡ 0 = ground arith in
          rw (other, none) (whole-Paid recipient amount w w' (ground arith))
      | inr charged ↦ rw other (pay_both-Paid recipient amount fee w w' (ground arith))
    ]
  ]

  -- With a token whose transfers move the whole amount, a redemption that succeeds took the
  -- message to the token bridge, found its sender registered for the chain that it came from and
  -- the payload decoded, and paid exactly what the bridge brought: the fee to the redeemer and the
  -- rest to the recipient, or all to a recipient who redeems.
  pub redeem_transfer_with_payload-Redemption :
      (encoded : Bytes) (vm : Vm) (w w' : W)
      → chain.parse_vm w encoded ≡ ok vm
      → fetch_local_address_from_transfer_message m chain this sender st w vm.payload ≡ ok token
      → redeem_transfer_with_payload m chain this sender st encoded w ≡ ok w'
      → Redemption m chain this sender st ledger encoded vm w w'
  unfolding redeem_transfer_with_payload
  redeem_transfer_with_payload-Redemption encoded vm w w' is_vm is_token gives =
      let h1 = rw (is_vm, is_token, plain.counted w this) at gives in
      let (completed, h2, brought) =
        returned _ w' (chain.complete_transfer_with_payload encoded w) h1 in
      let h3 = rw (plain.counted completed.1 this) at h2 in
      let (amount, settles, difference) =
        returned _ w'
          (checked (m.try_sub (ledger completed.1 this) (ledger w this)) (text "Sub failed")) h3 in
      let (_, sum) = checked-try_sub m laws _ _ amount _ difference in
      let (
        transfer, message, fee, recipient, parsed, registered, decoded, computed, addressed, pays,
      ) =
        settle-steps m chain this sender st token amount vm.emitter_chain_id completed.0 completed.1
          w' settles in
      record {
        completed = completed;
        brought = brought;
        amount = amount;
        received = omega arith;
        transfer = transfer;
        parsed = parsed;
        registered = registered;
        message = message;
        decoded = decoded;
        recipient = recipient;
        addressed = addressed;
        fee = fee;
        computed = computed;
        paid = pay_out-Paid recipient amount fee completed.1 w' pays;
      }
