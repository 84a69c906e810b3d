-- ===== src/Network/Delivered.antt =====
-- What is owed is what redemptions pay, and can be redeemed.
use nimble_xchain_contracts.Prelude.{
  ℕ, ◌+◌, ◌≤◌, ◌≡◌, refl, sym, ◌∙◌, ap, inl, inr, arith, true, false, take, drop,
}
use mathlib.Core.Path.{subst}
use nimble_xchain_contracts.Js.{ok}
use nimble_xchain_contracts.Xchain.{Bytes, all_zero, State}
use nimble_xchain_contracts.Xchain.Messages.RoundTrip.{decode_payload-encode_payload}
use nimble_xchain_contracts.Xchain.Fees.{SafeMath, Documented, calculate_relayer_fee}
use nimble_xchain_contracts.Xchain.Transfers.{
  Vm, TransferWithPayload, Chain, order_of, bytes32_to_address,
  fetch_local_address_from_transfer_message, redeem_transfer_with_payload,
}
use nimble_xchain_contracts.Xchain.Transfers.Settled.{
  PlainToken, Paid, part_of, redeem_transfer_with_payload-Redemption,
}
use nimble_xchain_contracts.Xchain.Transfers.Delivered.{order_of-Paid}
use nimble_xchain_contracts.Xchain.Transfers.Redeemable.{Payable, Ready, Ready-redeems}
use nimble_xchain_contracts.Network.{Wormhole, Promised, Asked, Network, Attested, Reach, Owed}
use nimble_xchain_contracts.Network.Posted.{redeem_transfer_with_payload-Completing}
use nimble_xchain_contracts.Network.Linked.{Carries}
use nimble_xchain_contracts.Network.Reached.{Reach-IsLinked}
use nimble_xchain_contracts.Network.Owed.{redeemed_Owed}

-- What the redemption of a message with a transfer to `recipient` did to the balances: the bridge
-- completed the message, and of what it brought the redeemer has the fee, if any, and the recipient
-- the rest.
pub record Delivery {W : Type 0} (m : SafeMath) (chain : Chain W) (this sender : Bytes) (st : State)
    (ledger : W → Bytes → ℕ) (encoded recipient : Bytes) (w w' : W) : Type 0 where
  pub is_address : all_zero (take 12 recipient) ≡ true
  pub completed : Bytes × W
  pub brought : chain.complete_transfer_with_payload encoded w ≡ ok completed
  pub amount : ℕ
  pub received : ledger (completed.1) this ≡ ledger w this + amount
  pub fee : ℕ
  pub computed : calculate_relayer_fee m st amount ≡ ok fee
  pub paid :
      Paid ledger this sender
        (drop 12 recipient)
        amount
        (part_of sender (drop 12 recipient) fee)
        (completed.1)
        w'

-- What the bridge of the chain `c` does with a message, for a token with balances `ledger`.
pub record Brings {W : Type 0} (m : SafeMath) (k : Wormhole W) (ledger : W → Bytes → ℕ) (c : ℕ)
    (st : State) (encoded : Bytes) (w : W) : Type 0 where
  pub completed : Bytes × W
  pub brought : (k.chains c).complete_transfer_with_payload encoded w ≡ ok completed
  pub amount : ℕ
  pub received : ledger (completed.1) (k.address c) ≡ ledger w (k.address c) + amount
  pub transfer : TransferWithPayload
  pub parsed : (k.chains c).parse_transfer_with_payload (completed.1) (completed.0) ≡ ok transfer
  pub fee : ℕ
  pub computed : calculate_relayer_fee m st amount ≡ ok fee
  pub within : fee ≤ amount

part_within :
    (sender recipient : Bytes) (fee amount : ℕ)
    → fee ≤ amount
    → part_of sender recipient fee ≤ amount
part_within sender recipient fee amount within = ground arith

address_valid :
    (recipient : Bytes)
    → all_zero (take 12 recipient) ≡ true
    → bytes32_to_address recipient ≡ ok (drop 12 recipient)
unfolding bytes32_to_address
address_valid recipient zeros_first = rw zeros_first refl

module _ {W : Type 0} (m : SafeMath) (laws : Documented m) (k : Wormhole W)
    (promised : (c : ℕ) → Promised k c) (n : Network W) (reached : Reach m k n) (c : ℕ)
    (sender encoded : Bytes) (attested : Attested k n encoded) (vm : Vm) (token : Bytes)
    (is_vm : (k.chains c).parse_vm (n.worlds c) encoded ≡ ok vm)
    (is_token : fetch_local_address_from_transfer_message m
        (k.chains c)
        (k.address c)
        sender
        (n.contracts c)
        (n.worlds c)
        vm.payload
      ≡ ok token)
    (ledger : W → Bytes → ℕ) (plain : PlainToken (k.chains c) (k.address c) token ledger) where
  -- Where SafeMath and Wormhole do what their documentation says and the contracts' owners
  -- register only the contracts of the other chains, a redemption of an attested message that is
  -- parsed and whose token is found, with a token whose transfers move the whole amount, if it
  -- succeeds in a network that is reached, is of a transfer that a user asked for, to this
  -- chain, under the message's chain and number, and that was not redeemed before. The bridge
  -- completed the message, and exactly what this brought was paid out: to the recipient that the
  -- user named, less the contract's fee for a redeemer who is not the recipient.
  pub redeem_transfer_with_payload-Owed :
      (w' : W)
      → redeem_transfer_with_payload m
          (k.chains c)
          (k.address c)
          sender
          (n.contracts c)
          encoded
          (n.worlds c)
        ≡ ok w'
      → (a : Asked) × Owed k n a
        × (a.target_chain ≡ c)
        × (a.source ≡ (k.said encoded).0)
        × (a.sequence ≡ ((k.said encoded).1).sequence)
        × Delivery m
            (k.chains c)
            (k.address c)
            sender
            (n.contracts c)
            ledger
            encoded
            a.recipient
            (n.worlds c)
            w'
  unfolding order_of
  redeem_transfer_with_payload-Owed w' gives =
      let z =
        redeem_transfer_with_payload-Completing m k c (promised c) sender (n.contracts c) encoded
          (n.worlds c) w' gives in
      let (a, owed, target, source, number, carries) =
        redeemed_Owed k n (Reach-IsLinked m k promised reached) c encoded w' attested z in
      let r =
        redeem_transfer_with_payload-Redemption m laws (k.chains c) (k.address c) sender
          (n.contracts c) token ledger plain encoded vm (n.worlds c) w' is_vm is_token gives in
      let (_, payload) =
        (promised c).reads encoded (n.worlds c) r.completed r.transfer r.brought r.parsed in
      let (zeros_first, paid) =
        order_of-Paid m (k.chains c) (k.address c) sender (n.contracts c) (n.contracts c) ledger
          encoded vm (n.worlds c) w' token 0 0 0 a.recipient 0 carries.long r
          (payload ∙ carries.payload) in
      (
        a,
        owed,
        target,
        source,
        number,
        record {
          is_address = zeros_first;
          completed = r.completed;
          brought = r.brought;
          amount = r.amount;
          received = r.received;
          fee = r.fee;
          computed = r.computed;
          paid = paid;
        },
      )

  -- The message is the one that carries what was asked for.
  Owed-Carries :
      (a : Asked)
      → Owed k n a
      → (k.said encoded).0 ≡ a.source
      → ((k.said encoded).1).sequence ≡ a.sequence
      → Carries k ((k.said encoded).1) a
  Owed-Carries a owed source number =
      let v = Reach-IsLinked m k promised reached in
      let (x, is_posted, carries) = v.posted a owed.0 in
      let published : k.posted (n.worlds a.source) ((k.said encoded).1) =
        subst (λ e. k.posted (n.worlds e) ((k.said encoded).1)) source attested.published in
      let same : x ≡ (k.said encoded).1 =
        v.numbered a.source x ((k.said encoded).1) is_posted published
          (carries.sequence ∙ sym number) in
      subst (λ y. Carries k y a) same carries

  Owed-Ready :
      (a : Asked)
      → Owed k n a
      → (k.said encoded).0 ≡ a.source
      → ((k.said encoded).1).sequence ≡ a.sequence
      → all_zero ((n.contracts c).registered_emitters a.source) ≡ false
      → all_zero (take 12 a.recipient) ≡ true
      → Brings m k ledger c (n.contracts c) encoded (n.worlds c)
      → Ready m (k.chains c) (k.address c) sender (n.contracts c) ledger encoded vm (n.worlds c)
  Owed-Ready a owed source number entry valid b =
      let carries = Owed-Carries a owed source number in
      let v = Reach-IsLinked m k promised reached in
      let (from, payload) =
        (promised c).reads encoded (n.worlds c) b.completed b.transfer b.brought b.parsed in
      let emitter : (n.contracts c).registered_emitters a.source ≡ k.emitter a.source =
        elim (v.registered c a.source) [
          | inl unset ↦ absurd (ground (arith, entry))
          | inr set ↦ set
        ] in
      let from_chain : vm.emitter_chain_id ≡ a.source =
        (promised c).parses encoded (n.worlds c) vm is_vm ∙ source in
      record {
        completed = b.completed;
        brought = b.brought;
        amount = b.amount;
        received = b.received;
        transfer = b.transfer;
        parsed = b.parsed;
        registered =
            from
            ∙ carries.from
            ∙ sym emitter
            ∙ ap (n.contracts c).registered_emitters (sym from_chain);
        message = record { payload_id = 1; target_recipient = a.recipient };
        decoded =
            rw (payload, carries.payload)
              (decode_payload-encode_payload
                (record { payload_id = 1; target_recipient = a.recipient }) refl carries.long);
        recipient = drop 12 a.recipient;
        addressed = address_valid a.recipient valid;
        fee = b.fee;
        computed = b.computed;
        within = part_within sender (drop 12 a.recipient) b.fee b.amount b.within;
      }

  -- Where SafeMath and Wormhole do what their documentation says and the contracts' owners
  -- register only the contracts of the other chains, a transfer that is owed in a network that
  -- is reached can be redeemed by anyone with its attested message, parsed and with its token
  -- found: where the target's contract has an entry for the source's chain, the recipient is an
  -- address in 32 bytes, the bridge completes the message with an amount, the fee is computed
  -- and at most this amount, and the contract can move the token as far as it has it and
  -- transfers move the whole amount, the redemption succeeds, and exactly what the bridge's
  -- completion of the message brings is paid out: to the recipient that the user named, less the
  -- contract's fee for a redeemer who is not the recipient.
  pub Owed-redeem_transfer_with_payload :
      (a : Asked)
      → Owed k n a
      → (k.said encoded).0 ≡ a.source
      → ((k.said encoded).1).sequence ≡ a.sequence
      → all_zero ((n.contracts c).registered_emitters a.source) ≡ false
      → all_zero (take 12 a.recipient) ≡ true
      → Payable (k.chains c) (k.address c) token ledger
      → Brings m k ledger c (n.contracts c) encoded (n.worlds c)
      → (w' : W) × (redeem_transfer_with_payload m
            (k.chains c)
            (k.address c)
            sender
            (n.contracts c)
            encoded
            (n.worlds c)
          ≡ ok w')
        × Delivery m
            (k.chains c)
            (k.address c)
            sender
            (n.contracts c)
            ledger
            encoded
            a.recipient
            (n.worlds c)
            w'
  Owed-redeem_transfer_with_payload a owed source number entry valid payable b =
      let (w', gives) =
        Ready-redeems m laws (k.chains c) (k.address c) sender (n.contracts c) token ledger plain
          payable encoded vm (n.worlds c) is_vm is_token
          (Owed-Ready a owed source number entry valid b) in
      let (a', owed', _, source', number', delivery) = redeem_transfer_with_payload-Owed w' gives in
      let same : a' ≡ a =
        (Reach-IsLinked m k promised reached).distinct a' a owed'.0 owed.0 (source' ∙ source)
          (number' ∙ number) in
      (
        w',
        gives,
        subst
            (λ x.
              Delivery m (k.chains c) (k.address c) sender (n.contracts c) ledger encoded
                x.recipient (n.worlds c) w')
            same delivery,
      )
