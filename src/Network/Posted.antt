-- ===== src/Network/Posted.antt =====
-- What the contract's two functions do to the messages of the token bridge.
use nimble_xchain_contracts.Prelude.{
  ℕ, ◌==◌, ◌≡◌, ◌≢◌, ◌⊎◌, ◌↔◌, sym, ◌∙◌, ap, inl, inr, Bool-cases, true, false, ◌&&◌, ◌||◌,
  if◌then◌else◌,
}
use nimble_xchain_contracts.Js.{text, text_eq, ok, returned, ok_injective}
use nimble_xchain_contracts.Xchain.{Bytes, all_zero, State}
use nimble_xchain_contracts.Xchain.Messages.{NimbleXchainMessage, decode_payload}
use nimble_xchain_contracts.Xchain.Fees.{SafeMath, checked}
use nimble_xchain_contracts.Xchain.Transfers.{
  order_of, custody_tokens, increase, fetch_local_address_from_transfer_message,
  send_tokens_with_payload, deposit_and_order, pay_both, pay_out, redeem_transfer_with_payload,
}
use nimble_xchain_contracts.Xchain.Transfers.Sent.{checks-Passed}
use nimble_xchain_contracts.Xchain.Transfers.Settled.{settle-steps}
use nimble_xchain_contracts.Network.{Message, Wormhole, Promised}

-- The same messages are published and the same completed.
abbrev pub Unmoved : {W : Type 0} → Wormhole W → W → W → Type 1
Unmoved k w w' = (k.posted w' ≡ k.posted w) × (k.claimed w' ≡ k.claimed w)

joined :
    {W : Type 0} (k : Wormhole W) (w w1 w' : W) → Unmoved k w w1 → Unmoved k w1 w' → Unmoved k w w'
joined k w w1 w' (p, c) (p', c') = (p' ∙ p, c' ∙ c)

-- A transfer's message, published under a new number.
pub record Posting {W : Type 0} (k : Wormhole W) (c : ℕ) (st : State) (target_chain batch_id : ℕ)
    (recipient : Bytes) (sequence : ℕ) (w w' : W) : Type 1 where
  pub token : Bytes
  pub amount : ℕ
  pub fee : ℕ
  pub registered : all_zero (st.registered_emitters target_chain) ≡ false
  pub posted :
      (x : Message)
      → k.posted w' x ↔ (
          (x ≡ record {
            from = k.emitter c;
            sequence = sequence;
            order = order_of st token amount target_chain batch_id recipient fee;
          })
          ⊎ k.posted w x)
  pub unused : (x : Message) → k.posted w x → x.sequence ≢ sequence
  pub claimed : k.claimed w' ≡ k.claimed w

-- A redemption's message, completed.
pub record Completing {W : Type 0} (k : Wormhole W) (c : ℕ) (st : State) (x : ℕ × Message)
    (w w' : W) : Type 1 where
  pub registered : x.1.from ≡ st.registered_emitters (x.0)
  pub here : x.1.order.target_chain ≡ c
  pub first : k.claimed w (x.0) (x.1.sequence) ≡ false
  pub message : NimbleXchainMessage
  pub decoded : decode_payload x.1.order.payload ≡ ok message
  pub posted : k.posted w' ≡ k.posted w
  pub claims :
      (d s : ℕ)
      → k.claimed w' d s ≡ (if d == x.0 && s == x.1.sequence then true else k.claimed w d s)

module _ {W : Type 0} (m : SafeMath) (k : Wormhole W) (c : ℕ) (promised : Promised k c)
    (sender : Bytes) (st : State) where
  custody_tokens-Unmoved :
      (token : Bytes) (amount : ℕ) (w : W) (p : ℕ × W)
      → custody_tokens m (k.chains c) (k.address c) sender st token amount w ≡ ok p
      → Unmoved k w (p.1)
  unfolding custody_tokens
  custody_tokens-Unmoved token amount w p gives =
      let (before, h1, _) = returned _ p ((k.chains c).balance_of w token (k.address c)) gives in
      let (deposited, h2, deposit) =
        returned _ p ((k.chains c).transfer_from token sender (k.address c) amount w) h1 in
      let (received, last, _) =
        returned _ p (increase m (k.chains c) (k.address c) sender st deposited token before) h2 in
      let same : deposited ≡ p.1 = ap (λ q. q.1) (ok_injective last) in
      rw (sym same)
        (promised.transfer_from_keeps token sender (k.address c) amount w deposited deposit)

  pub send_tokens_with_payload-Posting :
      (token : Bytes) (amount target_chain batch_id : ℕ) (recipient : Bytes) (value sequence : ℕ)
      (w w' : W)
      → send_tokens_with_payload m
          (k.chains c)
          (k.address c)
          sender
          st
          token
          amount
          target_chain
          batch_id
          recipient
          value
          w
        ≡ ok (sequence, w')
      → Posting k c st target_chain batch_id recipient sequence w w'
  unfolding deposit_and_order
  send_tokens_with_payload-Posting token amount target_chain batch_id recipient value sequence w w'
        gives =
      let (passed, h) =
        checks-Passed m (k.chains c) (k.address c) sender st token amount target_chain batch_id
          recipient value w (sequence, w') gives in
      let (custody, h1, in_custody) =
        returned _ (sequence, w')
          (custody_tokens m (k.chains c) (k.address c) sender st token amount w) h in
      let (approved, ordered, approval) =
        returned _ (sequence, w') ((k.chains c).approve token st.token_bridge custody.0 custody.1)
          h1 in
      let o = order_of st token custody.0 target_chain batch_id recipient value in
      let (same_posted, same_claimed) =
        joined k w custody.1 approved (custody_tokens-Unmoved token amount w custody in_custody)
          (promised.approve_keeps token st.token_bridge custody.0 custody.1 approved approval) in
      record {
        token = token;
        amount = custody.0;
        fee = value;
        registered = passed.registered;
        posted = λ x. rw same_posted at (promised.posts o approved w' sequence ordered x);
        unused =
            λ x is_old. promised.numbers o approved w' sequence ordered x (rw same_posted is_old);
        claimed = promised.posting_keeps o approved w' sequence ordered ∙ same_claimed;
      }

  pay_out-Unmoved :
      (token recipient : Bytes) (amount fee : ℕ) (w w' : W)
      → pay_out m (k.chains c) (k.address c) sender st token recipient amount fee w ≡ ok w'
      → Unmoved k w w'
  unfolding pay_out pay_both
  pay_out-Unmoved token recipient amount fee w w' gives =
      elim (Bool-cases (fee == 0 || text_eq sender recipient)) [
        | inl whole ↦ promised.transfer_keeps token recipient amount w w' (rw whole at gives)
        | inr shared ↦
            let h = rw shared at gives in
            let (w1, h1, first) = returned _ w' ((k.chains c).transfer token sender fee w) h in
            let (rest, last, _) =
              returned _ w' (checked (m.try_sub amount fee) (text "Sub failed")) h1 in
            joined k w w1 w' (promised.transfer_keeps token sender fee w w1 first)
              (promised.transfer_keeps token recipient rest w1 w' last)
      ]

  pub redeem_transfer_with_payload-Completing :
      (encoded : Bytes) (w w' : W)
      → redeem_transfer_with_payload m (k.chains c) (k.address c) sender st encoded w ≡ ok w'
      → Completing k c st (k.said encoded) w w'
  unfolding redeem_transfer_with_payload
  redeem_transfer_with_payload-Completing encoded w w' gives =
      let (vm, h1, parsed_vm) = returned _ w' ((k.chains c).parse_vm w encoded) gives in
      let (token, h2, _) =
        returned _ w'
          (fetch_local_address_from_transfer_message m (k.chains c) (k.address c) sender st w
            vm.payload)
          h1 in
      let (before, h3, _) = returned _ w' ((k.chains c).balance_of w token (k.address c)) h2 in
      let (completed, h4, completes) =
        returned _ w' ((k.chains c).complete_transfer_with_payload encoded w) h3 in
      let (amount, settles, _) =
        returned _ w' (increase m (k.chains c) (k.address c) sender st completed.1 token before)
          h4 in
      let (
        transfer, message, fee, recipient, parsed, registered, decoded, computed, addressed, pays,
      ) =
        settle-steps m (k.chains c) (k.address c) sender st token amount vm.emitter_chain_id
          completed.0 completed.1 w' settles in
      let source = promised.parses encoded w vm parsed_vm in
      let (from, payload) = promised.reads encoded w completed transfer completes parsed in
      let (here, first) = promised.addressed encoded w completed completes in
      let (same_posted, same_claimed) =
        pay_out-Unmoved token recipient amount fee completed.1 w' pays in
      record {
        registered = sym from ∙ registered ∙ ap st.registered_emitters source;
        here = here;
        first = first;
        message = message;
        decoded = rw payload at decoded;
        posted = same_posted ∙ promised.completing_keeps encoded w completed completes;
        claims =
            λ d s. ap (λ f. f d s) same_claimed ∙ promised.claims encoded w completed completes d s;
      }
