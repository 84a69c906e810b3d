-- ===== src/Network/Reached.antt =====
-- Every network that is reached from newly deployed contracts is linked.
use nimble_xchain_contracts.Prelude.{
  ℕ, ◌==◌, ◌≡◌, refl, sym, ◌∙◌, inl, inr, arith, Bool-cases, ◌&&◌,
}
use nimble_xchain_contracts.Js.{ok}
use nimble_xchain_contracts.Xchain.{Bytes, State, set_emitter}
use nimble_xchain_contracts.Xchain.Governance.{register_emitter, update_relayer_fee}
use nimble_xchain_contracts.Xchain.Fees.{SafeMath}
use nimble_xchain_contracts.Network.{
  Wormhole, Promised, Network, set_at, Attested, Grows, Event, Step, sends, redeems, registers,
  updates, moves, Reach, starts, later,
}
use nimble_xchain_contracts.Network.Posted.{
  Completing, send_tokens_with_payload-Posting, redeem_transfer_with_payload-Completing,
}
use nimble_xchain_contracts.Network.Linked.{IsLinked, Initial-IsLinked, Grows-IsLinked}
use nimble_xchain_contracts.Network.Asking.{Posting-IsLinked}

module _ {W : Type 0} (k : Wormhole W) where
  Completing-Grows :
      (n : Network W) (c : ℕ) (encoded : Bytes) (w' : W)
      → IsLinked k n
      → Attested k n encoded
      → Completing k c (n.contracts c) (k.said encoded) (n.worlds c) w'
      → Grows k n c w'
  Completing-Grows n c encoded w' v attested z = record {
    kept = λ x h. rw z.posted h;
    own = λ x h _. rw z.posted at h;
    numbered = λ x y hx hy. v.numbered c x y (rw z.posted at hx) (rw z.posted at hy);
    published = λ d s h.
        elim (Bool-cases (d == (k.said encoded).0 && s == (k.said encoded).1.sequence)) [
          | inl this ↦
              let source : d ≡ (k.said encoded).0 = ground arith in
              let number : s ≡ (k.said encoded).1.sequence = ground arith in
              rw source ((k.said encoded).1, attested.published, sym number)
          | inr other ↦ v.published c d s (sym (z.claims d s ∙ rw other refl) ∙ h)
        ];
  }

  registers-IsLinked :
      (n : Network W) (c d : ℕ) (sender : Bytes) (st : State)
      → register_emitter sender d (k.emitter d) (n.contracts c) ≡ ok st
      → IsLinked k n
      → IsLinked k (record n { contracts = set_at c st n.contracts })
  unfolding register_emitter set_emitter
  registers-IsLinked n c d sender st gives v = record {
    registered = λ c' d'. let old = v.registered c' d' in ground arith;
    numbered = v.numbered;
    published = v.published;
    carried = v.carried;
    posted = v.posted;
    distinct = v.distinct;
  }

  updates-IsLinked :
      (n : Network W) (c : ℕ) (sender : Bytes) (percentage precision : ℕ) (st : State)
      → update_relayer_fee sender percentage precision (n.contracts c) ≡ ok st
      → IsLinked k n
      → IsLinked k (record n { contracts = set_at c st n.contracts })
  unfolding update_relayer_fee
  updates-IsLinked n c sender percentage precision st gives v = record {
    registered = λ c' d'. let old = v.registered c' d' in ground arith;
    numbered = v.numbered;
    published = v.published;
    carried = v.carried;
    posted = v.posted;
    distinct = v.distinct;
  }

module _ {W : Type 0} (m : SafeMath) (k : Wormhole W) (promised : (c : ℕ) → Promised k c) where
  Step-IsLinked : (n n' : Network W) (e : Event) → IsLinked k n → Step m k n e n' → IsLinked k n'
  Step-IsLinked n n' e v
        (sends c sender token amount target_chain batch_id recipient value sequence w' long gives) =
      Posting-IsLinked k n c target_chain batch_id sequence recipient w' long
        (send_tokens_with_payload-Posting m k c (promised c) sender (n.contracts c) token amount
          target_chain batch_id recipient value sequence (n.worlds c) w' gives)
        v
  Step-IsLinked n n' e v (redeems c sender encoded w' attested gives) =
      Grows-IsLinked k n c w'
        (Completing-Grows k n c encoded w' v attested (
          redeem_transfer_with_payload-Completing m k c (promised c) sender (n.contracts c) encoded
            (n.worlds c) w' gives))
        v
  Step-IsLinked n n' e v (registers c sender d st gives) =
      registers-IsLinked k n c d sender st gives v
  Step-IsLinked n n' e v (updates c sender percentage precision st gives) =
      updates-IsLinked k n c sender percentage precision st gives v
  Step-IsLinked n n' e v (moves c w' others) = Grows-IsLinked k n c w' others.grows v

  -- In every network that is reached, each contract's entry for a chain is empty or the contract of
  -- that chain, and each message published in a contract's name carries what one user asked for.
  pub Reach-IsLinked : {n : Network W} → Reach m k n → IsLinked k n
  Reach-IsLinked {n} (starts i) = Initial-IsLinked k n i
  Reach-IsLinked {n = n'} (later {n} e r s) = Step-IsLinked n n' e (Reach-IsLinked r) s
