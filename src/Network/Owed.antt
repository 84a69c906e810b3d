-- ===== src/Network/Owed.antt =====
-- Each step does to what is owed what the specification says.
use nimble_xchain_contracts.Prelude.{
  ℕ, ◌==◌, ◌≡◌, ◌⊎◌, ◌↔◌, refl, sym, ◌∙◌, ap, inl, inr, arith, Bool-cases, true, false, ◌&&◌, ◌∷◌,
  length, if◌then◌else◌,
}
use mathlib.Core.List.{Memᴰ}
use mathlib.Core.List.Memᴰ
use nimble_xchain_contracts.Xchain.{Bytes, all_zero}
use nimble_xchain_contracts.Xchain.Fees.{SafeMath}
use nimble_xchain_contracts.Network.{
  Message, Wormhole, Promised, Asked, Network, set_at, Attested, Others, Event, sent, redeemed,
  silent, Step, sends, redeems, registers, updates, moves, Reach, Owed, Specified,
}
use nimble_xchain_contracts.Network.Posted.{
  Posting, Completing, send_tokens_with_payload-Posting, redeem_transfer_with_payload-Completing,
}
use nimble_xchain_contracts.Network.Linked.{set_at_elim, Carries, IsLinked}
use nimble_xchain_contracts.Network.Asking.{new_number}
use nimble_xchain_contracts.Network.Reached.{Reach-IsLinked}

module _ {W : Type 0} (k : Wormhole W) where
  -- What is claimed on the chains after a step on one of them.
  claimed_at :
      (n : Network W) (c : ℕ) (w' : W)
      → k.claimed w' ≡ k.claimed (n.worlds c)
      → (t d s : ℕ) → k.claimed (set_at c w' n.worlds t) d s ≡ k.claimed (n.worlds t) d s
  claimed_at n c w' same t d s =
      set_at_elim (λ w. k.claimed w d s ≡ k.claimed (n.worlds t) d s) c w' n.worlds t
        (λ here. rw here (ap (λ f. f d s) same)) (λ _. refl)

  completed_at :
      (n : Network W) (c : ℕ) (y : ℕ × Message) (w' : W)
      → Completing k c (n.contracts c) y (n.worlds c) w'
      → (t d s : ℕ)
      → k.claimed (set_at c w' n.worlds t) d s
        ≡ (if t == c && (d == y.0 && s == y.1.sequence) then true else k.claimed (n.worlds t) d s)
  completed_at n c y w' z t d s = elim (Bool-cases (t == c)) [
    | inl own ↦ let here : t ≡ c = ground arith in rw (own, here) (z.claims d s)
    | inr other ↦ rw other refl
  ]

  module _ (n : Network W) (v : IsLinked k n) (c : ℕ) where
    module _ (target_chain batch_id sequence : ℕ) (recipient : Bytes) (w' : W)
        (long : length recipient ≡ 32)
        (p : Posting k c
          (n.contracts c)
          target_chain
          batch_id
          recipient
          sequence
          (n.worlds c)
          w') where
      abbrev now : Asked
      now = record {
        source = c;
        sequence = sequence;
        target_chain = target_chain;
        recipient = recipient;
      }

      abbrev after_sending : Network W
      after_sending = record n { worlds = set_at c w' n.worlds; asked = now ∷ n.asked }

      not_claimed : k.claimed (n.worlds target_chain) c sequence ≡ false
      not_claimed = elim (Bool-cases (k.claimed (n.worlds target_chain) c sequence)) [
        | inl is_claimed ↦
            let (x, is_posted, same) = v.published target_chain c sequence is_claimed in
            absurd (p.unused x is_posted same)
        | inr unclaimed ↦ unclaimed
      ]

      Owed-after_sending : (b : Asked) → Owed k after_sending b ↔ ((b ≡ now) ⊎ Owed k n b)
      Owed-after_sending b = (
        λ o.
            let unclaimed =
              sym (claimed_at n c w' p.claimed b.target_chain b.source b.sequence) ∙ o.1 in
            elim (Memᴰ.cases_cons o.0) [
              | inl is_now ↦ inl is_now
              | inr before ↦ inr (before, unclaimed)
            ],
        λ o. elim o [
          | inl is_now ↦ (
            Memᴰ.head is_now,
            claimed_at n c w' p.claimed b.target_chain b.source b.sequence ∙ rw is_now not_claimed,
          )
          | inr (before, unclaimed) ↦ (
            Memᴰ.tail before,
            claimed_at n c w' p.claimed b.target_chain b.source b.sequence ∙ unclaimed,
          )
        ],
      )

      Posting-Specified : Specified k n (sent now) after_sending
      Posting-Specified = (
        λ o.
            new_number k n c target_chain batch_id sequence recipient w' long p v now o.0 refl refl,
        Owed-after_sending,
      )

    module _ (encoded : Bytes) (w' : W) (attested : Attested k n encoded)
        (z : Completing k c (n.contracts c) (k.said encoded) (n.worlds c) w') where
      from_contract : ((k.said encoded).1).from ≡ k.emitter ((k.said encoded).0)
      from_contract = elim (v.registered c ((k.said encoded).0)) [
        | inl unset ↦
            let zero_address : all_zero ((k.said encoded).1).from ≡ true = rw z.registered unset in
            absurd (ground (arith, attested.by_someone))
        | inr set ↦ z.registered ∙ set
      ]

      -- What the message that is redeemed carries, was asked for and is owed here.
      pub redeemed_Owed :
          (a : Asked) × Owed k n a
          × (a.target_chain ≡ c)
          × (a.source ≡ (k.said encoded).0)
          × (a.sequence ≡ ((k.said encoded).1).sequence)
          × Carries k ((k.said encoded).1) a
      redeemed_Owed =
          let (a, is_asked, source, carries) =
            v.carried ((k.said encoded).0) ((k.said encoded).1) attested.published from_contract in
          let target : a.target_chain ≡ c = sym carries.target_chain ∙ z.here in
          let number : a.sequence ≡ ((k.said encoded).1).sequence = sym carries.sequence in
          (a, (is_asked, rw (target, source, number) z.first), target, source, number, carries)

      Completing-Specified :
          Specified k n
            (redeemed c ((k.said encoded).0) (((k.said encoded).1).sequence))
            (record n { worlds = set_at c w' n.worlds })
      Completing-Specified =
          let (a, owed, target, source, number, _) = redeemed_Owed in
          (
            a,
            owed,
            target,
            source,
            number,
            λ b.
                let claims =
                  completed_at n c (k.said encoded) w' z b.target_chain b.source b.sequence in
                (
                  λ o.
                      let unclaimed = sym claims ∙ o.1 in
                      (
                        (o.0, ground (arith, unclaimed)),
                        λ is_a.
                            let target_b : b.target_chain ≡ c = rw is_a target in
                            let source_b : b.source ≡ (k.said encoded).0 = rw is_a source in
                            let number_b : b.sequence ≡ ((k.said encoded).1).sequence =
                              rw is_a number in
                            ground (arith, unclaimed, target_b, source_b, number_b),
                      ),
                  λ o. (
                    o.0.0,
                    claims
                        ∙ elim (Bool-cases (
                            b.target_chain == c
                            && (b.source == (k.said encoded).0
                                && b.sequence == ((k.said encoded).1).sequence))) [
                                  | inl this ↦
                                      let source_b : b.source ≡ a.source = ground (arith, source) in
                                      let number_b : b.sequence ≡ a.sequence =
                                        ground (arith, number) in
                                      absurd (o.1 (v.distinct b a o.0.0 owed.0 source_b number_b))
                                  | inr other ↦ rw other (o.0.1)
                                ],
                  ),
                ),
          )

    Others-Specified :
        (w' : W)
        → Others k n c w'
        → Specified k n silent (record n { worlds = set_at c w' n.worlds })
    Others-Specified w' others b =
        let same : Memᴰ b n.asked
            → k.claimed (set_at c w' n.worlds b.target_chain) b.source b.sequence
              ≡ k.claimed (n.worlds b.target_chain) b.source b.sequence =
          λ is_asked.
            let (x, is_posted, carries) = v.posted b is_asked in
            set_at_elim
              (λ w.
                k.claimed w b.source b.sequence
                ≡ k.claimed (n.worlds b.target_chain) b.source b.sequence)
              c w' n.worlds b.target_chain
              (λ here.
                rw (here, sym carries.sequence)
                  (others.left b.source x is_posted (carries.target_contract ∙ ap k.emitter here)))
              (λ _. refl) in
        (λ o. (o.0, sym (same o.0) ∙ o.1), λ o. (o.0, same o.0 ∙ o.1))

module _ {W : Type 0} (m : SafeMath) (k : Wormhole W) (promised : (c : ℕ) → Promised k c) where
  -- Where Wormhole does what its documentation says and the contracts' owners register only the
  -- contracts of the other chains, each step from a network that is reached does to the
  -- transfers that are owed what the specification says: sending adds one that was not owed, a
  -- redemption takes away exactly the one, owed on this chain, that has its message's chain and
  -- number, and any other step leaves them.
  pub Step-Specified :
      {n n' : Network W} {e : Event} → Reach m k n → Step m k n e n' → Specified k n e n'
  Step-Specified {n} r
        (sends c sender token amount target_chain batch_id recipient value sequence w' long gives) =
      Posting-Specified k n (Reach-IsLinked m k promised r) c target_chain batch_id sequence
        recipient w' long
        (send_tokens_with_payload-Posting m k c (promised c) sender (n.contracts c) token amount
          target_chain batch_id recipient value sequence (n.worlds c) w' gives)
  Step-Specified {n} r (redeems c sender encoded w' attested gives) =
      Completing-Specified k n (Reach-IsLinked m k promised r) c encoded w' attested (
        redeem_transfer_with_payload-Completing m k c (promised c) sender (n.contracts c) encoded
          (n.worlds c) w' gives)
  Step-Specified r (registers c sender d st gives) = λ b. (λ o. o, λ o. o)
  Step-Specified r (updates c sender percentage precision st gives) = λ b. (λ o. o, λ o. o)
  Step-Specified {n} r (moves c w' others) =
      Others-Specified k n (Reach-IsLinked m k promised r) c w' others
