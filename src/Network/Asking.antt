-- ===== src/Network/Asking.antt =====
-- A transfer that a user asks for keeps the network's invariant.
use nimble_xchain_contracts.Prelude.{
  ℕ, ◌≡◌, ◌≢◌, refl, sym, ◌∙◌, ap, inl, inr, arith, true, ◌∷◌, length,
}
use mathlib.Core.Path.{subst}
use mathlib.Core.List.{Memᴰ}
use nimble_xchain_contracts.Xchain.{Bytes}
use nimble_xchain_contracts.Xchain.Transfers.{order_of}
use nimble_xchain_contracts.Network.{Message, Wormhole, Asked, Network, set_at}
use nimble_xchain_contracts.Network.Posted.{Posting}
use nimble_xchain_contracts.Network.Linked.{set_at_elim, set_at_same, Carries, IsLinked}

module _ {W : Type 0} (k : Wormhole W) where
  module _ (n : Network W) (c target_chain batch_id sequence : ℕ) (recipient : Bytes) (w' : W)
      (long : length recipient ≡ 32)
      (p : Posting k c
        (n.contracts c)
        target_chain
        batch_id
        recipient
        sequence
        (n.worlds c)
        w') where
    abbrev pub asked_now : Asked
    asked_now = record {
      source = c;
      sequence = sequence;
      target_chain = target_chain;
      recipient = recipient;
    }

    abbrev message_now : Message
    message_now = record {
      from = k.emitter c;
      sequence = sequence;
      order = order_of (n.contracts c) p.token p.amount target_chain batch_id recipient p.fee;
    }

    now_Carries : IsLinked k n → Carries k message_now asked_now
    unfolding order_of
    now_Carries v = record {
      from = refl;
      sequence = refl;
      target_chain = refl;
      target_contract = elim (v.registered c target_chain) [
        | inl unset ↦ absurd (ground (arith, p.registered))
        | inr set ↦ set
      ];
      payload = refl;
      long = long;
    }

    now_posted :
        (d : ℕ) (x : Message) → k.posted (n.worlds d) x → k.posted (set_at c w' n.worlds d) x
    now_posted d x h =
        set_at_elim (λ w. k.posted w x) c w' n.worlds d
          (λ same. (p.posted x).1 (inr (subst (λ e. k.posted (n.worlds e) x) same h))) (λ _. h)

    now_numbered :
        IsLinked k n
        → (x y : Message) → k.posted w' x
        → k.posted w' y
        → x.sequence ≡ y.sequence
        → x ≡ y
    now_numbered v x y hx hy same = elim ((p.posted x).0 hx) [
      | inl x_new ↦ elim ((p.posted y).0 hy) [
        | inl y_new ↦ x_new ∙ sym y_new
        | inr y_old ↦ absurd (p.unused y y_old (sym same ∙ ap (λ z. z.sequence) x_new))
      ]
      | inr x_old ↦ elim ((p.posted y).0 hy) [
        | inl y_new ↦ absurd (p.unused x x_old (same ∙ ap (λ z. z.sequence) y_new))
        | inr y_old ↦ v.numbered c x y x_old y_old same
      ]
    ]

    -- What was asked for before has another number.
    pub new_number :
        IsLinked k n → (a : Asked) → Memᴰ a n.asked → a.source ≡ c → a.sequence ≢ sequence
    new_number v a is_asked from_here same =
        let (x, is_posted, carries) = v.posted a is_asked in
        p.unused x (subst (λ e. k.posted (n.worlds e) x) from_here is_posted)
          (carries.sequence ∙ same)

    now_distinct :
        IsLinked k n
        → (a b : Asked) → Memᴰ a (asked_now ∷ n.asked)
        → Memᴰ b (asked_now ∷ n.asked)
        → a.source ≡ b.source
        → a.sequence ≡ b.sequence
        → a ≡ b
    now_distinct v a b (Memᴰ.head ea) (Memᴰ.head eb) source same = ea ∙ sym eb
    now_distinct v a b (Memᴰ.head ea) (Memᴰ.tail hb) source same = absurd (
        new_number v b hb (sym source ∙ ap (λ z. z.source) ea) (sym same ∙ ap (λ z. z.sequence) ea))
    now_distinct v a b (Memᴰ.tail ha) (Memᴰ.head eb) source same =
        absurd (new_number v a ha (source ∙ ap (λ z. z.source) eb) (same ∙ ap (λ z. z.sequence) eb))
    now_distinct v a b (Memᴰ.tail ha) (Memᴰ.tail hb) source same = v.distinct a b ha hb source same

    now_carried :
        IsLinked k n
        → (x : Message) → k.posted w' x
        → x.from ≡ k.emitter c
        → (a : Asked) × Memᴰ a (asked_now ∷ n.asked) × (a.source ≡ c) × Carries k x a
    now_carried v x is_posted own = elim ((p.posted x).0 is_posted) [
      | inl is_new ↦ (
        asked_now,
        Memᴰ.head refl,
        refl,
        subst (λ y. Carries k y asked_now) (sym is_new) (now_Carries v),
      )
      | inr is_old ↦
          let (a, is_asked, here, carries) = v.carried c x is_old own in
          (a, Memᴰ.tail is_asked, here, carries)
    ]

    now_asked :
        IsLinked k n
        → (a : Asked) → Memᴰ a (asked_now ∷ n.asked)
        → (x : Message) × k.posted (set_at c w' n.worlds a.source) x × Carries k x a
    now_asked v a (Memᴰ.head e) =
        rw (e, set_at_same c w' n.worlds)
          (message_now, (p.posted message_now).1 (inl refl), now_Carries v)
    now_asked v a (Memᴰ.tail h) =
        let (x, is_posted, carries) = v.posted a h in (x, now_posted a.source x is_posted, carries)

    pub Posting-IsLinked :
        IsLinked k n
        → IsLinked k (record n { worlds = set_at c w' n.worlds; asked = asked_now ∷ n.asked })
    Posting-IsLinked v = record {
      registered = v.registered;
      numbered = λ d x y.
          set_at_elim (λ w. k.posted w x → k.posted w y → x.sequence ≡ y.sequence → x ≡ y) c w'
            n.worlds d (λ _. now_numbered v x y) (λ _. v.numbered d x y);
      published = λ e d s h.
          let old : (x : Message) × k.posted (n.worlds d) x × (x.sequence ≡ s) =
            set_at_elim
              (λ w.
                k.claimed w d s ≡ true → (x : Message) × k.posted (n.worlds d) x × (x.sequence ≡ s))
              c w' n.worlds e (λ _ h'. v.published c d s (ap (λ f. f d s) (sym p.claimed) ∙ h'))
              (λ _. v.published e d s) h in
          (old.0, now_posted d old.0 old.1, old.2);
      carried = λ d x.
          set_at_elim
            (λ w.
              k.posted w x
              → x.from ≡ k.emitter d
              → (a : Asked) × Memᴰ a (asked_now ∷ n.asked) × (a.source ≡ d) × Carries k x a)
            c w' n.worlds d
            (λ same is_posted own.
              let (a, is_asked, here, carries) =
                now_carried v x is_posted (own ∙ ap k.emitter same) in
              (a, is_asked, here ∙ sym same, carries))
            (λ _ is_posted own.
              let (a, is_asked, here, carries) = v.carried d x is_posted own in
              (a, Memᴰ.tail is_asked, here, carries));
      posted = now_asked v;
      distinct = now_distinct v;
    }
