-- ===== src/Network/Linked.antt =====
-- What holds of every network that is reached: the messages of the contracts are what users asked for.
use nimble_xchain_contracts.Prelude.{
  ℕ, ◌==◌, ◌≡◌, ◌≢◌, ◌⊎◌, refl, sym, ◌∙◌, ap, inl, inr, arith, Bool-cases, true, length,
}
use mathlib.Core.Path.{subst}
use mathlib.Core.List.{Memᴰ}
use mathlib.Core.List.Memᴰ
use nimble_xchain_contracts.Xchain.{all_zero}
use nimble_xchain_contracts.Xchain.Messages.{encode_payload}
use nimble_xchain_contracts.Network.{Message, Wormhole, Asked, Network, set_at, Grows, Initial}

pub set_at_elim {κ} :
    {A : Type 0} (P : A → Type κ) (c : ℕ) (a : A) (f : ℕ → A) (d : ℕ)
    → (d ≡ c → P a)
    → (d ≢ c → P (f d))
    → P (set_at c a f d)
set_at_elim P c a f d here there = elim (Bool-cases (d == c)) [
  | inl own ↦ rw own (here (ground arith))
  | inr other ↦ rw other (there (ground arith))
]

pub set_at_same : {A : Type 0} (c : ℕ) (a : A) (f : ℕ → A) → set_at c a f c ≡ a
set_at_same c a f = set_at_elim (λ x. x ≡ a) c a f c (λ _. refl) (λ other. absurd (other refl))

-- The message carries what the user asked for, to the contract of the target chain.
pub record Carries {W : Type 0} (k : Wormhole W) (x : Message) (a : Asked) : Type 0 where
  pub from : x.from ≡ k.emitter a.source
  pub sequence : x.sequence ≡ a.sequence
  pub target_chain : x.order.target_chain ≡ a.target_chain
  pub target_contract : x.order.target_contract ≡ k.emitter a.target_chain
  pub payload :
      x.order.payload ≡ encode_payload (record { payload_id = 1; target_recipient = a.recipient })
  pub long : length a.recipient ≡ 32

module _ {W : Type 0} (k : Wormhole W) where
  pub record IsLinked (n : Network W) : Type 0 where
    pub registered :
        (c d : ℕ)
        → (all_zero ((n.contracts c).registered_emitters d) ≡ true)
          ⊎ ((n.contracts c).registered_emitters d ≡ k.emitter d)
    pub numbered :
        (c : ℕ) (x y : Message)
        → k.posted (n.worlds c) x
        → k.posted (n.worlds c) y
        → x.sequence ≡ y.sequence
        → x ≡ y
    pub published :
        (c d s : ℕ)
        → k.claimed (n.worlds c) d s ≡ true
        → (x : Message) × k.posted (n.worlds d) x × (x.sequence ≡ s)
    pub carried :
        (c : ℕ) (x : Message)
        → k.posted (n.worlds c) x
        → x.from ≡ k.emitter c
        → (a : Asked) × Memᴰ a n.asked × (a.source ≡ c) × Carries k x a
    pub posted :
        (a : Asked)
        → Memᴰ a n.asked
        → (x : Message) × k.posted (n.worlds a.source) x × Carries k x a
    pub distinct :
        (a b : Asked)
        → Memᴰ a n.asked
        → Memᴰ b n.asked
        → a.source ≡ b.source
        → a.sequence ≡ b.sequence
        → a ≡ b

  pub Initial-IsLinked : (n : Network W) → Initial k n → IsLinked n
  Initial-IsLinked n i = record {
    registered = λ c d. inl (i.none_registered c d);
    numbered = i.numbered;
    published = i.published;
    carried = λ c x is_posted own. absurd (i.none_posted c x is_posted own);
    posted = λ a asked. absurd (Memᴰ.not-nil (rw i.none_asked at asked));
    distinct = λ a b asked _ _ _. absurd (Memᴰ.not-nil (rw i.none_asked at asked));
  }

  module _ (n : Network W) (c : ℕ) (w' : W) (g : Grows k n c w') where
    still_posted :
        (d : ℕ) (x : Message) → k.posted (n.worlds d) x → k.posted (set_at c w' n.worlds d) x
    still_posted d x h =
        set_at_elim (λ w. k.posted w x) c w' n.worlds d
          (λ same. g.kept x (subst (λ e. k.posted (n.worlds e) x) same h)) (λ _. h)

    pub Grows-IsLinked : IsLinked n → IsLinked (record n { worlds = set_at c w' n.worlds })
    Grows-IsLinked v = record {
      registered = v.registered;
      numbered = λ d x y.
          set_at_elim (λ w. k.posted w x → k.posted w y → x.sequence ≡ y.sequence → x ≡ y) c w'
            n.worlds d (λ _. g.numbered x y) (λ _. v.numbered d x y);
      published = λ e d s h.
          let old : (x : Message) × k.posted (n.worlds d) x × (x.sequence ≡ s) =
            set_at_elim
              (λ w.
                k.claimed w d s ≡ true → (x : Message) × k.posted (n.worlds d) x × (x.sequence ≡ s))
              c w' n.worlds e (λ _. g.published d s) (λ _. v.published e d s) h in
          (old.0, still_posted d old.0 old.1, old.2);
      carried = λ d x.
          set_at_elim
            (λ w.
              k.posted w x
              → x.from ≡ k.emitter d
              → (a : Asked) × Memᴰ a n.asked × (a.source ≡ d) × Carries k x a)
            c w' n.worlds d
            (λ same is_posted own.
              v.carried d x
                (subst (λ e. k.posted (n.worlds e) x) (sym same)
                  (g.own x is_posted (own ∙ ap k.emitter same)))
                own)
            (λ _. v.carried d x);
      posted = λ a asked.
          let (x, is_posted, carries) = v.posted a asked in
          (x, still_posted a.source x is_posted, carries);
      distinct = v.distinct;
    }
