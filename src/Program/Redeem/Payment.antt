-- ===== src/Program/Redeem/Payment.antt =====
-- What the payment of a redemption on Solana moves.
use nimble_xchain_contracts.Prelude.{
  ℕ, ◌+◌, ◌-◌, ◌≤◌, ◌≡◌, ◌∙◌, refl, sym, ap, arith, leb, ltb, Bool-cases, inl, inr, if◌then◌else◌,
}
use nimble_xchain_contracts.Js.{text, text_eq, Outcome, ok, returned, ok_injective}
use nimble_xchain_contracts.Xchain.{Bytes, require}
use nimble_xchain_contracts.Xchain.Fees.{compute_relayer_amount}
use nimble_xchain_contracts.Xchain.Transfers.Settled.{amount_if, Paid}
use nimble_xchain_contracts.Program.Redeem.{Context, Bank, pay_relayer, pay_both, pay_out}

-- SPL tokens: a transfer moves its amount. `ledger` is the balance of each token account.
abbrev pub Moves : {W : Type 0} → Bank W → (W → Bytes → ℕ) → Type 0
Moves {W} bank ledger =
    (from to : Bytes) (n : ℕ) (w w' : W)
    → bank.transfer from to n w ≡ ok w'
    → (who : Bytes)
    → ledger w' who + amount_if (text_eq who from) n ≡ ledger w who + amount_if (text_eq who to) n

-- The relayer's part of an amount: nothing where the recipient redeems.
abbrev pub part_of : Context → ℕ → Outcome ℕ
part_of c amount =
    if text_eq c.named.payer c.named.recipient then ok 0 else compute_relayer_amount c.config amount

module _ {W : Type 0} (bank : Bank W) (ledger : W → Bytes → ℕ) (moves : Moves bank ledger) where
  pay_relayer_moves :
      (c : Context) (n : ℕ) (w w' : W)
      → pay_relayer bank c n w ≡ ok w'
      → (who : Bytes)
      → ledger w' who + amount_if (text_eq who c.named.tmp_token_account) n
        ≡ ledger w who + amount_if (text_eq who c.named.payer_token_account) n
  unfolding pay_relayer
  pay_relayer_moves c n w w' pays who = elim (Bool-cases (ltb 0 n)) [
    | inl some_tokens ↦
        moves c.named.tmp_token_account c.named.payer_token_account n w w'
          (ap
              (λ b.
                if b
                then bank.transfer c.named.tmp_token_account c.named.payer_token_account n w
                else ok w)
              (sym some_tokens)
            ∙ pays)
          who
    | inr nothing ↦
        let none : n ≡ 0 = ground arith in
        let same : w ≡ w' = ok_injective (
          ap
            (λ b.
              if b
              then bank.transfer c.named.tmp_token_account c.named.payer_token_account n w
              else ok w)
            (sym nothing)
          ∙ pays) in
        rw (none, same) (ground arith)
  ]

  pay_both-Paid :
      (c : Context) (amount : ℕ) (w w' : W)
      → pay_both bank c amount w ≡ ok w'
      → (part : ℕ) × (compute_relayer_amount c.config amount ≡ ok part)
        × Paid ledger c.named.tmp_token_account c.named.payer_token_account
            c.named.recipient_token_account amount part w w'
  unfolding pay_both
  pay_both-Paid c amount w w' gives =
      let (_, h1, has) =
        returned _ w'
          (require (bank.has_account w c.named.payer_token_account) (text "NonExistentRelayerAta"))
          gives in
      let (part, h2, computed) = returned _ w' (compute_relayer_amount c.config amount) h1 in
      let (w1, h3, first) = returned _ w' (pay_relayer bank c part w) h2 in
      let (_, last, within) =
        returned _ w' (require (leb part amount) (text "InvalidCalculation")) h3 in
      let below : part ≤ amount = ground arith in
      (
        part,
        computed,
        record {
          within = below;
          moves = λ who. ground (
            arith,
            pay_relayer_moves c part w w1 first who,
            moves c.named.tmp_token_account c.named.recipient_token_account (amount - part) w1 w'
                last who,
          );
        },
      )

  pub pay_out-Paid :
      (c : Context) (amount : ℕ) (w w' : W)
      → pay_out bank c amount w ≡ ok w'
      → (part : ℕ) × (part_of c amount ≡ ok part)
        × Paid ledger c.named.tmp_token_account c.named.payer_token_account
            c.named.recipient_token_account amount part w w'
  unfolding pay_out
  pay_out-Paid c amount w w' gives = elim (Bool-cases (text_eq c.named.payer c.named.recipient)) [
    | inl own ↦
        let first : bank.transfer c.named.tmp_token_account c.named.recipient_token_account amount w
            ≡ ok w' =
          ground arith in
        (
          0,
          rw own refl,
          record {
            within = omega arith;
            moves = λ who. ground (
              arith,
              moves c.named.tmp_token_account c.named.recipient_token_account amount w w' first who,
            );
          },
        )
    | inr other ↦ rw other (pay_both-Paid c amount w w' (ground arith))
  ]
