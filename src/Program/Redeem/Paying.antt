-- ===== src/Program/Redeem/Paying.antt =====
-- When the payment of a redemption goes through, out of the temporary account.
use nimble_xchain_contracts.Prelude.{
  ℕ, ◌+◌, ◌-◌, ◌≤◌, ◌≡◌, ◌∙◌, refl, sym, ap, arith, leb, ltb, true, false, Bool-cases, inl, inr,
  ◌||◌,
}
use nimble_xchain_contracts.Js.{text_eq, text_eq_refl, ok, returned, ok_injective}
use nimble_xchain_contracts.Xchain.{Bytes, require, required}
use nimble_xchain_contracts.Xchain.Fees.{compute_relayer_amount}
use nimble_xchain_contracts.Program.Redeem.{Context, Bank, pay_relayer, pay_both, pay_out}
use nimble_xchain_contracts.Program.Redeem.Payment.{Moves, part_of}

-- SPL tokens, for an account that the program may move and close: a transfer needs an account to go
-- to and the amount in the account that it leaves, and an account is closed when, and only
-- when, it is empty, which holds of every mint but that of wrapped SOL.
pub record Spl {W : Type 0} (bank : Bank W) (ledger : W → Bytes → ℕ) (tmp : Bytes) : Type 0 where
  pub moves : Moves bank ledger
  pub pays :
      (to : Bytes) (n : ℕ) (w : W)
      → bank.has_account w to ≡ true
      → n ≤ ledger w tmp
      → (w' : W) × (bank.transfer tmp to n w ≡ ok w')
  pub needs :
      (to : Bytes) (n : ℕ) (w w' : W)
      → bank.transfer tmp to n w ≡ ok w'
      → bank.has_account w to ≡ true
  pub keeps :
      (to : Bytes) (n : ℕ) (w w' : W)
      → bank.transfer tmp to n w ≡ ok w'
      → (account : Bytes) → bank.has_account w' account ≡ bank.has_account w account
  pub closes :
      (to : Bytes) (w : W) → ledger w tmp ≡ 0 → (w' : W) × (bank.close_account tmp to w ≡ ok w')
  pub closes_empty :
      (to : Bytes) (w w' : W) → bank.close_account tmp to w ≡ ok w' → ledger w tmp ≡ 0

module _ {W : Type 0} (bank : Bank W) (ledger : W → Bytes → ℕ) (c : Context)
    (spl : Spl bank ledger c.named.tmp_token_account)
    (not_recipients : text_eq c.named.tmp_token_account c.named.recipient_token_account ≡ false)
    (not_payers : text_eq c.named.tmp_token_account c.named.payer_token_account ≡ false) where
  -- A transfer out of the temporary account leaves the rest there.
  left_over :
      (to : Bytes) (n : ℕ) (w w' : W)
      → text_eq c.named.tmp_token_account to ≡ false
      → bank.transfer c.named.tmp_token_account to n w ≡ ok w'
      → ledger w' c.named.tmp_token_account + n ≡ ledger w c.named.tmp_token_account
  left_over to n w w' other gives =
      let moved = spl.moves c.named.tmp_token_account to n w w' gives c.named.tmp_token_account in
      let own = text_eq_refl c.named.tmp_token_account in ground (arith, moved, own, other)

  pay_relayer_succeeds :
      (part : ℕ) (w : W)
      → bank.has_account w c.named.payer_token_account ≡ true
      → part ≤ ledger w c.named.tmp_token_account
      → (w' : W) × (pay_relayer bank c part w ≡ ok w')
        × (ledger w' c.named.tmp_token_account + part ≡ ledger w c.named.tmp_token_account)
        × ((account : Bytes) → bank.has_account w' account ≡ bank.has_account w account)
  unfolding pay_relayer
  pay_relayer_succeeds part w exists enough = elim (Bool-cases (ltb 0 part)) [
    | inl some_tokens ↦
        let (w', gives) = spl.pays c.named.payer_token_account part w exists enough in
        (
          w',
          rw some_tokens gives,
          left_over c.named.payer_token_account part w w' not_payers gives,
          spl.keeps c.named.payer_token_account part w w' gives,
        )
    | inr nothing ↦ (w, rw nothing refl, ground (arith, nothing), λ account. refl)
  ]

  pay_both_succeeds :
      (amount part : ℕ) (w : W)
      → bank.has_account w c.named.payer_token_account ≡ true
      → bank.has_account w c.named.recipient_token_account ≡ true
      → compute_relayer_amount c.config amount ≡ ok part
      → part ≤ amount
      → ledger w c.named.tmp_token_account ≡ amount
      → (w' : W) × (pay_both bank c amount w ≡ ok w') × (ledger w' c.named.tmp_token_account ≡ 0)
  unfolding pay_both
  pay_both_succeeds amount part w payer_exists exists computed within full =
      let (w1, first, rest, kept) = pay_relayer_succeeds part w payer_exists (omega arith) in
      let still : bank.has_account w1 c.named.recipient_token_account ≡ true =
        kept c.named.recipient_token_account ∙ exists in
      let (w', last) =
        spl.pays c.named.recipient_token_account (amount - part) w1 still (omega arith) in
      let empties =
        left_over c.named.recipient_token_account (amount - part) w1 w' not_recipients last in
      let below : leb part amount ≡ true = ground (arith, within) in
      (w', rw (payer_exists, computed, first, below) last, omega arith)

  pub pay_out_succeeds :
      (amount part : ℕ) (w : W)
      → (text_eq c.named.payer c.named.recipient || bank.has_account w c.named.payer_token_account)
        ≡ true
      → bank.has_account w c.named.recipient_token_account ≡ true
      → part_of c amount ≡ ok part
      → part ≤ amount
      → ledger w c.named.tmp_token_account ≡ amount
      → (w' : W) × (pay_out bank c amount w ≡ ok w') × (ledger w' c.named.tmp_token_account ≡ 0)
  unfolding pay_out
  pay_out_succeeds amount part w relayer_exists exists computed within full =
      elim (Bool-cases (text_eq c.named.payer c.named.recipient)) [
        | inl own ↦
            let (w', last) =
              spl.pays c.named.recipient_token_account amount w exists (omega arith) in
            let empties =
              left_over c.named.recipient_token_account amount w w' not_recipients last in
            (w', rw own last, omega arith)
        | inr other ↦
            let (w', gives, empties) =
              pay_both_succeeds amount part w (rw other at relayer_exists) exists
                (rw other at computed) within full in
            (w', rw other gives, empties)
      ]

  pay_relayer_keeps :
      (part : ℕ) (w w' : W)
      → pay_relayer bank c part w ≡ ok w'
      → (account : Bytes) → bank.has_account w' account ≡ bank.has_account w account
  unfolding pay_relayer
  pay_relayer_keeps part w w' gives account = elim (Bool-cases (ltb 0 part)) [
    | inl some_tokens ↦
        spl.keeps c.named.payer_token_account part w w' (rw some_tokens at gives) account
    | inr nothing ↦
        let same : w ≡ w' = ok_injective (rw nothing at gives) in
        ap (λ x. bank.has_account x account) (sym same)
  ]

  pay_both_needs :
      (amount : ℕ) (w w' : W)
      → pay_both bank c amount w ≡ ok w'
      → (bank.has_account w c.named.payer_token_account ≡ true)
        × (bank.has_account w c.named.recipient_token_account ≡ true)
  unfolding pay_both
  pay_both_needs amount w w' gives =
      let (_, h1, has) =
        returned _ w' (require (bank.has_account w c.named.payer_token_account) _) gives in
      let (part, h2, _) = returned _ w' (compute_relayer_amount c.config amount) h1 in
      let (w1, h3, first) = returned _ w' (pay_relayer bank c part w) h2 in
      let (_, last, _) = returned _ w' (require (leb part amount) _) h3 in
      (
        required _ _ has,
        sym (pay_relayer_keeps part w w1 first c.named.recipient_token_account)
            ∙ spl.needs c.named.recipient_token_account (amount - part) w1 w' last,
      )

  pub pay_out_needs :
      (amount : ℕ) (w w' : W)
      → pay_out bank c amount w ≡ ok w'
      → ((text_eq c.named.payer c.named.recipient || bank.has_account w c.named.payer_token_account)
          ≡ true)
        × (bank.has_account w c.named.recipient_token_account ≡ true)
  unfolding pay_out
  pay_out_needs amount w w' gives = elim (Bool-cases (text_eq c.named.payer c.named.recipient)) [
    | inl own ↦
        (rw own refl, spl.needs c.named.recipient_token_account amount w w' (rw own at gives))
    | inr other ↦
        let (payer, recipient) = pay_both_needs amount w w' (rw other at gives) in
        (rw (other, payer) refl, recipient)
  ]
