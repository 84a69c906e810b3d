-- ===== src/Xchain/Transfers/Ledger.antt =====
-- A token whose balances are a function and whose transfers move the whole amount: what the theorems on
-- transfers are applied to.
use nimble_xchain_contracts.Prelude.{
  ℕ, ◌+◌, ◌-◌, ◌≤◌, ◌≡◌, sym, ap, arith, leb, Bool-cases, inl, inr, if◌then◌else◌,
}
use nimble_xchain_contracts.Js.{
  text, text_eq, text_eq_sound, ok_injective, Outcome, ok, throws, error,
}
use nimble_xchain_contracts.Xchain.{Bytes}
use nimble_xchain_contracts.Xchain.Transfers.Settled.{amount_if}

-- The balances of the token.
abbrev pub Ledger : Type 0
Ledger = Bytes → ℕ

abbrev pub paid_to : (from to : Bytes) → ℕ → Ledger → Ledger
paid_to from to n l who = l who + amount_if (text_eq who to) n - amount_if (text_eq who from) n

abbrev pub move : (from to : Bytes) → ℕ → Ledger → Outcome Ledger
move from to n l =
    if leb n (l from)
    then ok (paid_to from to n l)
    else throws (error (text "ERC20: transfer amount exceeds balance"))

pub moved_by :
    (from to who : Bytes) (n : ℕ) (l : Ledger)
    → n ≤ l from
    → paid_to from to n l who + amount_if (text_eq who from) n
      ≡ l who + amount_if (text_eq who to) n
moved_by from to who n l enough = elim (Bool-cases (text_eq who from)) [
  | inl own ↦ let same : l who ≡ l from = ap l (text_eq_sound who from own) in rw own (omega arith)
  | inr other ↦ rw other (omega arith)
]

pub move_lem :
    (from to : Bytes) (n : ℕ) (l l' : Ledger)
    → move from to n l ≡ ok l'
    → (who : Bytes) → l' who + amount_if (text_eq who from) n ≡ l who + amount_if (text_eq who to) n
move_lem from to n l l' moves who = elim (Bool-cases (leb n (l from))) [
  | inl enough ↦
      let same : paid_to from to n l ≡ l' = ok_injective (rw enough at moves) in
      rw (sym same) (moved_by from to who n l (ground arith))
  | inr short ↦ absurd (ground arith)
]
