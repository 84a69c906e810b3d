-- ===== src/Xchain/Fees/Share.antt =====
-- The fee as a share of the amount, on both kinds of chains.
use nimble_xchain_contracts.Prelude.{
  ℕ, ◌+◌, ◌*◌, ◌/◌, ◌<◌, ◌≤◌, ◌≡◌, ◌↔◌, refl, sym, ap, ◌∙◌, arith, leb, if◌then◌else◌,
}
use nimble_xchain_contracts.Js.{text, ok, throws, error, ok_injective}
use native.Mathlib.Decide.{dec_lt}
use mathlib.Core.Path.{subst}
use nimble_xchain_contracts.Xchain.{Bytes, State}
use nimble_xchain_contracts.Xchain.Governance.{update_relayer_fee}
use nimble_xchain_contracts.Xchain.Fees.Checked.{checked-false}
use nimble_xchain_contracts.Xchain.Fees.{
  SafeMath, Documented, calculate_relayer_fee, config_of, compute_relayer_amount, uint256_mod,
  uint64_mod,
}

-- `fee` is the amount's share `percentage / precision`, rounded down.
pub record IsShare (percentage precision amount fee : ℕ) : Type 0 where
  pub whole : fee * precision ≤ amount * percentage
  pub rounded : amount * percentage < (fee + 1) * precision

pub div-IsShare :
    (percentage precision amount : ℕ)
    → 0 < precision
    → IsShare percentage precision amount (amount * percentage / precision)
div-IsShare percentage precision amount h = ground arith

IsShare-unique :
    (percentage precision amount a b : ℕ)
    → IsShare percentage precision amount a
    → IsShare percentage precision amount b
    → a ≡ b
IsShare-unique percentage precision amount a b x y = grind arith

module _ (m : SafeMath) (laws : Documented m) (st : State) (amount : ℕ) where
  pub calculated :
      0 < st.fee_precision
      → amount * st.relayer_fee_percentage < uint256_mod
      → calculate_relayer_fee m st amount
        ≡ ok (amount * st.relayer_fee_percentage / st.fee_precision)
  unfolding calculate_relayer_fee
  calculated h k =
      rw (laws.mul amount st.relayer_fee_percentage k)
        (rw (laws.div (amount * st.relayer_fee_percentage) st.fee_precision h) refl)

  overflowed :
      uint256_mod ≤ amount * st.relayer_fee_percentage
      → calculate_relayer_fee m st amount ≡ throws (error (text "Mul failed"))
  unfolding calculate_relayer_fee
  overflowed k =
      rw
        (checked-false (m.try_mul amount st.relayer_fee_percentage) (text "Mul failed")
          (laws.mul_fails amount st.relayer_fee_percentage k))
        refl

  -- With a precision above zero the contract computes a fee exactly if the product of amount and
  -- percentage fits in 256 bits, and it is the amount's share, rounded down.
  pub calculate_relayer_fee-IsShare :
      (fee : ℕ)
      → 0 < st.fee_precision
      → (calculate_relayer_fee m st amount ≡ ok fee) ↔ (
          IsShare st.relayer_fee_percentage st.fee_precision amount fee
          × (amount * st.relayer_fee_percentage < uint256_mod))
  calculate_relayer_fee-IsShare fee h =
      let exact = div-IsShare st.relayer_fee_percentage st.fee_precision amount h in
      elim (dec_lt (amount * st.relayer_fee_percentage) uint256_mod) [
        | yes fits ↦ (
          λ gives. (
            subst (IsShare st.relayer_fee_percentage st.fee_precision amount)
                (ok_injective (sym (calculated h fits) ∙ gives)) exact,
            fits,
          ),
          λ given.
              calculated h fits
              ∙ ap ok (
                  IsShare-unique st.relayer_fee_percentage st.fee_precision amount _ fee exact
                    given.0),
        )
        | no large ↦ (
          λ gives. absurd (let none = overflowed (omega arith) in cc),
          λ given. absurd (large given.1),
        )
      ]

  -- For the same fee, with a precision above zero, the Solana program computes what the contract
  -- computes, but panics where the product does not fit in 64 bits.
  pub compute_relayer_amount-calculate_relayer_fee :
      0 < st.fee_precision
      → compute_relayer_amount (config_of st) amount ≡ (
          if leb uint64_mod (amount * st.relayer_fee_percentage)
          then throws (error (text "attempt to multiply with overflow"))
          else calculate_relayer_fee m st amount)
  unfolding compute_relayer_amount
  compute_relayer_amount-calculate_relayer_fee h = ground (arith, calculated h)

update_relayer_fee_sets :
    (sender : Bytes) (percentage precision : ℕ) (s t : State)
    → update_relayer_fee sender percentage precision s ≡ ok t
    → (t.relayer_fee_percentage ≡ percentage)
      × (t.fee_precision ≡ precision)
      × (percentage < precision)
unfolding update_relayer_fee
update_relayer_fee_sets sender percentage precision s t h = ground arith

IsShare-lt :
    (percentage precision amount fee : ℕ)
    → IsShare percentage precision amount fee
    → percentage < precision
    → 0 < amount
    → fee < amount
IsShare-lt percentage precision amount fee v h k = grind arith

-- After updateRelayerFee has succeeded, a fee is computed for every amount above zero whose
-- product with the percentage fits in 256 bits, and it is less than the amount.
pub update_relayer_fee-calculate_relayer_fee :
    (m : SafeMath) (laws : Documented m) (sender : Bytes) (percentage precision amount : ℕ)
    (s t : State)
    → update_relayer_fee sender percentage precision s ≡ ok t
    → 0 < amount
    → amount * percentage < uint256_mod
    → (fee : ℕ) × (calculate_relayer_fee m t amount ≡ ok fee) × (fee < amount)
update_relayer_fee-calculate_relayer_fee m laws sender percentage precision amount s t set
      some_tokens fits =
    let (p, q, below) = update_relayer_fee_sets sender percentage precision s t set in
    let positive : 0 < t.fee_precision = omega arith in
    (
      amount * t.relayer_fee_percentage / t.fee_precision,
      calculated m laws t amount positive (rw p fits),
      IsShare-lt t.relayer_fee_percentage t.fee_precision amount _
          (div-IsShare t.relayer_fee_percentage t.fee_precision amount positive) (omega arith)
          some_tokens,
    )
