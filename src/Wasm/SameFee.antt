-- ===== src/Wasm/SameFee.antt =====
-- The fee and the normalized amount on Injective are those of the EVM chains, where they fit.
use nimble_xchain_contracts.Prelude.{
  ℕ, ◌*◌, ◌-◌, ◌/◌, ◌^◌, ◌<◌, ◌≤◌, ◌≡◌, refl, sym, ◌∙◌, ap, Bool, ltb, leb, Bool-cases, inl, inr,
  ◌&&◌, true, false, Option, arith, if◌then◌else◌,
}
use native.Mathlib.Nat.{div-one, mul-le-mul, mul-le-mul_left, le_of_mul-le-mul_right}
use nimble_xchain_contracts.Js.{text, Error, ok, throws, error}
use nimble_xchain_contracts.Xchain.{Bytes}
use nimble_xchain_contracts.Xchain.Fees.{SafeMath, Documented, uint256_mod}
use nimble_xchain_contracts.Xchain.Fees as Evm
use nimble_xchain_contracts.Xchain.Fees.Share.{div-IsShare, calculated}
use nimble_xchain_contracts.Wasm.{StateInfo}
use nimble_xchain_contracts.Wasm.SameState.{stored, seen}
use nimble_xchain_contracts.Wasm.Transfers.{
  uint128_mod, Querier, calculate_relayer_fee, normalize_amount,
}

-- `Uint128::multiply_ratio`, as cosmwasm-std documents it.
abbrev pub IsRatio : {W : Type 0} → Querier W → Type 0
IsRatio q =
    (a numerator denominator : ℕ)
    → 0 < denominator
    → a * numerator / denominator < uint128_mod
    → q.multiply_ratio a numerator denominator ≡ ok (a * numerator / denominator)

product_fits : (a p : ℕ) → a < uint128_mod → p < 2 ^ 32 → a * p < uint256_mod
product_fits a p ha hp =
    let below : a * p ≤ uint128_mod * 2 ^ 32 =
      mul-le-mul {n₂ = uint128_mod} {m₂ = 2 ^ 32} (omega arith) (omega arith) in
    omega arith

share_fits : (a p d : ℕ) → 0 < d → p ≤ d → a * p / d ≤ a
share_fits a p d positive below =
    let whole = (div-IsShare p d a positive).whole in
    le_of_mul-le-mul_right {k = d} (omega (arith, mul-le-mul_left a below)) positive

-- With SafeMath and multiply_ratio as documented, a fee percentage below a precision of 32 bits
-- gives the same fee on Injective and on an EVM chain, for every amount of 128 bits.
pub calculate_relayer_fee-calculate_relayer_fee :
    {W : Type 0} (q : Querier W) (m : SafeMath)
    → IsRatio q
    → Documented m
    → (wormhole token_bridge : Bytes) (info : StateInfo) (emitters : ℕ → Option Bytes) (amount : ℕ)
    → amount < uint128_mod
    → info.fee_precision < 2 ^ 32
    → info.relayer_fee_percentage < info.fee_precision
    → calculate_relayer_fee q amount (stored info emitters)
      ≡ Evm.calculate_relayer_fee m (seen wormhole token_bridge info emitters) amount
unfolding calculate_relayer_fee
calculate_relayer_fee-calculate_relayer_fee q m ratio laws wormhole token_bridge info emitters
      amount fits sized below =
    let positive : 0 < info.fee_precision = omega arith in
    let within =
      share_fits amount info.relayer_fee_percentage info.fee_precision positive (omega arith) in
    ratio amount info.relayer_fee_percentage info.fee_precision positive (omega arith)
    ∙ sym (
        calculated m laws (seen wormhole token_bridge info emitters) amount positive
          (product_fits amount info.relayer_fee_percentage fits (omega arith)))

divided :
    (large : Bool) (amount power : ℕ) (e : Error)
    → (if large
        then if leb uint128_mod power then throws e else ok (amount / power)
        else ok (amount / 1))
      ≡ (if large && leb uint128_mod power
          then throws e
          else if large
          then if leb uint256_mod power
            then throws (error (text "arithmetic overflow"))
            else ok (amount / power)
          else ok amount)
divided false amount power e = ap ok (div-one amount)
divided true amount power e = elim (Bool-cases (leb uint128_mod power)) [
  | inl beyond ↦ rw beyond refl
  | inr within ↦
      let fits : leb uint256_mod power ≡ false = ground (arith, within) in rw (within, fits) refl
]

-- An amount is normalized as on an EVM chain, but for decimals whose power of ten does not fit in
-- 128 bits, where Injective panics.
pub normalize_amount-normalize_amount :
    (amount decimals : ℕ)
    → normalize_amount amount decimals ≡ (
        if ltb 8 decimals && leb uint128_mod (10 ^ (decimals - 8))
        then throws (error (text "attempt to multiply with overflow"))
        else Evm.normalize_amount amount decimals)
unfolding normalize_amount Evm.normalize_amount
normalize_amount-normalize_amount amount decimals =
    divided (ltb 8 decimals) amount (10 ^ (decimals - 8)) _
