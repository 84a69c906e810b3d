-- ===== src/Xchain/Fees.antt =====
-- The relayer's fee, as the contract and as the Solana program compute it, and the amount that the
-- token bridge normalizes. `SafeMath` is OpenZeppelin's and a parameter.
pub mod Checked
pub mod Share
use nimble_xchain_contracts.Prelude.{
  ℕ, ◌+◌, ◌-◌, ◌*◌, ◌/◌, ◌^◌, ◌<◌, ◌≤◌, ◌≡◌, ◌==◌, ltb, leb, Bool, true, false, if◌then◌else◌,
}
use nimble_xchain_contracts.Js.{Text, text, Outcome, ok, throws, error, ◌>>=◌}
use nimble_xchain_contracts.Xchain.{Bytes, State, require}
use nimble_xchain_contracts.Xchain.Governance.{◌>>◌}

-- `@openzeppelin/contracts/utils/math/SafeMath.sol`: a flag for success, and the value.
pub record SafeMath : Type 0 where
  pub try_sub : ℕ → ℕ → Bool × ℕ
  pub try_mul : ℕ → ℕ → Bool × ℕ
  pub try_div : ℕ → ℕ → Bool × ℕ

abbrev pub uint256_mod : ℕ
uint256_mod = 2 ^ 256

abbrev pub uint64_mod : ℕ
uint64_mod = 2 ^ 64

-- What its documentation says.
pub record Documented (m : SafeMath) : Type 0 where
  pub sub : (a b : ℕ) → b ≤ a → m.try_sub a b ≡ (true, a - b)
  pub sub_fails : (a b : ℕ) → a < b → (m.try_sub a b).0 ≡ false
  pub mul : (a b : ℕ) → a * b < uint256_mod → m.try_mul a b ≡ (true, a * b)
  pub mul_fails : (a b : ℕ) → uint256_mod ≤ a * b → (m.try_mul a b).0 ≡ false
  pub div : (a b : ℕ) → 0 < b → m.try_div a b ≡ (true, a / b)
  pub div_fails : (a : ℕ) → (m.try_div a 0).0 ≡ false

-- `(flag, value) = …; require(flag == true, message)`
abbrev pub checked : Bool × ℕ → Text → Outcome ℕ
checked (true, n) message = ok n
checked (false, n) message = throws (error message)

unfoldable pub calculate_relayer_fee : SafeMath → State → ℕ → Outcome ℕ
calculate_relayer_fee m st amount = do
  product ← checked (m.try_mul amount st.relayer_fee_percentage) (text "Mul failed")
  checked (m.try_div product st.fee_precision) (text "Div failed")

-- The power is checked, as all arithmetic of Solidity 0.8 is, before the division.
unfoldable pub normalize_amount : ℕ → ℕ → Outcome ℕ
normalize_amount amount decimals =
    if ltb 8 decimals
    then if leb uint256_mod (10 ^ (decimals - 8))
      then throws (error (text "arithmetic overflow"))
      else ok (amount / 10 ^ (decimals - 8))
    else ok amount

-- The fields of Solana's `RedeemerConfig` that are read: the owner and the fee.
pub record RedeemerConfig : Type 0 where
  pub owner : Bytes
  pub relayer_fee : ℕ
  pub relayer_fee_precision : ℕ

-- The fields of the contract's state that it is meant to agree with.
abbrev pub config_of : State → RedeemerConfig
config_of st = record {
  owner = st.owner;
  relayer_fee = st.relayer_fee_percentage;
  relayer_fee_precision = st.fee_precision;
}

-- The program is built with overflow checks, so that `*` panics; `/` panics on zero.
unfoldable pub compute_relayer_amount : RedeemerConfig → ℕ → Outcome ℕ
compute_relayer_amount c amount =
    if leb uint64_mod (amount * c.relayer_fee)
    then throws (error (text "attempt to multiply with overflow"))
    else if c.relayer_fee_precision == 0
    then throws (error (text "attempt to divide by zero"))
    else ok (amount * c.relayer_fee / c.relayer_fee_precision)
