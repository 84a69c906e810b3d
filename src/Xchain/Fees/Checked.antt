-- ===== src/Xchain/Fees/Checked.antt =====
-- What a `require` on a flag of SafeMath says.
use nimble_xchain_contracts.Prelude.{ℕ, ◌+◌, ◌≤◌, ◌≡◌, refl, arith, Bool, true, false}
use native.Mathlib.Decide.{dec_lt}
use nimble_xchain_contracts.Js.{Text, ok, throws, error}
use nimble_xchain_contracts.Xchain.Fees.{SafeMath, Documented, checked}

pub checked-false :
    (p : Bool × ℕ) (message : Text) → p.0 ≡ false → checked p message ≡ throws (error message)
checked-false (true, n) message h = ground arith
checked-false (false, n) message h = refl

pub checked-try_sub :
    (m : SafeMath) (laws : Documented m) (a b n : ℕ) (message : Text)
    → checked (m.try_sub a b) message ≡ ok n
    → (b ≤ a) × (n + b ≡ a)
checked-try_sub m laws a b n message h = elim (dec_lt a b) [
  | yes below ↦
      let refused = checked-false (m.try_sub a b) message (laws.sub_fails a b below) in
      absurd (ground arith)
  | no within ↦ let exact = laws.sub a b (omega arith) in ground arith
]
