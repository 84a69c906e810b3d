-- ===== src/Js/Decimal.antt =====
-- Decimal numerals: how a number is printed, and how a run of digits is read.
use nimble_xchain_contracts.Prelude.{ℕ, zero, suc, ◌+◌, ◌-◌, ◌*◌, ◌/◌, ◌%◌, ◌<◌, ◌≤◌, ◌≡◌, refl}
use nimble_xchain_contracts.Prelude.{◌&&◌, leb, ltb, if◌then◌else◌, All, arith, ap, ◌∙◌, ◌⊎◌}
use nimble_xchain_contracts.Prelude.{Option, none, some, List, [], ◌∷◌, ◌≢◌, Bool-cases, inl, inr}

-- The last digit is put before the digits that are already there.
unfoldable pub digits_from : ℕ → ℕ → List ℕ → List ℕ
digits_from zero n rest = rest
digits_from (suc fuel) n rest =
    let more = digits_from fuel (n / 10) ((48 + n % 10) ∷ rest) in
    if ltb n 10 then (48 + n) ∷ rest else more

-- `String(n)`. A number has fewer digits than its successor counts.
unfoldable pub decimal : ℕ → List ℕ
unfolding digits_from
decimal n = digits_from (suc n) n []

-- A digit in some base up to 36, in either case.
unfoldable pub digit_value : ℕ → Option ℕ
digit_value c =
    if leb b'0' c && leb c b'9'
    then some (c - 48)
    else if leb b'a' c && leb c b'z'
    then some (c - 87)
    else if leb b'A' c && leb c b'Z'
    then some (c - 55)
    else none

abbrev push_digit : ℕ → ℕ → Option ℕ → Option ℕ
push_digit base acc none = none
push_digit base acc (some d) = if ltb d base then some (acc * base + d) else none

unfoldable pub read_from : ℕ → Option ℕ → List ℕ → Option ℕ
read_from base none s = none
read_from base (some acc) [] = some acc
read_from base (some acc) (c ∷ s) = read_from base (push_digit base acc (digit_value c)) s

-- A numeral has at least one digit.
unfoldable pub numeral : ℕ → List ℕ → Option ℕ
unfolding read_from digit_value
numeral base [] = none
numeral base (c ∷ s) = read_from base (some 0) (c ∷ s)

digit_value-digit : (d : ℕ) → d < 10 → digit_value (48 + d) ≡ some d
unfolding digit_value
digit_value-digit d h = ground arith

read_step :
    (acc d : ℕ) (s : List ℕ)
    → d < 10
    → read_from 10 (some acc) ((48 + d) ∷ s) ≡ read_from 10 (some (acc * 10 + d)) s
unfolding read_from
read_step acc d s h = ground (arith, digit_value-digit d)

read-digits_from :
    (fuel n : ℕ) (rest : List ℕ)
    → n < fuel
    → read_from 10 (some 0) (digits_from fuel n rest) ≡ read_from 10 (some n) rest
unfolding digits_from
read-digits_from zero n rest h = elim h [ ]
read-digits_from (suc fuel) n rest h = ground (
  arith,
  read_step 0 n rest,
  read_step (n / 10) (n % 10) rest,
  read-digits_from fuel (n / 10) ((48 + n % 10) ∷ rest),
)

-- A code unit between "0" and "9".
abbrev pub IsDigit : ℕ → Type 0
IsDigit c = (48 ≤ c) × (c ≤ 57)

All-digits_from :
    (fuel n : ℕ) (rest : List ℕ) → All IsDigit rest → All IsDigit (digits_from fuel n rest)
unfolding digits_from
All-digits_from zero n rest h = h
All-digits_from (suc fuel) n rest h = elim (Bool-cases (ltb n 10)) [
  | inl small ↦ rw small ((omega arith, ground arith), h)
  | inr big ↦ rw big (All-digits_from fuel (n / 10) _ ((omega arith, omega arith), h))
]

digits_from-ne-nil :
    (fuel n : ℕ) (rest : List ℕ) → (fuel ≢ 0) ⊎ (rest ≢ []) → digits_from fuel n rest ≢ []
unfolding digits_from
digits_from-ne-nil zero n rest h = ground arith
digits_from-ne-nil (suc fuel) n rest h =
    ground (arith, digits_from-ne-nil fuel (n / 10) ((48 + n % 10) ∷ rest))

pub decimal-All : (n : ℕ) → All IsDigit (decimal n)
unfolding decimal
decimal-All n = All-digits_from (suc n) n [] tt

pub decimal-ne-nil : (n : ℕ) → decimal n ≢ []
unfolding decimal
decimal-ne-nil n = digits_from-ne-nil (suc n) n [] (inl (ground arith))

numeral_of_ne_nil : (base : ℕ) (s : List ℕ) → s ≢ [] → numeral base s ≡ read_from base (some 0) s
unfolding numeral
numeral_of_ne_nil base [] h = ground arith
numeral_of_ne_nil base (c ∷ s) h = refl

-- Reading a printed number gives the number.
pub numeral-decimal : (n : ℕ) → numeral 10 (decimal n) ≡ some n
unfolding decimal read_from
numeral-decimal n =
    numeral_of_ne_nil 10 (decimal n) (decimal-ne-nil n)
    ∙ read-digits_from (suc n) n [] (omega arith)

-- Different numbers are printed differently.
pub decimal-injective : (m n : ℕ) → decimal m ≡ decimal n → m ≡ n
decimal-injective m n h = cc (numeral-decimal m, numeral-decimal n, ap (numeral 10) h)
