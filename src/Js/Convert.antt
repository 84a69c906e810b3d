-- ===== src/Js/Convert.antt =====
-- Conversions between values: `String(x)`, `x.toLowerCase()`, `BigInt(x)` and a bigint's `toString`.
use nimble_xchain_contracts.Prelude.{ℕ, suc, ◌≡◌, ◌≢◌, refl, arith, All}
use nimble_xchain_contracts.Prelude.{Bool, true, false, ◌&&◌, ◌||◌, ◌==◌, leb, if◌then◌else◌}
use nimble_xchain_contracts.Prelude.{Option, none, some, [], ◌∷◌}
use nimble_xchain_contracts.Js.{Text, text, Value, undefined, null, bool, num, big, str, object}
use nimble_xchain_contracts.Js.{ℤ, pos, negsuc, Outcome, ok, throws, type_error, syntax_error}
use nimble_xchain_contracts.Js.{is_empty, to_lower_case}
use nimble_xchain_contracts.Js.Decimal.{decimal, numeral, IsDigit}
use nimble_xchain_contracts.Js.Decimal.{decimal-All, decimal-ne-nil, numeral-decimal}

unfoldable pub big_to_text : ℤ → Text
big_to_text (pos n) = decimal n
big_to_text (negsuc n) = b'-' ∷ decimal (suc n)

-- `String(x)`, which a template literal and a property key take too.
unfoldable pub string_of : Value → Text
unfolding big_to_text
string_of undefined = text "undefined"
string_of null = text "null"
string_of (bool true) = text "true"
string_of (bool false) = text "false"
string_of (num n) = decimal n
string_of (big z) = big_to_text z
string_of (str s) = s
string_of (object s) = s

-- Only a string has the method.
unfoldable pub value_to_lower_case : Value → Outcome Text
value_to_lower_case (str s) = ok (to_lower_case s)
value_to_lower_case _ = throws type_error

-- White space and line terminators of the language.
unfoldable pub is_space : ℕ → Bool
is_space c =
    (leb 9 c && leb c 13)
    || (c == 32
        || (c == 160
            || (c == 5760
                || ((leb 8192 c && leb c 8202)
                    || (c == 8232
                        || (c == 8233
                            || (c == 8239 || (c == 8287 || (c == 12288 || c == 65279)))))))))

unfoldable pub trim_start : Text → Text
trim_start [] = []
trim_start (c ∷ s) = let rest = trim_start s in if is_space c then rest else c ∷ s

unfoldable pub trim_end : Text → Text
trim_end [] = []
trim_end (c ∷ s) = let rest = trim_end s in if is_empty rest && is_space c then [] else c ∷ rest

-- The base that a prefix names, and what stands after it.
unfoldable pub base_prefix : Text → Option (ℕ × Text)
base_prefix (z ∷ x ∷ rest) =
    if z == b'0'
    then (if x == b'x' || x == b'X'
        then some (16, rest)
        else if x == b'o' || x == b'O'
        then some (8, rest)
        else if x == b'b' || x == b'B'
        then some (2, rest)
        else none)
    else none
base_prefix _ = none

abbrev positive : Option ℕ → Outcome ℤ
positive none = throws syntax_error
positive (some n) = ok (pos n)

abbrev negative : Option ℕ → Outcome ℤ
negative none = throws syntax_error
negative (some ℕ.zero) = ok (pos 0)
negative (some (suc n)) = ok (negsuc n)

abbrev signed : Text → Outcome ℤ
signed [] = ok (pos 0)
signed (c ∷ s) =
    if c == b'-'
    then negative (numeral 10 s)
    else if c == b'+'
    then positive (numeral 10 s)
    else positive (numeral 10 (c ∷ s))

-- A numeral with no white space around it: an empty one is zero, and only a decimal one takes a
-- sign.
unfoldable pub literal : Text → Outcome ℤ
literal t = elim (base_prefix t) [
  | none ↦ signed t
  | some (base, rest) ↦ positive (numeral base rest)
]

-- `BigInt` of a string.
unfoldable pub string_to_big_int : Text → Outcome ℤ
string_to_big_int s = literal (trim_end (trim_start s))

unfoldable pub big_int : Value → Outcome ℤ
big_int undefined = throws type_error
big_int null = throws type_error
big_int (bool true) = ok (pos 1)
big_int (bool false) = ok (pos 0)
big_int (num n) = ok (pos n)
big_int (big z) = ok z
big_int (str s) = string_to_big_int s
big_int (object s) = string_to_big_int s

is_space-digit : (c : ℕ) → IsDigit c → is_space c ≡ false
unfolding is_space
is_space-digit c (lo, hi) = ground arith

trim_start-digits : (s : Text) → All IsDigit s → trim_start s ≡ s
unfolding trim_start
trim_start-digits [] h = refl
trim_start-digits (c ∷ s) (d, h) = ground (arith, is_space-digit c d)

trim_end-digits : (s : Text) → All IsDigit s → trim_end s ≡ s
unfolding trim_end is_empty
trim_end-digits [] h = refl
trim_end-digits (c ∷ s) (d, h) = ground (arith, is_space-digit c d, trim_end-digits s h)

base_prefix-digits : (s : Text) → All IsDigit s → base_prefix s ≡ none
unfolding base_prefix
base_prefix-digits [] h = refl
base_prefix-digits (c ∷ []) h = refl
base_prefix-digits (c ∷ d ∷ s) (hc, (hd, h)) = ground arith

signed-digits : (s : Text) → s ≢ [] → All IsDigit s → signed s ≡ positive (numeral 10 s)
signed-digits [] ne h = ground arith
signed-digits (c ∷ s) ne (d, h) = ground arith

literal-digits : (s : Text) → s ≢ [] → All IsDigit s → literal s ≡ positive (numeral 10 s)
unfolding literal
literal-digits s ne h = rw (base_prefix-digits s h, literal) (signed-digits s ne h)

trimmed-digits : (s : Text) → All IsDigit s → trim_end (trim_start s) ≡ s
trimmed-digits s h = rw (trim_start-digits s h) (trim_end-digits s h)

-- The digits of a number are read back as the number.
pub string_to_big_int-decimal : (n : ℕ) → string_to_big_int (decimal n) ≡ ok (pos n)
unfolding string_to_big_int
string_to_big_int-decimal n =
    let ds = decimal-All n in
    rw (trimmed-digits (decimal n) ds, literal-digits (decimal n) (decimal-ne-nil n) ds)
      (rw (numeral-decimal n))

strings : Unit {0}
unfolding string_to_big_int literal base_prefix trim_start trim_end is_space is_empty numeral
strings = tt

big_int_tests :
    (string_to_big_int (text " 0x1F ") ≡ ok (pos 31))
    × (string_to_big_int (text "-12") ≡ ok (negsuc 11))
    × (string_to_big_int (text "") ≡ ok (pos 0))
    × (string_to_big_int (text "1e3") ≡ throws syntax_error)
unfolding strings
big_int_tests = (refl, refl, refl, refl)
