-- ===== src/Js.antt =====
-- What the sources use of JavaScript: strings as code units, the values that arrive from a request,
-- truthiness, string conversion, the letter case of ASCII, and thrown errors.
pub mod Decimal
pub mod Convert
pub mod Object
use Prim.Native.Char.{code}
use nimble_xchain_contracts.Prelude.{ℕ, ◌+◌, String, List, [], ◌∷◌, ◌≡◌, refl, arith}
use nimble_xchain_contracts.Prelude.{Bool, true, false, not, ◌&&◌, ◌↔◌, leb, ◌==◌, ==_iff}
use nimble_xchain_contracts.Prelude.{if◌then◌else◌, map}

-- A string is the list of its code units; every literal of the sources is ASCII.
abbrev pub Text : Type 0
Text = List ℕ

abbrev pub text : String → Text
text String.[] = []
text (String.◌∷◌ c s) = code c ∷ text s

unfoldable pub text_eq : Text → Text → Bool
text_eq [] [] = true
text_eq (a ∷ s) (b ∷ t) = a == b && text_eq s t
text_eq _ _ = false

pub text_eq_sound : (s t : Text) → text_eq s t ≡ true → s ≡ t
unfolding text_eq
text_eq_sound [] [] h = refl
text_eq_sound [] (b ∷ t) h = ground arith
text_eq_sound (a ∷ s) [] h = ground arith
text_eq_sound (a ∷ s) (b ∷ t) h = ground (arith, text_eq_sound s t)

pub text_eq_refl : (s : Text) → text_eq s s ≡ true
unfolding text_eq
text_eq_refl [] = refl
text_eq_refl (a ∷ s) = ground (arith, text_eq_refl s, ==_iff a a)

unfoldable pub is_empty : Text → Bool
is_empty [] = true
is_empty (c ∷ s) = false

-- `toLowerCase` on ASCII; a code unit outside it stays as it is.
abbrev pub lower : ℕ → ℕ
lower c = if leb b'A' c && leb c b'Z' then c + 32 else c

unfoldable pub to_lower_case : Text → Text
to_lower_case = map lower

-- Integers, for `bigint`; `negsuc n` is -(n + 1).
pub data ℤ : Type 0 where
  pos : ℕ → ℤ
  negsuc : ℕ → ℤ

abbrev pub ltb_ℤ : ℤ → ℤ → Bool
ltb_ℤ (pos a) (pos b) = not (leb b a)
ltb_ℤ (pos a) (negsuc b) = false
ltb_ℤ (negsuc a) (pos b) = true
ltb_ℤ (negsuc a) (negsuc b) = not (leb a b)

-- A value of a request or of a parsed message. A number is a natural one; an object or an array
-- stands for its string conversion, the only thing that the sources read of it.
pub data Value : Type 0 where
  undefined null : Value
  bool : Bool → Value
  num : ℕ → Value
  big : ℤ → Value
  str object : Text → Value

abbrev pub truthy : Value → Bool
truthy undefined = false
truthy null = false
truthy (bool b) = b
truthy (num n) = not (n == 0)
truthy (big (pos n)) = not (n == 0)
truthy (big (negsuc n)) = true
truthy (str s) = not (is_empty s)
truthy (object s) = true

-- What a `throw` carries, and a computation that may throw.
pub data Error : Type 0 where
  type_error syntax_error range_error : Error
  error : Text → Error
  field_error : (message field_name : Text) → Error

pub data Outcome {ℓ} (A : Type ℓ) : Type ℓ where
  ok : A → Outcome A
  throws : Error → Outcome A

infixl 5 ◌>>=◌
abbrev pub ◌>>=◌ {ℓ κ} : {A : Type ℓ} {B : Type κ} → Outcome A → (A → Outcome B) → Outcome B
ok a >>= f = f a
throws e >>= f = throws e

-- Where `m` and then `f` return, what `m` gave and that `f` goes on from it.
pub returned {ℓ κ} :
    {A : Type ℓ} {B : Type κ} (f : A → Outcome B) (b : B) (m : Outcome A)
    → (m >>= f) ≡ ok b
    → (x : A) × (f x ≡ ok b) × (m ≡ ok x)
returned f b (throws e) gives = ground arith
returned f b (ok x) gives = (x, gives, refl)

pub ok_injective {ℓ} : {A : Type ℓ} {a b : A} → ok a ≡ ok b → a ≡ b
ok_injective h = ground arith
