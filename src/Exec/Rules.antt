-- ===== src/Exec/Rules.antt =====
-- How to prove a property of a computation's result: one rule for each way to build it.
use nimble_xchain_contracts.Prelude.{◌≡◌, refl, arith, Bool, true, false, if◌then◌else◌}
use nimble_xchain_contracts.Js.{Error, Outcome, ok, throws}
use nimble_xchain_contracts.Exec.{Exec, continue, lift, ◌>>=◌}

module _ {ℓ κ μ ν} {S : Type ℓ} {A : Type κ} {B : Type μ} (P : Outcome B × S → Type ν) where
  pub bind-lift :
      (r : Outcome A) (f : A → Exec S B) (s : S)
      → ((a : A) → r ≡ ok a → P (f a s))
      → ((e : Error) → r ≡ throws e → P (throws e, s))
      → P ((lift r >>= f) s)
  bind-lift (ok a) f s good bad = good a refl
  bind-lift (throws e) f s good bad = bad e refl

module _ {ℓ κ ν} {S : Type ℓ} {B : Type κ} (P : Outcome B × S → Type ν) where
  pub branch :
      (b : Bool) (m n : Exec S B) (s : S)
      → (b ≡ true → P (m s))
      → (b ≡ false → P (n s))
      → P ((if b then m else n) s)
  branch true m n s yes_case no_case = yes_case refl
  branch false m n s yes_case no_case = no_case refl

module _ {ℓ κ μ} {S : Type ℓ} {A : Type κ} {B : Type μ} where
  continue_returned :
      (f : A → Exec S B) (r : Outcome A × S) {b : B} {last : S}
      → continue r f ≡ (ok b, last)
      → (a : A) × (next : S) × (f a next ≡ (ok b, last)) × (r ≡ (ok a, next))
  continue_returned f (throws e, next) gives = ground arith
  continue_returned f (ok a, next) gives = (a, next, gives, refl)

  -- Where `m` and then `f` return, what `m` gave, in which state, and that `f` goes on from there.
  pub bind_returned :
      (f : A → Exec S B) (m : Exec S A) (s : S) {b : B} {last : S}
      → (m >>= f) s ≡ (ok b, last)
      → (a : A) × (next : S) × (f a next ≡ (ok b, last)) × (m s ≡ (ok a, next))
  bind_returned f m s gives = continue_returned f (m s) gives
