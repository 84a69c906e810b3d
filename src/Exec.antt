-- ===== src/Exec.antt =====
-- Handlers and scripts: a computation over a state that may throw. What was done before the throw
-- stays done.
pub mod Rules
use nimble_xchain_contracts.Js.{Error, Outcome, ok, throws}

abbrev pub Exec {ℓ κ} : Type ℓ → Type κ → Type (ℓ ⊔ κ)
Exec S A = S → Outcome A × S

module _ {ℓ κ} {S : Type ℓ} {A : Type κ} where
  abbrev pub pure : A → Exec S A
  pure a s = (ok a, s)

  abbrev pub fail : Error → Exec S A
  fail e s = (throws e, s)

  abbrev pub lift : Outcome A → Exec S A
  lift r s = (r, s)

  abbrev pub settle : (Outcome A × S) → (Error → Exec S A) → Outcome A × S
  settle (ok a, s) handler = (ok a, s)
  settle (throws e, s) handler = handler e s

  -- `try { m } catch (e) { handler(e) }`, and a promise's `.catch(handler)`.
  abbrev pub catch : Exec S A → (Error → Exec S A) → Exec S A
  catch m handler s = settle (m s) handler

module _ {ℓ κ μ} {S : Type ℓ} {A : Type κ} {B : Type μ} where
  abbrev pub continue : Outcome A × S → (A → Exec S B) → Outcome B × S
  continue (ok a, s) f = f a s
  continue (throws e, s) f = (throws e, s)

  infixl 5 ◌>>=◌ ◌>>◌
  abbrev pub ◌>>=◌ : Exec S A → (A → Exec S B) → Exec S B
  ◌>>=◌ m f s = continue (m s) f

  abbrev pub ◌>>◌ : Exec S A → Exec S B → Exec S B
  ◌>>◌ m k s = continue (m s) (λ _. k)
