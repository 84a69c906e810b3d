-- ===== src/Js/Object.antt =====
-- Objects as tables: own properties in the order of their creation, and those of Object.prototype.
use nimble_xchain_contracts.Prelude.{◌≡◌, refl, if◌then◌else◌, Option, none, some, arith}
use nimble_xchain_contracts.Prelude.{List, [], ◌∷◌}
use nimble_xchain_contracts.Js.{Text, text_eq, text_eq_sound, text_eq_refl, Value}

module _ {ℓ} {A : Type ℓ} where
  -- The own property of a name.
  unfoldable pub own : Text → List (Text × A) → Option A
  own k [] = none
  own k ((j, v) ∷ o) = let rest = own k o in if text_eq j k then some v else rest

  -- A property definition of an object literal: a name that is already there takes the new value.
  unfoldable pub define : Text → A → List (Text × A) → List (Text × A)
  define k v [] = (k, v) ∷ []
  define k v ((j, w) ∷ o) =
      let rest = define k v o in if text_eq j k then (j, v) ∷ o else (j, w) ∷ rest

  unfoldable pub define_all : List (Text × A) → List (Text × A) → List (Text × A)
  define_all o [] = o
  define_all o ((k, v) ∷ entries) = define_all (define k v o) entries

  -- An object literal.
  unfoldable pub object_of : List (Text × A) → List (Text × A)
  unfolding define_all
  object_of entries = define_all [] entries

  pub own-define :
      (k j : Text) (v : A) (o : List (Text × A))
      → own j (define k v o) ≡ (if text_eq k j then some v else own j o)
  unfolding own define
  own-define k j v [] = refl
  own-define k j v ((i, w) ∷ o) = ground (
    arith,
    own-define k j v o,
    text_eq_sound i k,
    text_eq_sound i j,
    text_eq_sound k j,
    text_eq_refl k,
    text_eq_refl j,
  )

-- A member of Object.prototype: its string conversion, and its own properties in turn.
pub record Member : Type 0 where
  pub string : Text
  pub property : Text → Value

pub data Slot {ℓ} (A : Type ℓ) : Type ℓ where
  owned : A → Slot A
  inherited : Member → Slot A
  missing : Slot A

abbrev pub slot_of {ℓ} : {A : Type ℓ} → Option A → Option Member → Slot A
slot_of (some v) m = owned v
slot_of none (some m) = inherited m
slot_of none none = missing

-- `o[k]`, where `prototype` is what Object.prototype has.
abbrev pub property {ℓ} : {A : Type ℓ} → (Text → Option Member) → List (Text × A) → Text → Slot A
property prototype o k = slot_of (own k o) (prototype k)
