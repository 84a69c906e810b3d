-- ===== src/Relay/Policy/LetterCase.antt =====
-- The policy does not depend on the letter case of the token's address.
use nimble_xchain_contracts.Prelude.{◌≡◌, refl, sym, ap, ◌∙◌, Option, [], ◌∷◌}
use nimble_xchain_contracts.Js.{Text, Value, str, ℤ, Outcome, ok, throws, is_empty, to_lower_case}
use nimble_xchain_contracts.Js.Convert.{value_to_lower_case, big_int}
use nimble_xchain_contracts.Js.Object.{Member, Slot, owned, inherited, missing}
use nimble_xchain_contracts.Relay.Thresholds.{Rows, Thresholds}
use nimble_xchain_contracts.Relay.Policy.{Query, check_token, check_supported, should_relay}

is_empty-to_lower_case : (s : Text) → is_empty (to_lower_case s) ≡ is_empty s
unfolding is_empty to_lower_case
is_empty-to_lower_case [] = refl
is_empty-to_lower_case (c ∷ s) = refl

pub is_empty_of_same_case :
    (s t : Text) → to_lower_case s ≡ to_lower_case t → is_empty s ≡ is_empty t
is_empty_of_same_case s t h =
    sym (is_empty-to_lower_case s) ∙ ap is_empty h ∙ is_empty-to_lower_case t

abbrev pub query : Value → Text → Value → Query
query target asset amount = record {
  target_chain = target;
  origin_asset = str asset;
  amount = amount;
}

module _ (prototype : Text → Option Member) (s t : Text)
    (same : to_lower_case s ≡ to_lower_case t) where
  check_token-same :
      (amount : ℤ) (slot : Slot Rows)
      → check_token prototype amount (str s) slot ≡ check_token prototype amount (str t) slot
  unfolding check_token value_to_lower_case
  check_token-same amount (owned rows) = rw same
  check_token-same amount (inherited m) = rw same
  check_token-same amount missing = refl

  check_supported-same :
      (supported : Thresholds) (target amount : Value) (read : Outcome ℤ)
      → check_supported prototype supported (query target s amount) read
        ≡ check_supported prototype supported (query target t amount) read
  unfolding check_supported
  check_supported-same supported target amount (throws e) = refl
  check_supported-same supported target amount (ok a) = check_token-same a _

  -- Two spellings of an address with one lower-case form have one result, whatever it is.
  should_relay-letter_case :
      (supported : Thresholds) (target amount : Value)
      → should_relay prototype supported (query target s amount)
        ≡ should_relay prototype supported (query target t amount)
  unfolding should_relay
  should_relay-letter_case supported target amount = rw (
    is_empty_of_same_case s t same,
    check_supported-same supported target amount (big_int amount),
  )
