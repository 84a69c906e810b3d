-- ===== src/Relay/Policy/Amounts.antt =====
-- The policy for a token that the tables list: what decides is the amount.
use nimble_xchain_contracts.Prelude.{ℕ, ◌≡◌, ◌≢◌, refl, arith, true}
use nimble_xchain_contracts.Prelude.{if◌then◌else◌, Option, some, [], ◌∷◌}
use nimble_xchain_contracts.Js.{Text, Value, str, truthy, ℤ, pos, ltb_ℤ, ok}
use nimble_xchain_contracts.Js.{is_empty, to_lower_case}
use nimble_xchain_contracts.Js.Decimal.{decimal, decimal-ne-nil}
use nimble_xchain_contracts.Js.Convert.{string_of, value_to_lower_case, big_int}
use nimble_xchain_contracts.Js.Convert.{string_to_big_int-decimal}
use nimble_xchain_contracts.Js.Object.{Member, own, owned}
use nimble_xchain_contracts.Relay.Thresholds.{Rows, Thresholds}
use nimble_xchain_contracts.Relay.Policy.{
  ShouldRelayResult, do_relay, too_small, check_amount, check_least, check_token, check_supported,
  should_relay,
}

abbrev pub verdict : ℤ → ℕ → ShouldRelayResult
verdict amount least =
    if ltb_ℤ amount (pos least) then too_small (str (decimal least)) else do_relay

truthy_of_ne_nil : (s : Text) → s ≢ [] → truthy (str s) ≡ true
unfolding is_empty
truthy_of_ne_nil [] h = ground arith
truthy_of_ne_nil (c ∷ s) h = refl

pub truthy-decimal : (n : ℕ) → truthy (str (decimal n)) ≡ true
truthy-decimal n = truthy_of_ne_nil (decimal n) (decimal-ne-nil n)

big_int-decimal : (n : ℕ) → big_int (str (decimal n)) ≡ ok (pos n)
unfolding big_int
big_int-decimal n = string_to_big_int-decimal n

check_amount-decimal :
    (amount : ℤ) (least : ℕ) → check_amount amount (str (decimal least)) ≡ ok (verdict amount least)
unfolding check_amount
check_amount-decimal amount least = rw (big_int-decimal least)

check_least-decimal :
    (amount : ℤ) (least : ℕ) → check_least amount (str (decimal least)) ≡ ok (verdict amount least)
unfolding check_least
check_least-decimal amount least = rw (truthy-decimal least) (check_amount-decimal amount least)

module _ (prototype : Text → Option Member) where
  check_token-owned :
      (amount : ℤ) (asset : Text) (rows : Rows) (least : ℕ)
      → own (to_lower_case asset) rows ≡ some (decimal least)
      → check_token prototype amount (str asset) (owned rows) ≡ ok (verdict amount least)
  unfolding check_token value_to_lower_case
  check_token-owned amount asset rows least h = rw h (check_least-decimal amount least)

  module _ (supported : Thresholds) where
    -- A query whose chain and token are listed, whatever form its amount has.
    pub should_relay-listed :
        (target given : Value) (asset : Text) (rows : Rows) (amount : ℤ) (least : ℕ)
        → truthy target ≡ true
        → truthy (str asset) ≡ true
        → truthy given ≡ true
        → big_int given ≡ ok amount
        → own (string_of target) supported ≡ some rows
        → own (to_lower_case asset) rows ≡ some (decimal least)
        → should_relay prototype supported
            (record { target_chain = target; origin_asset = str asset; amount = given })
          ≡ ok (verdict amount least)
    unfolding should_relay check_supported
    should_relay-listed target given asset rows amount least chain some_asset some_amount reads hr
          hl =
        rw (chain, some_asset, some_amount, reads, check_supported, hr)
          (check_token-owned amount asset rows least hl)
