-- ===== src/Relay/Policy/Accepted.antt =====
-- Exactly when the policy says yes.
use nimble_xchain_contracts.Prelude.{◌≡◌, ◌↔◌, refl, arith, true, false, Option, none, some}
use nimble_xchain_contracts.Js.{Text, Value, undefined, str}
use nimble_xchain_contracts.Js.{truthy, ℤ, ltb_ℤ, Outcome, ok, throws, to_lower_case, returned}
use nimble_xchain_contracts.Js.Convert.{value_to_lower_case, string_of, big_int}
use nimble_xchain_contracts.Js.Object.{Member, own, owned, property, slot_of}
use nimble_xchain_contracts.Relay.Thresholds.{Rows, Thresholds}
use nimble_xchain_contracts.Relay.Policy.{
  Query, do_relay, slot_value, check_amount, check_least, check_token, check_supported,
  should_relay,
}

-- The row that a query meets: its chain and token are listed, its amount can be read and reaches
-- the bound.
pub record IsAccepted (supported : Thresholds) (q : Query) : Type 0 where
  pub asset : Text
  pub rows : Rows
  pub least : Text
  pub amount : ℤ
  pub bound : ℤ
  pub some_chain : truthy q.target_chain ≡ true
  pub some_asset : truthy (str asset) ≡ true
  pub some_amount : truthy q.amount ≡ true
  pub is_asset : q.origin_asset ≡ str asset
  pub reads : big_int q.amount ≡ ok amount
  pub chain_listed : own (string_of q.target_chain) supported ≡ some rows
  pub token_listed : own (to_lower_case asset) rows ≡ some least
  pub some_least : truthy (str least) ≡ true
  pub reads_least : big_int (str least) ≡ ok bound
  pub enough : ltb_ℤ amount bound ≡ false

check_amount-inv :
    (amount : ℤ) (least : Value)
    → check_amount amount least ≡ ok do_relay
    → (bound : ℤ) × (big_int least ≡ ok bound) × (ltb_ℤ amount bound ≡ false)
unfolding check_amount
check_amount-inv amount least h =
    let (bound, rest, reads) = returned _ _ (big_int least) h in (bound, reads, ground arith)

check_least-inv :
    (amount : ℤ) (least : Value)
    → check_least amount least ≡ ok do_relay
    → (truthy least ≡ true) × (check_amount amount least ≡ ok do_relay)
unfolding check_least
check_least-inv amount least h = (ground arith, ground arith)

value_to_lower_case-inv :
    (v : Value) (t : Text)
    → value_to_lower_case v ≡ ok t
    → (s : Text) × (v ≡ str s) × (t ≡ to_lower_case s)
unfolding value_to_lower_case
value_to_lower_case-inv (str s) t h = (s, refl, ground arith)
value_to_lower_case-inv undefined t h = ground arith
value_to_lower_case-inv _ t h = ground arith

module _ (prototype : Text → Option Member) where
  least-inv :
      (amount : ℤ) (o : Option Text)
      → check_least amount (slot_value (slot_of o none)) ≡ ok do_relay
      → (least : Text) × (o ≡ some least) × (check_least amount (str least) ≡ ok do_relay)
  unfolding check_least
  least-inv amount none h = ground arith
  least-inv amount (some least) h = (least, refl, h)

  check_token-inv :
      (amount : ℤ) (v : Value) (o : Option Rows)
      → check_token prototype amount v (slot_of o none) ≡ ok do_relay
      → (rows : Rows) × (token : Text) × (o ≡ some rows)
        × (value_to_lower_case v ≡ ok token)
        × (check_least amount (slot_value (property prototype rows token)) ≡ ok do_relay)
  unfolding check_token
  check_token-inv amount v none h = ground arith
  check_token-inv amount v (some rows) h =
      let (token, rest, lowers) = returned _ _ (value_to_lower_case v) h in
      (rows, token, refl, lowers, rest)

  module _ (supported : Thresholds) (q : Query) where
    check_supported-inv :
        (read : Outcome ℤ)
        → check_supported prototype supported q read ≡ ok do_relay
        → (amount : ℤ) × (read ≡ ok amount)
          × (check_token prototype amount q.origin_asset
                (property prototype supported (string_of q.target_chain))
              ≡ ok do_relay)
    unfolding check_supported
    check_supported-inv (throws e) h = ground arith
    check_supported-inv (ok amount) h = (amount, refl, h)

    should_relay-inv :
        should_relay prototype supported q ≡ ok do_relay
        → (truthy q.target_chain ≡ true)
          × (truthy q.origin_asset ≡ true)
          × (truthy q.amount ≡ true)
          × (check_supported prototype supported q (big_int q.amount) ≡ ok do_relay)
    unfolding should_relay
    should_relay-inv h = (ground arith, ground arith, ground arith, ground arith)

    -- Neither key of the two look-ups is a name that every object inherits.
    pub record IsPlain : Type 0 where
      pub chain_plain : prototype (string_of q.target_chain) ≡ none
      pub token_plain :
          (asset : Text) → q.origin_asset ≡ str asset → prototype (to_lower_case asset) ≡ none

    should_relay_sound :
        IsPlain → should_relay prototype supported q ≡ ok do_relay → IsAccepted supported q
    should_relay_sound plain h =
        let (some_chain, some_asset, some_amount, rest) = should_relay-inv h in
        let (amount, reads, at_chain) = check_supported-inv (big_int q.amount) rest in
        let (rows, token, chain_listed, lowers, at_token) =
          check_token-inv amount q.origin_asset (own (string_of q.target_chain) supported)
            (rw plain.chain_plain at at_chain) in
        let (asset, is_asset, is_lower) = value_to_lower_case-inv q.origin_asset token lowers in
        let plain_token : prototype token ≡ none = rw is_lower (plain.token_plain asset is_asset) in
        let (least, token_listed, at_least) =
          least-inv amount (own token rows) (rw plain_token at at_token) in
        let (some_least, at_amount) = check_least-inv amount (str least) at_least in
        let (bound, reads_least, enough) = check_amount-inv amount (str least) at_amount in
        record {
          asset = asset;
          rows = rows;
          least = least;
          amount = amount;
          bound = bound;
          some_chain = some_chain;
          some_asset = rw is_asset at some_asset;
          some_amount = some_amount;
          is_asset = is_asset;
          reads = reads;
          chain_listed = chain_listed;
          token_listed = rw is_lower at token_listed;
          some_least = some_least;
          reads_least = reads_least;
          enough = enough;
        }

    check_least_complete :
        (amount bound : ℤ) (least : Text)
        → truthy (str least) ≡ true
        → big_int (str least) ≡ ok bound
        → ltb_ℤ amount bound ≡ false
        → check_least amount (str least) ≡ ok do_relay
    unfolding check_least check_amount
    check_least_complete amount bound least some_least reads enough =
        rw (some_least, reads, enough) refl

    check_token_complete :
        (a : IsAccepted supported q)
        → check_token prototype a.amount (str a.asset) (owned a.rows) ≡ ok do_relay
    unfolding check_token value_to_lower_case
    check_token_complete a =
        rw a.token_listed
          (check_least_complete a.amount a.bound a.least a.some_least a.reads_least a.enough)

    should_relay_complete :
        IsAccepted supported q → should_relay prototype supported q ≡ ok do_relay
    unfolding should_relay check_supported
    should_relay_complete a =
        simp
          (
            a.is_asset, a.some_chain, a.some_asset, a.some_amount, a.reads, check_supported,
            a.chain_listed,
          )
          (check_token_complete a)

    -- For a query whose look-ups meet no inherited name, the policy says yes exactly when the chain
    -- and the token are listed, the amount can be read, and it is not below the listed bound.
    pub should_relay_iff :
        IsPlain → (should_relay prototype supported q ≡ ok do_relay) ↔ IsAccepted supported q
    should_relay_iff plain = (should_relay_sound plain, should_relay_complete)
