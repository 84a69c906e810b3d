-- ===== src/Relay/Policy.antt =====
-- lib/relayer-engine/src/relay/utils.ts: which transfers the relayer takes on.
pub mod Amounts
pub mod Accepted
pub mod LetterCase
pub mod Verdicts
pub mod Inherited
use nimble_xchain_contracts.Prelude.{ℕ, String, if◌then◌else◌, Bool, true, false, not, ◌++◌}
use nimble_xchain_contracts.Prelude.{Option, none, some}
use nimble_xchain_contracts.Js.{Text, text, Value, undefined, num, big, str, object, truthy, ℤ, pos}
use nimble_xchain_contracts.Js.{ltb_ℤ, Outcome, ok, throws, ◌>>=◌}
use nimble_xchain_contracts.Js.Convert.{string_of, value_to_lower_case, big_int}
use nimble_xchain_contracts.Js.Object.{Member, Slot, owned, inherited, missing, property}
use nimble_xchain_contracts.Sdk.{SdkChain}
use nimble_xchain_contracts.Relay.Thresholds.{Rows, Thresholds}
use nimble_xchain_contracts.Relay.ChainIds.{number_to_chain_id}

pub record VaaInfo : Type 0 where
  pub amount : ℕ
  pub origin_address : Text
  pub origin_chain : ℕ
  pub target_address : Text
  pub target_chain : ℕ

pub record ShouldRelayResult : Type 0 where
  pub should_relay : Bool
  pub msg : Text

-- The argument of `shouldRelay`.
pub record Query : Type 0 where
  pub target_chain : Value
  pub origin_asset : Value
  pub amount : Value

abbrev pub no_relay : Text → ShouldRelayResult
no_relay msg = record { should_relay = false; msg = msg }

abbrev pub do_relay : ShouldRelayResult
do_relay = record { should_relay = true; msg = text "" }

abbrev pub too_small : Value → ShouldRelayResult
too_small least = no_relay (text "transfer amount too small, expect at least " ++ string_of least)

-- `minTransfer` as a value: a numeral of the table, or what the prototype has.
abbrev pub slot_value : Slot Text → Value
slot_value (owned t) = str t
slot_value (inherited m) = object m.string
slot_value missing = undefined

-- `amount < BigInt(minTransfer)`: this `BigInt` stands outside the `try`.
unfoldable pub check_amount : ℤ → Value → Outcome ShouldRelayResult
check_amount amount least = do
  bound ← big_int least
  ok (if ltb_ℤ amount bound then too_small least else do_relay)

unfoldable pub check_least : ℤ → Value → Outcome ShouldRelayResult
unfolding check_amount
check_least amount least =
    if not (truthy least)
    then ok (no_relay (text "token not supported"))
    else check_amount amount least

module _ (prototype : Text → Option Member) where
  unfoldable pub check_token : ℤ → Value → Slot Rows → Outcome ShouldRelayResult
  check_token amount asset missing = ok (no_relay (text "target chain not supported"))
  check_token amount asset (owned rows) = do
    token ← value_to_lower_case asset
    check_least amount (slot_value (property prototype rows token))
  check_token amount asset (inherited m) = do
    token ← value_to_lower_case asset
    check_least amount (m.property token)

  -- The part of `shouldRelay` below the `try`, with what `BigInt(_amount)` gave.
  unfoldable pub check_supported : Thresholds → Query → Outcome ℤ → Outcome ShouldRelayResult
  check_supported supported q (throws e) =
      ok (no_relay (text "failed to parse amount: " ++ string_of q.amount))
  check_supported supported q (ok amount) =
      check_token amount q.origin_asset (property prototype supported (string_of q.target_chain))

  unfoldable pub should_relay : Thresholds → Query → Outcome ShouldRelayResult
  should_relay supported q =
      if not (truthy q.target_chain)
      then ok (no_relay (text "missing targetChain"))
      else if not (truthy q.origin_asset)
      then ok (no_relay (text "missing originAsset"))
      else if not (truthy q.amount)
      then ok (no_relay (text "missing transfer amount"))
      else check_supported supported q (big_int q.amount)

  -- `hexToNativeString` is the SDK's.
  unfoldable pub should_relay_vaa :
      (SdkChain → ℕ) → (Text → ℕ → Outcome Value) → Thresholds → VaaInfo → Outcome ShouldRelayResult
  should_relay_vaa chain_id hex_to_native_string supported vaa = do
    asset ← hex_to_native_string vaa.origin_address (number_to_chain_id chain_id vaa.origin_chain)
    should_relay supported (record {
      target_chain = num vaa.target_chain;
      origin_asset = asset;
      amount = big (pos vaa.amount);
    })
