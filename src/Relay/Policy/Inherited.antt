-- ===== src/Relay/Policy/Inherited.antt =====
-- A look-up also finds what Object.prototype has: a chain and a token that no table lists can be
-- accepted.
use nimble_xchain_contracts.Prelude.{ℕ, suc, ◌≤◌, ◌≡◌, arith, Option, none, some, true}
use nimble_xchain_contracts.Js.{Text, Value, num, str, truthy, pos, ok, to_lower_case}
use nimble_xchain_contracts.Js.Convert.{string_of, value_to_lower_case, big_int}
use nimble_xchain_contracts.Js.Object.{Member, own}
use nimble_xchain_contracts.Relay.Thresholds.{Thresholds}
use nimble_xchain_contracts.Relay.Policy.{
  do_relay, check_amount, check_least, check_token, check_supported, should_relay,
}
use nimble_xchain_contracts.Relay.Policy.LetterCase.{query}

check_least-num :
    (amount least : ℕ)
    → suc least ≤ amount
    → check_least (pos amount) (num (suc least)) ≡ ok do_relay
unfolding check_least check_amount big_int
check_least-num amount least h = ground arith

-- Where the target chain is spelled like an inherited member that no table defines, and the token
-- like a property of that member that is a positive number, every amount from that number on is
-- accepted.
should_relay-inherited :
    (prototype : Text → Option Member) (supported : Thresholds) (chain asset : Text) (m : Member)
    (given : Value) (amount least : ℕ)
    → truthy (str chain) ≡ true
    → truthy (str asset) ≡ true
    → truthy given ≡ true
    → big_int given ≡ ok (pos amount)
    → own chain supported ≡ none
    → prototype chain ≡ some m
    → m.property (to_lower_case asset) ≡ num (suc least)
    → suc least ≤ amount
    → should_relay prototype supported (query (str chain) asset given) ≡ ok do_relay
unfolding should_relay check_supported check_token value_to_lower_case string_of
should_relay-inherited prototype supported chain asset m given amount least some_chain some_asset
      some_amount reads unlisted member property enough =
    rw (some_chain, some_asset, some_amount, reads, unlisted, member, property)
      (check_least-num amount least enough)
