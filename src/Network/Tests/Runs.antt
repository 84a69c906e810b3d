-- ===== src/Network/Tests/Runs.antt =====
-- The theorems on networks at a transfer from Avalanche to Arbitrum.
use nimble_xchain_contracts.Prelude.{
  ◌+◌, ◌≡◌, refl, sym, ap, arith, leb, ◌==◌, true, false, ◌&&◌, [], ◌∷◌, ◌++◌, if◌then◌else◌,
}
use mathlib.Core.List.{Memᴰ}
use mathlib.Core.List.Memᴰ
use nimble_xchain_contracts.Js.{text_eq, ok, returned, ok_injective}
use nimble_xchain_contracts.Xchain.{Bytes, zeros, set_emitter}
use nimble_xchain_contracts.Xchain.Tests.{safe_math, safe_math-Documented}
use nimble_xchain_contracts.Xchain.Governance.{register_emitter}
use nimble_xchain_contracts.Xchain.Messages.{decode_payload, encode_payload, to_bytes32, to_uint16}
use nimble_xchain_contracts.Xchain.Fees.{calculate_relayer_fee, normalize_amount}
use nimble_xchain_contracts.Xchain.Transfers.{
  order_of, bytes32_to_address, fetch_local_address_from_transfer_message, custody_tokens,
  send_tokens_with_payload, deposit_and_order, pay_both, pay_out, settle,
  redeem_transfer_with_payload,
}
use nimble_xchain_contracts.Xchain.Transfers.Settled.{amount_if, PlainToken}
use nimble_xchain_contracts.Xchain.Transfers.Redeemable.{Payable}
use nimble_xchain_contracts.Xchain.Transfers.Ledger.{Ledger, paid_to, move, move_lem}
use nimble_xchain_contracts.Network.{
  Asked, Network, set_at, Attested, Event, redeemed, silent, sends, redeems, registers, Initial,
  Reach, starts, later, Owed, Specified,
}
use nimble_xchain_contracts.Network.Delivered.{
  Delivery, Brings, redeem_transfer_with_payload-Owed, Owed-redeem_transfer_with_payload,
}
use nimble_xchain_contracts.Network.Owed.{Step-Specified}
use nimble_xchain_contracts.Network.Tests.{
  account, contract_of, in_bytes32, user, relayer, token, World, fresh, knows, message, chain,
  bridges, bridges-Promised,
}

abbrev before : Ledger
before who = if text_eq who user then 5000 else 0

abbrev start : Network World
start = record {
  contracts = fresh;
  worlds = λ c. record { ledger = before; messages = []; claims = λ d s. false };
  asked = [];
}

start-Initial : Initial bridges start
start-Initial = record {
  none_asked = refl;
  none_registered = λ c d. refl;
  none_posted = λ c x h. absurd (Memᴰ.not-nil h);
  numbered = λ c x y h. absurd (Memᴰ.not-nil h);
  published = λ c d s h. absurd (ground (arith, h));
}

abbrev one_known : Network World
one_known = record start { contracts = set_at 6 (knows 23 6) fresh }

abbrev linked : Network World
linked = record start { contracts = set_at 23 (knows 6 23) (set_at 6 (knows 23 6) fresh) }

avalanche_registers :
    register_emitter (account 6) 23 (in_bytes32 (contract_of 23)) (fresh 6) ≡ ok (knows 23 6)
unfolding register_emitter text_eq
avalanche_registers = refl

arbitrum_registers :
    register_emitter (account 6) 6 (in_bytes32 (contract_of 6)) (fresh 23) ≡ ok (knows 6 23)
unfolding register_emitter text_eq
arbitrum_registers = refl

linked-Reach : Reach safe_math bridges linked
linked-Reach =
    later silent
      (later silent (starts start-Initial)
        (registers 6 (account 6) 23 (knows 23 6) avalanche_registers))
      (registers 23 (account 6) 6 (knows 6 23) arbitrum_registers)

abbrev asked : Asked
asked = record { source = 6; sequence = 1; target_chain = 23; recipient = in_bytes32 user }

abbrev world_sent : World
world_sent = record {
  ledger = paid_to (contract_of 6) (account 8) 2000 (paid_to user (contract_of 6) 2000 before);
  messages = message ∷ [];
  claims = λ d s. false;
}

abbrev network_sent : Network World
network_sent = record linked { worlds = set_at 6 world_sent linked.worlds; asked = asked ∷ [] }

sends_message :
    send_tokens_with_payload safe_math
      (chain 6)
      (contract_of 6)
      user
      (knows 23 6)
      token
      2000
      23
      0
      (in_bytes32 user)
      0
      (record { ledger = before; messages = []; claims = λ d s. false })
    ≡ ok (1, world_sent)
unfolding send_tokens_with_payload deposit_and_order normalize_amount custody_tokens text_eq
    order_of set_emitter
sends_message = refl

sent-Reach : Reach safe_math bridges network_sent
sent-Reach =
    later (Event.sent asked) linked-Reach
      (sends 6 user token 2000 23 0 (in_bytes32 user) 0 1 world_sent refl sends_message)

-- A message that names the token by its address on Avalanche, and what Arbitrum has when it is
-- redeemed.
abbrev encoded : Bytes
encoded = zeros 33 ++ (in_bytes32 token ++ (0 ∷ 6 ∷ []))

abbrev brought : World
brought = record {
  ledger = λ who. before who + amount_if (text_eq who (contract_of 23)) 2000;
  messages = [];
  claims = λ d s. if d == 6 && s == 1 then true else false;
}

abbrev world_redeemed : World
world_redeemed = record brought {
  ledger = paid_to (contract_of 23) user 1990 (paid_to (contract_of 23) relayer 10 brought.ledger);
}

abbrev at_arbitrum : World
at_arbitrum = record { ledger = before; messages = []; claims = λ d s. false }

message-Attested : Attested bridges network_sent encoded
unfolding order_of
message-Attested = record { published = Memᴰ.head refl; by_someone = refl }

token_found :
    fetch_local_address_from_transfer_message safe_math
      (chain 23)
      (contract_of 23)
      relayer
      (knows 6 23)
      at_arbitrum
      encoded
    ≡ ok token
unfolding fetch_local_address_from_transfer_message to_bytes32 to_uint16 set_emitter
token_found = refl

redeems_message :
    redeem_transfer_with_payload safe_math
      (chain 23)
      (contract_of 23)
      relayer
      (knows 6 23)
      encoded
      at_arbitrum
    ≡ ok world_redeemed
unfolding redeem_transfer_with_payload fetch_local_address_from_transfer_message to_bytes32
    to_uint16 settle pay_out pay_both text_eq decode_payload calculate_relayer_fee
    bytes32_to_address order_of encode_payload set_emitter
redeems_message = refl

plain : PlainToken (chain 23) (contract_of 23) token (λ w. w.ledger)
plain = record {
  counted = λ w who. refl;
  moved = λ to n w w' moves who.
      let (l, last, moved) =
        returned (λ l. ok (record w { ledger = l })) w' (move (contract_of 23) to n w.ledger)
          moves in
      let same : l ≡ w'.ledger = ap (λ x. x.ledger) (ok_injective last) in
      rw (sym same) (move_lem (contract_of 23) to n w.ledger l moved who);
}

payable : Payable (chain 23) (contract_of 23) token (λ w. w.ledger)
payable to n w enough =
    let within : leb n (w.ledger (contract_of 23)) ≡ true = ground arith in
    (record w { ledger = paid_to (contract_of 23) to n w.ledger }, rw within refl)

Step-Specified_example :
    Specified bridges network_sent
      (redeemed 23 6 1)
      (record network_sent { worlds = set_at 23 world_redeemed network_sent.worlds })
Step-Specified_example =
    Step-Specified safe_math bridges bridges-Promised sent-Reach
      (redeems 23 relayer encoded world_redeemed message-Attested redeems_message)

redeem_transfer_with_payload-Owed_example :
    (a : Asked) × Owed bridges network_sent a
    × (a.target_chain ≡ 23)
    × (a.source ≡ 6)
    × (a.sequence ≡ 1)
    × Delivery safe_math
        (chain 23)
        (contract_of 23)
        relayer
        (knows 6 23)
        (λ w. w.ledger)
        encoded
        a.recipient
        at_arbitrum
        world_redeemed
redeem_transfer_with_payload-Owed_example =
    redeem_transfer_with_payload-Owed safe_math safe_math-Documented bridges bridges-Promised
      network_sent sent-Reach 23 relayer encoded message-Attested
      (record { emitter_chain_id = 6; payload = encoded }) token refl token_found (λ w. w.ledger)
      plain world_redeemed redeems_message

brings : Brings safe_math bridges (λ w. w.ledger) 23 (knows 6 23) encoded at_arbitrum
unfolding text_eq order_of calculate_relayer_fee set_emitter
brings = record {
  completed = (encoded, brought);
  brought = refl;
  amount = 2000;
  received = refl;
  transfer = record { from_address = message.from; payload = message.order.payload };
  parsed = refl;
  fee = 10;
  computed = refl;
  within = omega arith;
}

Owed-redeem_transfer_with_payload_example :
    (w' : World) × (redeem_transfer_with_payload safe_math
        (chain 23)
        (contract_of 23)
        relayer
        (knows 6 23)
        encoded
        at_arbitrum
      ≡ ok w')
    × Delivery safe_math
        (chain 23)
        (contract_of 23)
        relayer
        (knows 6 23)
        (λ w. w.ledger)
        encoded
        (in_bytes32 user)
        at_arbitrum
        w'
unfolding set_emitter
Owed-redeem_transfer_with_payload_example =
    Owed-redeem_transfer_with_payload safe_math safe_math-Documented bridges bridges-Promised
      network_sent sent-Reach 23 relayer encoded message-Attested
      (record { emitter_chain_id = 6; payload = encoded }) token refl token_found (λ w. w.ledger)
      plain asked (Memᴰ.head refl, refl) refl refl refl refl payable brings
