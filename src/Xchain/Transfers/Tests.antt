-- ===== src/Xchain/Transfers/Tests.antt =====
-- The theorems on transfers for a chain with one token.
use nimble_xchain_contracts.Prelude.{
  ℕ, ◌+◌, ◌≤◌, ◌≡◌, ◌↔◌, leb, refl, sym, ap, arith, [], ◌∷◌, ◌++◌, true, ◌==◌, if◌then◌else◌,
}
use nimble_xchain_contracts.Js.{text_eq, text_eq_refl, ok, ok_injective}
use nimble_xchain_contracts.Xchain.{Bytes, zeros, State}
use nimble_xchain_contracts.Xchain.Tests.{safe_math, safe_math-Documented}
use nimble_xchain_contracts.Xchain.Messages.{decode_payload, encode_payload, to_bytes32, to_uint16}
use nimble_xchain_contracts.Xchain.Fees.{calculate_relayer_fee, normalize_amount}
use nimble_xchain_contracts.Xchain.Transfers.{
  Vm, Order, order_of, Chain, bytes32_to_address, fetch_local_address_from_transfer_message,
  custody_tokens, send_tokens_with_payload, deposit_and_order, pay_both, pay_out, settle,
  redeem_transfer_with_payload,
}
use nimble_xchain_contracts.Xchain.Transfers.Settled.{
  amount_if, PlainToken, Redemption, redeem_transfer_with_payload-Redemption,
}
use nimble_xchain_contracts.Xchain.Transfers.Ledger.{Ledger, paid_to, move, move_lem}
use nimble_xchain_contracts.Xchain.Transfers.Sent.{Sending}
use nimble_xchain_contracts.Xchain.Transfers.Custody.{Takes, Run, Run-kept}
use nimble_xchain_contracts.Xchain.Transfers.Sendable.{send_tokens_with_payload_iff}
use nimble_xchain_contracts.Xchain.Transfers.Redeemable.{
  Payable, Ready, redeem_transfer_with_payload_iff,
}

-- An address from its first byte.
abbrev account : ℕ → Bytes
account n = n ∷ zeros 19

abbrev in_bytes32 : Bytes → Bytes
in_bytes32 address = zeros 12 ++ address

abbrev pub contract : Bytes
contract = account 1

abbrev relayer : Bytes
relayer = account 2

abbrev user : Bytes
user = account 3

abbrev token : Bytes
token = account 4

abbrev other_contract : Bytes
other_contract = in_bytes32 (account 5)

-- Arbitrum's contract, which knows that of Avalanche.
abbrev state : State
state = record {
  owner = account 6;
  wormhole = account 7;
  token_bridge = account 8;
  chain_id = 23;
  wormhole_finality = 1;
  fee_precision = 1000;
  relayer_fee_percentage = 5;
  registered_emitters = λ c. if c == 6 then other_contract else zeros 32;
}

-- The user's transfer as the sending contract asked for it, and 2000 tokens that the bridge brings.
abbrev order : Order
order = order_of state token 2000 23 0 (in_bytes32 user) 0

abbrev pub chain : Chain Ledger
chain = record {
  balance_of = λ l t who. ok (l who);
  decimals = λ l t. ok 6;
  transfer = λ t to n l. move contract to n l;
  transfer_from = λ t from to n l. move from to n l;
  approve = λ t spender n l. ok l;
  message_fee = λ l. 0;
  parse_vm = λ l encoded. ok (record { emitter_chain_id = 6; payload = encoded });
  wrapped_asset = λ l c address. token;
  transfer_tokens_with_payload = λ o l. ok (9, paid_to contract (account 8) o.amount l);
  complete_transfer_with_payload =
      λ encoded l. ok (encoded, λ who. l who + amount_if (text_eq who contract) 2000);
  parse_transfer_with_payload =
      λ l payload. ok (record { from_address = other_contract; payload = order.payload });
}

plain : PlainToken chain contract token (λ l. l)
plain = record {
  counted = λ l who. refl;
  moved = λ to n l l' moves who. move_lem contract to n l l' moves who;
}

abbrev before : Ledger
before who = if text_eq who user then 5000 else 0

-- A message that names the token by its address on chain 6.
abbrev encoded : Bytes
encoded = zeros 33 ++ (in_bytes32 token ++ (0 ∷ 6 ∷ []))

abbrev vm : Vm
vm = record { emitter_chain_id = 6; payload = encoded }

abbrev completed : Ledger
completed who = before who + amount_if (text_eq who contract) 2000

abbrev redeemed : Ledger
redeemed = paid_to contract user 1990 (paid_to contract relayer 10 completed)

token_found :
    fetch_local_address_from_transfer_message safe_math chain contract relayer state before encoded
    ≡ ok token
unfolding fetch_local_address_from_transfer_message to_bytes32 to_uint16
token_found = refl

redeems :
    redeem_transfer_with_payload safe_math chain contract relayer state encoded before ≡ ok redeemed
unfolding redeem_transfer_with_payload fetch_local_address_from_transfer_message to_bytes32
    to_uint16 settle pay_out pay_both text_eq decode_payload calculate_relayer_fee
    bytes32_to_address order_of encode_payload
redeems = refl

redeem_transfer_with_payload_example :
    Redemption safe_math chain contract relayer state (λ l. l) encoded vm before redeemed
redeem_transfer_with_payload_example =
    redeem_transfer_with_payload-Redemption safe_math safe_math-Documented chain contract relayer
      state token (λ l. l) plain encoded vm before redeemed refl token_found redeems

abbrev deposited : Ledger
deposited = paid_to user contract 3000 before

abbrev sent : Ledger
sent = paid_to contract (account 8) 3000 deposited

sends :
    send_tokens_with_payload safe_math chain contract user state token 3000 6 0
      (in_bytes32 user)
      0
      before
    ≡ ok (9, sent)
unfolding send_tokens_with_payload deposit_and_order normalize_amount custody_tokens text_eq
    order_of
sends = refl

send_tokens_with_payload_iff_example :
    (send_tokens_with_payload safe_math chain contract user state token 3000 6 0
        (in_bytes32 user)
        0
        before
      ≡ ok (9, sent))
    ↔ Sending chain contract user state (λ l. l) token 3000 6 0 (in_bytes32 user) 0 9 before sent
send_tokens_with_payload_iff_example =
    send_tokens_with_payload_iff safe_math safe_math-Documented chain contract user state token
      (λ l. l) (λ l who. refl) 3000 6 0 (in_bytes32 user) 0 9 before sent

payable : Payable chain contract token (λ l. l)
payable to n l within =
    let enough : leb n (l contract) ≡ true = ground arith in
    (paid_to contract to n l, rw enough refl)

redeem_transfer_with_payload_iff_example :
    ((l : Ledger) × (redeem_transfer_with_payload safe_math chain contract relayer state encoded
          before
        ≡ ok l))
    ↔ Ready safe_math chain contract relayer state (λ l. l) encoded vm before
redeem_transfer_with_payload_iff_example =
    redeem_transfer_with_payload_iff safe_math safe_math-Documented chain contract relayer state
      token (λ l. l) plain payable encoded vm before refl token_found

bridge-Takes : Takes chain contract token (λ l. l)
bridge-Takes = record {
  approves = λ spender n l l' gives. ap (λ x. x contract) (sym (ok_injective gives));
  takes = λ o l l' sequence gives.
      let same : paid_to contract (account 8) o.amount l ≡ l' =
        ap (λ p. p.1) (ok_injective gives) in
      rw (sym same) (ground (arith, text_eq_refl contract));
}

abbrev sent_later : Ledger
sent_later = paid_to contract (account 8) 3000 (paid_to user contract 3000 redeemed)

sends_later :
    send_tokens_with_payload safe_math chain contract user state token 3000 6 0
      (in_bytes32 user)
      0
      redeemed
    ≡ ok (9, sent_later)
unfolding send_tokens_with_payload deposit_and_order normalize_amount custody_tokens text_eq
    order_of
sends_later = refl

-- A redemption, then a transfer.
Run-kept_example : before contract ≤ sent_later contract
Run-kept_example =
    Run-kept safe_math chain contract token (λ l. l) safe_math-Documented plain bridge-Takes
      (Run.sends user state 3000 6 0 (in_bytes32 user) 0 9
        (Run.redeems relayer state encoded vm Run.starts refl token_found redeems) sends_later)
