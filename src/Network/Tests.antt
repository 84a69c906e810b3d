-- ===== src/Network/Tests.antt =====
-- A bridge that can be run, which keeps Wormhole's promises: one token on each chain, and a message
-- that Avalanche's contract sends to Arbitrum's.
mod Runs
use nimble_xchain_contracts.Prelude.{
  ℕ, ◌+◌, ◌-◌, ◌≤◌, ◌<◌, ◌≡◌, ◌≢◌, refl, sym, ◌∙◌, ap, inl, inr, arith, leb, ◌==◌, Bool, true,
  false, ◌&&◌, not, List, [], ◌∷◌, ◌++◌, if◌then◌else◌, drop, Bool-cases,
}
use mathlib.Core.List.{Memᴰ}
use mathlib.Core.List.Memᴰ
use nimble_xchain_contracts.Js.{
  text, text_eq, Outcome, ok, throws, error, ◌>>=◌, returned, ok_injective,
}
use nimble_xchain_contracts.Xchain.{Bytes, zeros, all_zero, State, set_emitter}
use nimble_xchain_contracts.Xchain.Tests.{safe_math, safe_math-Documented}
use nimble_xchain_contracts.Xchain.Governance.{register_emitter}
use nimble_xchain_contracts.Xchain.Messages.{decode_payload, encode_payload, to_bytes32, to_uint16}
use nimble_xchain_contracts.Xchain.Fees.{calculate_relayer_fee, normalize_amount}
use nimble_xchain_contracts.Xchain.Transfers.{
  Vm, Order, order_of, Chain, bytes32_to_address, fetch_local_address_from_transfer_message,
  custody_tokens, send_tokens_with_payload, deposit_and_order, pay_both, pay_out, settle,
  redeem_transfer_with_payload,
}
use nimble_xchain_contracts.Xchain.Transfers.Settled.{amount_if, PlainToken}
use nimble_xchain_contracts.Xchain.Transfers.Redeemable.{Payable}
use nimble_xchain_contracts.Xchain.Transfers.Ledger.{Ledger, paid_to, move, move_lem}
use nimble_xchain_contracts.Network.{
  Message, Wormhole, Promised, Asked, Network, set_at, Attested, Event, redeemed, silent, Step,
  sends, redeems, registers, Initial, Reach, starts, later, Owed, Specified,
}
use nimble_xchain_contracts.Network.Delivered.{
  Delivery, Brings, redeem_transfer_with_payload-Owed, Owed-redeem_transfer_with_payload,
}
use nimble_xchain_contracts.Network.Owed.{Step-Specified}

-- An account from its first byte.
abbrev pub account : ℕ → Bytes
account n = n ∷ zeros 19

-- The contract of a chain.
abbrev pub contract_of : ℕ → Bytes
contract_of c = account (100 + c)

abbrev pub in_bytes32 : Bytes → Bytes
in_bytes32 address = zeros 12 ++ address

abbrev pub user : Bytes
user = account 3

abbrev pub relayer : Bytes
relayer = account 2

abbrev pub token : Bytes
token = account 4

pub record World : Type 0 where
  pub ledger : Ledger
  pub messages : List Message
  pub claims : ℕ → ℕ → Bool

-- Above every number in use.
abbrev pub next : List Message → ℕ
next [] = 1
next (x ∷ xs) = x.sequence + next xs

next_positive : (xs : List Message) → 0 < next xs
next_positive [] = omega arith
next_positive (z ∷ zs) = omega (arith, next_positive zs)

next_above : (x : Message) (xs : List Message) → Memᴰ x xs → x.sequence < next xs
next_above x [] h = absurd (Memᴰ.not-nil h)
next_above x (y ∷ ys) (Memᴰ.head e) = omega (arith, next_positive ys, ap (λ z. z.sequence) e)
next_above x (y ∷ ys) (Memᴰ.tail h) = omega (arith, next_above x ys h)

-- Avalanche's contract, which knows Arbitrum's, and the other way around.
abbrev pub fresh : ℕ → State
fresh c = record {
  owner = account 6;
  wormhole = account 7;
  token_bridge = account 8;
  chain_id = c;
  wormhole_finality = 1;
  fee_precision = 1000;
  relayer_fee_percentage = 5;
  registered_emitters = λ d. zeros 32;
}

abbrev pub knows : ℕ → ℕ → State
knows d c = set_emitter d (in_bytes32 (contract_of d)) (fresh c)

-- The user's 2000 tokens for himself on Arbitrum.
abbrev pub message : Message
message = record {
  from = in_bytes32 (contract_of 6);
  sequence = 1;
  order = order_of (knows 23 6) token 2000 23 0 (in_bytes32 user) 0;
}

abbrev pub transferred : (from to : Bytes) → ℕ → World → Outcome World
transferred from to n w = do l ← move from to n w.ledger; ok (record w { ledger = l })

abbrev pub completed_on : ℕ → Bytes → World → Outcome (Bytes × World)
completed_on c encoded w =
    if 23 == c && not (w.claims 6 1)
    then ok (
      encoded,
      record w {
        ledger = λ who. w.ledger who + amount_if (text_eq who (contract_of c)) 2000;
        claims = λ d s. if d == 6 && s == 1 then true else w.claims d s;
      },
    )
    else throws (error (text "transfer already completed"))

abbrev pub chain : ℕ → Chain World
chain c = record {
  balance_of = λ w t who. ok (w.ledger who);
  decimals = λ w t. ok 6;
  transfer = λ t to n w. transferred (contract_of c) to n w;
  transfer_from = λ t from to n w. transferred from to n w;
  approve = λ t spender n w. ok w;
  message_fee = λ w. 0;
  parse_vm = λ w encoded. ok (record { emitter_chain_id = 6; payload = encoded });
  wrapped_asset = λ w d address. token;
  transfer_tokens_with_payload = λ o w. ok (
    next w.messages,
    record w {
      ledger = paid_to (contract_of c) (account 8) o.amount w.ledger;
      messages =
          record { from = in_bytes32 (contract_of c); sequence = next w.messages; order = o }
          ∷ w.messages;
    },
  );
  complete_transfer_with_payload = completed_on c;
  parse_transfer_with_payload =
      λ w payload. ok (record { from_address = message.from; payload = message.order.payload });
}

abbrev pub bridges : Wormhole World
bridges = record {
  chains = chain;
  address = contract_of;
  emitter = λ c. in_bytes32 (contract_of c);
  posted = λ w x. Memᴰ x w.messages;
  claimed = λ w. w.claims;
  said = λ encoded. (6, message);
}

transferred_keeps :
    (from to : Bytes) (n : ℕ) (w w' : World)
    → transferred from to n w ≡ ok w'
    → (bridges.posted w' ≡ bridges.posted w) × (bridges.claimed w' ≡ bridges.claimed w)
transferred_keeps from to n w w' gives =
    let (l, last, _) =
      returned (λ l. ok (record w { ledger = l })) w' (move from to n w.ledger) gives in
    let same : record w { ledger = l } ≡ w' = ok_injective last in
    (ap bridges.posted (sym same), ap bridges.claimed (sym same))

completed_once :
    (c : ℕ) (encoded : Bytes) (w : World) (p : Bytes × World)
    → completed_on c encoded w ≡ ok p
    → (23 ≡ c)
      × (w.claims 6 1 ≡ false)
      × (p.1.messages ≡ w.messages)
      × ((d s : ℕ) → p.1.claims d s ≡ (if d == 6 && s == 1 then true else w.claims d s))
completed_once c encoded w p gives = elim (Bool-cases (23 == c && not (w.claims 6 1))) [
  | inl can ↦
      let same = ok_injective (rw can at gives) in
      (
        ground arith,
        ground arith,
        ap (λ q. q.1.messages) (sym same),
        λ d s. ap (λ q. q.1.claims d s) (sym same),
      )
  | inr cannot ↦ absurd (ground (arith, cannot))
]

pub bridges-Promised : (c : ℕ) → Promised bridges c
unfolding order_of
bridges-Promised c = record {
  transfer_keeps = λ t to n w w' h. transferred_keeps (contract_of c) to n w w' h;
  transfer_from_keeps = λ t from to n w w' h. transferred_keeps from to n w w' h;
  approve_keeps = λ t spender n w w' h.
      let same : w ≡ w' = ok_injective h in
      (ap bridges.posted (sym same), ap bridges.claimed (sym same));
  posts = λ o w w' sequence h x.
      let same = ok_injective h in
      let number : next w.messages ≡ sequence = ap (λ q. q.0) same in
      let added = ap (λ q. q.1.messages) same in
      rw (sym added, number)
        (
          Memᴰ.cases_cons,
          λ e. elim e [ inl is_new ↦ Memᴰ.head is_new | inr is_old ↦ Memᴰ.tail is_old ],
        );
  numbers = λ o w w' sequence h x is_old same.
      let number : next w.messages ≡ sequence = ap (λ q. q.0) (ok_injective h) in
      absurd (omega (arith, next_above x w.messages is_old));
  posting_keeps = λ o w w' sequence h. ap (λ q. q.1.claims) (sym (ok_injective h));
  parses = λ encoded w vm h. ap (λ v. v.emitter_chain_id) (sym (ok_injective h));
  reads = λ encoded w p t _ h.
      let same = sym (ok_injective h) in (ap (λ v. v.from_address) same, ap (λ v. v.payload) same);
  addressed =
      λ encoded w p h. let (here, first, _, _) = completed_once c encoded w p h in (here, first);
  completing_keeps = λ encoded w p h.
      let (_, _, same, _) = completed_once c encoded w p h in ap (λ l x. Memᴰ x l) same;
  claims = λ encoded w p h. let (_, _, _, same) = completed_once c encoded w p h in same;
}
