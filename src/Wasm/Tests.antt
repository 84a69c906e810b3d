-- ===== src/Wasm/Tests.antt =====
-- The theorems on Injective's contract at concrete calls, payloads and amounts.
use nimble_xchain_contracts.Prelude.{
  ◌-◌, ◌*◌, ◌/◌, ◌^◌, ◌≡◌, ◌↔◌, refl, arith, ltb, leb, List, [], ◌∷◌, ◌++◌, length, ◌&&◌, none,
  some, if◌then◌else◌,
}
use nimble_xchain_contracts.Js.{Text, text, text_eq, ok, throws, error}
use nimble_xchain_contracts.Xchain.{Bytes, zeros, State}
use nimble_xchain_contracts.Xchain.Tests.{safe_math, safe_math-Documented}
use nimble_xchain_contracts.Xchain.Governance.{construct}
use nimble_xchain_contracts.Xchain.Messages.{decode_payload}
use nimble_xchain_contracts.Xchain.Fees as Evm
use nimble_xchain_contracts.Xchain.Transfers.Tests.{contract, chain}
use nimble_xchain_contracts.Wasm.SameToken.{Compared, fetch_local_addr_from_transfer_msg-same}
use nimble_xchain_contracts.Wasm.{StateInfo, Storage, InstantiateMsg, instantiate}
use nimble_xchain_contracts.Wasm.Payload.{PayloadInfo, deserialize, serialize}
use nimble_xchain_contracts.Wasm.Transfers.{
  uint128_mod, Querier, InitiateTransferWithPayload, transfer_built, calculate_relayer_fee,
  normalize_amount,
}
use nimble_xchain_contracts.Wasm.SameState.{
  Call, registers, updates, on_injective, on_evm, runs, Same, stored, seen,
}
use nimble_xchain_contracts.Wasm.Instantiated.{empty, deployment_of, instantiate-Same}
use nimble_xchain_contracts.Wasm.SameFee.{
  IsRatio, calculate_relayer_fee-calculate_relayer_fee, normalize_amount-normalize_amount,
}
use nimble_xchain_contracts.Wasm.SamePayload.{
  as_message, deserialize-decode_payload, transfer_built-decode_payload,
}

abbrev owner : Text
owner = text "inj1owner"

abbrev msg : InstantiateMsg
msg = record {
  owner = text "inj1other";
  wormhole = text "inj1wormhole";
  token_bridge = text "inj1bridge";
  chain_id = 19;
  wormhole_finality = 1;
  fee_precision = 1000;
  relayer_fee_percentage = 5;
}

abbrev info : StateInfo
info = record {
  owner = owner;
  wormhole = text "inj1wormhole";
  token_bridge = text "inj1bridge";
  chain_id = 19;
  wormhole_finality = 1;
  fee_precision = 1000;
  relayer_fee_percentage = 5;
}

abbrev instantiated : Storage
instantiated = stored info (λ c. none)

instantiates : instantiate (λ a. some a) owner msg empty ≡ ok instantiated
unfolding instantiate text_eq
instantiates = refl

abbrev emitter : Bytes
emitter = zeros 12 ++ (5 ∷ zeros 19)

-- A registration, one for the own chain, and a change of the fee by a stranger.
abbrev calls : List Call
calls =
    registers owner 6 emitter ∷ registers owner 19 emitter ∷ updates (text "inj1stranger") 1 2 ∷ []

abbrev address : Bytes
address = 7 ∷ zeros 19

instantiate-Same_example :
    (t : State) × (construct owner (deployment_of address address msg) ≡ ok t)
    × ((runs on_injective instantiated calls).0 ≡ (runs on_evm t calls).0)
    × Same address address ((runs on_injective instantiated calls).1) ((runs on_evm t calls).1)
instantiate-Same_example =
    instantiate-Same (λ a. some a) owner msg instantiated instantiates address address calls refl
      refl (refl, (refl, (tt, tt)))

-- Arithmetic as cosmwasm-std documents it, on a chain that has nothing else.
abbrev querier : Querier Unit
querier = record {
  multiply_ratio = λ a n d.
      if ltb 0 d && ltb (a * n / d) uint128_mod
      then ok (a * n / d)
      else throws (error (text "Multiplication overflow"));
  addr_canonicalize = λ a. throws (error (text "no address"));
  addr_humanize = λ a. throws (error (text "no address"));
  wrapped_registry = λ w wormhole chain a. throws (error (text "no contract"));
  balance = λ w token holder. throws (error (text "no contract"));
}

querier-IsRatio : IsRatio querier
querier-IsRatio a n d positive fits = ground arith

calculate_relayer_fee_example :
    calculate_relayer_fee querier 1999 (stored info (λ c. none))
    ≡ Evm.calculate_relayer_fee safe_math (seen address address info (λ c. none)) 1999
calculate_relayer_fee_example =
    calculate_relayer_fee-calculate_relayer_fee querier safe_math querier-IsRatio
      safe_math-Documented address address info (λ c. none) 1999 (omega arith) (omega arith)
      (omega arith)

normalize_amount_example : normalize_amount 5000000000 18 ≡ (
    if ltb 8 18 && leb uint128_mod (10 ^ (18 - 8))
    then throws (error (text "attempt to multiply with overflow"))
    else Evm.normalize_amount 5000000000 18)
normalize_amount_example = normalize_amount-normalize_amount 5000000000 18

abbrev payload : PayloadInfo
payload = record { payload_id = 1; target_recipient = emitter }

deserialize-decode_payload_example : (decode_payload (1 ∷ emitter) ≡ ok (as_message payload)) ↔ (
    (deserialize (1 ∷ emitter) ≡ ok payload)
    × (payload.payload_id ≡ 1)
    × (length (1 ∷ emitter) ≡ 33))
deserialize-decode_payload_example = deserialize-decode_payload (1 ∷ emitter) payload

abbrev with_emitter : Storage
with_emitter = stored info (λ c. some emitter)

abbrev built : InitiateTransferWithPayload
built = record {
  contract_addr = info.wormhole;
  denom = text "inj";
  amount = 70;
  recipient_chain = 6;
  recipient = emitter;
  fee = 0;
  payload = 1 ∷ emitter;
  nonce = 0;
}

builds : transfer_built 70 6 0 (zeros 12 ++ (9 ∷ zeros 19)) (text "inj") with_emitter ≡ ok built
unfolding transfer_built serialize
builds = refl

transfer_built-decode_payload_example :
    (with_emitter.registered_emitters 6 ≡ some built.recipient)
    × (decode_payload built.payload
        ≡ ok (record { payload_id = 1; target_recipient = built.recipient }))
transfer_built-decode_payload_example =
    transfer_built-decode_payload 70 6 0 (zeros 12 ++ (9 ∷ zeros 19)) (text "inj") with_emitter
      built builds refl

-- A message that names a token of Avalanche.
abbrev token_message : Bytes
token_message = zeros 33 ++ (emitter ++ (0 ∷ 6 ∷ []))

fetch_local_addr_from_transfer_msg-same_example :
    Compared querier safe_math chain contract address address address info
      (λ c. none)
      token_message
      (omega arith)
      tt
      (λ who. 0)
fetch_local_addr_from_transfer_msg-same_example =
    fetch_local_addr_from_transfer_msg-same querier safe_math chain contract address address address
      info (λ c. none) token_message (omega arith) tt (λ who. 0)
