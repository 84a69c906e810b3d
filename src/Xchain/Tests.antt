-- ===== src/Xchain/Tests.antt =====
-- The contract's theorems at concrete messages, tokens and states.
use nimble_xchain_contracts.Prelude.{
  ℕ, ◌-◌, ◌*◌, ◌/◌, ◌<◌, ◌≡◌, ◌↔◌, refl, arith, ◌∷◌, ◌++◌, length, true, false, leb, ltb, ◌==◌,
  if◌then◌else◌,
}
use nimble_xchain_contracts.Js.{text, text_eq, ok, throws, error}
use nimble_xchain_contracts.Solana.Message.{deserialize, serialize, payload_recipient}
use nimble_xchain_contracts.Xchain.{Bytes, zeros, State, set_emitter, Deployment, deployed}
use nimble_xchain_contracts.Xchain.Governance.{construct, register_emitter, update_relayer_fee}
use nimble_xchain_contracts.Xchain.Governance.Reachable.{
  registers, starts, steps, IsSound, Reach-IsSound, Changed, Step-Changed,
}
use nimble_xchain_contracts.Xchain.Messages.{NimbleXchainMessage, encode_payload, decode_payload}
use nimble_xchain_contracts.Xchain.Messages.RoundTrip.{
  decode_payload_iff, decode_payload-deserialize,
}
use nimble_xchain_contracts.Xchain.Fees.{
  SafeMath, Documented, uint256_mod, uint64_mod, calculate_relayer_fee, compute_relayer_amount,
  config_of,
}
use nimble_xchain_contracts.Xchain.Fees.Share.{
  IsShare, calculate_relayer_fee-IsShare, compute_relayer_amount-calculate_relayer_fee,
  update_relayer_fee-calculate_relayer_fee,
}

abbrev owner : Bytes
owner = 17 ∷ zeros 19

abbrev bridge : Bytes
bridge = 34 ∷ zeros 19

-- A deployment on Arbitrum that keeps half a percent for the relayer.
abbrev deployment : Deployment
deployment = record {
  wormhole = 51 ∷ zeros 19;
  token_bridge = bridge;
  chain_id = 23;
  wormhole_finality = 1;
  fee_precision = 1000;
  relayer_fee_percentage = 5;
}

abbrev emitter : Bytes
emitter = zeros 12 ++ (68 ∷ zeros 19)

abbrev fresh : State
fresh = deployed owner deployment

abbrev with_emitter : State
with_emitter = set_emitter 6 emitter fresh

registration : register_emitter owner 6 emitter fresh ≡ ok with_emitter
unfolding register_emitter text_eq
registration = refl

Reach-IsSound_example : IsSound owner deployment with_emitter
unfolding construct
Reach-IsSound_example =
    Reach-IsSound owner deployment (steps (starts refl) (registers owner 6 emitter registration))

Step-Changed_example : Changed owner fresh with_emitter
Step-Changed_example = Step-Changed (registers owner 6 emitter registration)

abbrev recipient : Bytes
recipient = zeros 12 ++ (85 ∷ zeros 19)

abbrev message : NimbleXchainMessage
message = record { payload_id = 1; target_recipient = recipient }

decode_payload_iff_example : (decode_payload (encode_payload message) ≡ ok message) ↔ (
    (encode_payload message ≡ encode_payload message)
    × (message.payload_id ≡ 1)
    × (length recipient ≡ 32))
decode_payload_iff_example = decode_payload_iff (encode_payload message) message

decode_payload-deserialize_example :
    (deserialize (encode_payload message) ≡ ok recipient)
    × (payload_recipient (encode_payload message) ≡ recipient)
    × (encode_payload message ≡ serialize recipient)
unfolding decode_payload encode_payload
decode_payload-deserialize_example =
    decode_payload-deserialize (encode_payload message) message refl

-- SafeMath as its documentation has it.
abbrev pub safe_math : SafeMath
safe_math = record {
  try_sub = λ a b. if leb b a then (true, a - b) else (false, 0);
  try_mul = λ a b. if ltb (a * b) uint256_mod then (true, a * b) else (false, 0);
  try_div = λ a b. if b == 0 then (false, 0) else (true, a / b);
}

pub safe_math-Documented : Documented safe_math
safe_math-Documented = record {
  sub = λ a b h. ground arith;
  sub_fails = λ a b h. ground arith;
  mul = λ a b h. ground arith;
  mul_fails = λ a b h. ground arith;
  div = λ a b h. ground arith;
  div_fails = λ a. refl;
}

calculate_relayer_fee-IsShare_example :
    (calculate_relayer_fee safe_math fresh 1999 ≡ ok 9)
    ↔ (IsShare 5 1000 1999 9 × (1999 * 5 < uint256_mod))
calculate_relayer_fee-IsShare_example =
    calculate_relayer_fee-IsShare safe_math safe_math-Documented fresh 1999 9 (omega arith)

-- An amount of 2^62 at five thousandths.
compute_relayer_amount-calculate_relayer_fee_example :
    compute_relayer_amount (config_of fresh) (uint64_mod / 4) ≡ (
      if leb uint64_mod (uint64_mod / 4 * 5)
      then throws (error (text "attempt to multiply with overflow"))
      else calculate_relayer_fee safe_math fresh (uint64_mod / 4))
compute_relayer_amount-calculate_relayer_fee_example =
    compute_relayer_amount-calculate_relayer_fee safe_math safe_math-Documented fresh
      (uint64_mod / 4) (omega arith)

abbrev dearer : State
dearer = record fresh { relayer_fee_percentage = 7; fee_precision = 100 }

fee_set : update_relayer_fee owner 7 100 fresh ≡ ok dearer
unfolding update_relayer_fee text_eq
fee_set = refl

update_relayer_fee-calculate_relayer_fee_example :
    (fee : ℕ) × (calculate_relayer_fee safe_math dearer 50 ≡ ok fee) × (fee < 50)
update_relayer_fee-calculate_relayer_fee_example =
    update_relayer_fee-calculate_relayer_fee safe_math safe_math-Documented owner 7 100 50 fresh
      dearer fee_set (omega arith) (omega arith)
