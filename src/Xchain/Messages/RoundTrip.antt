-- ===== src/Xchain/Messages/RoundTrip.antt =====
-- The payload on both kinds of chains.
use nimble_xchain_contracts.Prelude.{ℕ, ◌≡◌, ◌↔◌, refl, ap, ◌∙◌, arith, [], ◌∷◌, length, take}
use nimble_xchain_contracts.Js.{ok}
use nimble_xchain_contracts.Solana.Message.{
  deserialize, payload_recipient, serialize, serialize-deserialize, take_first,
}
use nimble_xchain_contracts.Xchain.{Bytes}
use nimble_xchain_contracts.Xchain.Messages.{NimbleXchainMessage, encode_payload, decode_payload}

-- The payload's number and its length, where the contract accepts it.
accepted_shape :
    (b : ℕ) (bs : Bytes) (m : NimbleXchainMessage)
    → decode_payload (b ∷ bs) ≡ ok m
    → (b ≡ 1) × (length bs ≡ 32)
unfolding decode_payload
accepted_shape b bs m h = ground arith

accepted_fields :
    (b : ℕ) (bs : Bytes) (m : NimbleXchainMessage)
    → decode_payload (b ∷ bs) ≡ ok m
    → m ≡ record { payload_id = b; target_recipient = take 32 bs }
unfolding decode_payload
accepted_fields b bs m h = ground arith

decode_payload_sound :
    (encoded : Bytes) (m : NimbleXchainMessage)
    → decode_payload encoded ≡ ok m
    → (encoded ≡ encode_payload m) × (m.payload_id ≡ 1) × (length m.target_recipient ≡ 32)
unfolding encode_payload
decode_payload_sound [] m h = unfold decode_payload in ground arith
decode_payload_sound (b ∷ bs) m h =
    let (one, long) = accepted_shape b bs m h in
    let fields : m ≡ record { payload_id = b; target_recipient = bs } =
      accepted_fields b bs m h
      ∙ ap (λ t. record { payload_id = b; target_recipient = t }) (take_first bs long) in
    rw fields (refl, one, long)

pub decode_payload-encode_payload :
    (m : NimbleXchainMessage)
    → m.payload_id ≡ 1
    → length m.target_recipient ≡ 32
    → decode_payload (encode_payload m) ≡ ok m
unfolding decode_payload encode_payload
decode_payload-encode_payload m one long = ground (arith, take_first m.target_recipient)

-- The contract accepts exactly the encodings of messages with the payload's number 1 and a recipient
-- of 32 bytes, and decodes them to what was encoded.
pub decode_payload_iff :
    (encoded : Bytes) (m : NimbleXchainMessage)
    → (decode_payload encoded ≡ ok m)
      ↔ ((encoded ≡ encode_payload m) × (m.payload_id ≡ 1) × (length m.target_recipient ≡ 32))
decode_payload_iff encoded m =
    (decode_payload_sound encoded m, λ h. rw (h.0) (decode_payload-encode_payload m h.1 h.2))

-- What the contract of an EVM chain accepts, the Solana program and its client accept as the same
-- recipient, and it is what the Solana program would write for that recipient.
pub decode_payload-deserialize :
    (encoded : Bytes) (m : NimbleXchainMessage)
    → decode_payload encoded ≡ ok m
    → (deserialize encoded ≡ ok m.target_recipient)
      × (payload_recipient encoded ≡ m.target_recipient)
      × (encoded ≡ serialize m.target_recipient)
unfolding encode_payload serialize
decode_payload-deserialize encoded m h =
    let (form, one, long) = decode_payload_sound encoded m h in
    let same : encoded ≡ serialize m.target_recipient =
      form ∙ ap (λ i. i ∷ m.target_recipient) one in
    let (program, client) = serialize-deserialize m.target_recipient long in
    (rw same program, rw same client, same)
