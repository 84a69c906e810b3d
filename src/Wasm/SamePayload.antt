-- ===== src/Wasm/SamePayload.antt =====
-- The payload on Injective and on the EVM chains, and whom a transfer that Injective builds is for.
use nimble_xchain_contracts.Prelude.{
  ℕ, ◌≡◌, ◌↔◌, refl, sym, ◌∙◌, ap, arith, [], ◌∷◌, length, Option, some, none,
}
use nimble_xchain_contracts.Js.{Text, ok, ok_injective, returned}
use nimble_xchain_contracts.Xchain.{Bytes}
use nimble_xchain_contracts.Xchain.Messages.{NimbleXchainMessage, encode_payload, decode_payload}
use nimble_xchain_contracts.Xchain.Messages.RoundTrip.{decode_payload-encode_payload}
use nimble_xchain_contracts.Wasm.{Storage, unwrap}
use nimble_xchain_contracts.Wasm.Payload.{
  PayloadInfo, slice, get_u8, get_const_bytes, serialize, deserialize,
}
use nimble_xchain_contracts.Wasm.Transfers.{InitiateTransferWithPayload, transfer_built}

-- What Injective reads as a message of the EVM chains.
abbrev pub as_message : PayloadInfo → NimbleXchainMessage
as_message p = record { payload_id = p.payload_id; target_recipient = p.target_recipient }

read_as_decoded :
    (bytes : Bytes) (p : PayloadInfo)
    → decode_payload bytes ≡ ok (as_message p)
    → (deserialize bytes ≡ ok p) × (p.payload_id ≡ 1) × (length bytes ≡ 33)
unfolding deserialize get_u8 get_const_bytes slice decode_payload
read_as_decoded [] p h = ground arith
read_as_decoded (b ∷ bs) p h = ground arith

decoded_as_read :
    (bytes : Bytes) (p : PayloadInfo)
    → deserialize bytes ≡ ok p
    → p.payload_id ≡ 1
    → length bytes ≡ 33
    → decode_payload bytes ≡ ok (as_message p)
unfolding deserialize get_u8 get_const_bytes slice decode_payload
decoded_as_read [] p h one long = ground arith
decoded_as_read (b ∷ bs) p h one long = ground arith

-- The contract of an EVM chain accepts a payload as a message exactly where Injective reads this
-- message from it, its number is 1, and the payload has 33 bytes: Injective takes any number,
-- and more bytes.
pub deserialize-decode_payload :
    (bytes : Bytes) (p : PayloadInfo)
    → (decode_payload bytes ≡ ok (as_message p))
      ↔ ((deserialize bytes ≡ ok p) × (p.payload_id ≡ 1) × (length bytes ≡ 33))
deserialize-decode_payload bytes p =
    (read_as_decoded bytes p, λ h. decoded_as_read bytes p h.0 h.1 h.2)

unwrapped : (o : Option Bytes) {e : Bytes} → unwrap o ≡ ok e → o ≡ some e
unwrapped none h = ground arith
unwrapped (some e) h = ground arith

-- Whatever recipient the user names, the transfer that Injective builds, to an emitter of 32
-- bytes, is to the contract that it has registered for the target chain, and names this same
-- contract as the recipient: that is what the contract of an EVM chain decodes.
pub transfer_built-decode_payload :
    (amount target_chain wormhole_fee : ℕ) (target_recipient : Bytes) (denom : Text) (s : Storage)
    (message : InitiateTransferWithPayload)
    → transfer_built amount target_chain wormhole_fee target_recipient denom s ≡ ok message
    → length message.recipient ≡ 32
    → (s.registered_emitters target_chain ≡ some message.recipient)
      × (decode_payload message.payload
          ≡ ok (record { payload_id = 1; target_recipient = message.recipient }))
unfolding transfer_built serialize encode_payload
transfer_built-decode_payload amount target_chain wormhole_fee target_recipient denom s message
      gives long =
    let (e, h, has) = returned _ message (unwrap (s.registered_emitters target_chain)) gives in
    let (state, last, _) = returned _ message (unwrap s.state_info) h in
    let same = ok_injective last in
    let recipient : e ≡ message.recipient = ap (λ x. x.recipient) same in
    let payload : 1 ∷ e ≡ message.payload = ap (λ x. x.payload) same in
    (
      unwrapped (s.registered_emitters target_chain) has ∙ ap some recipient,
      rw (sym payload, recipient)
          (decode_payload-encode_payload
            (record { payload_id = 1; target_recipient = message.recipient }) refl long),
    )
