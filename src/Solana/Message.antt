-- ===== src/Solana/Message.antt =====
-- solana/programs/xchain_token/src/message.rs: the payload of a transfer, which the client reads too.
use nimble_xchain_contracts.Prelude.{
  ℕ, [], ◌∷◌, ◌≡◌, refl, sym, ap, arith, length, take, drop, ◌==◌, ltb, if◌then◌else◌,
}
use nimble_xchain_contracts.Js.{text, Outcome, ok, throws, error}
use nimble_xchain_contracts.Solana.Sdk.{Bytes}

-- PAYLOAD_ID_nimble
abbrev pub payload_id : ℕ
payload_id = 1

-- `XChainMessage::serialize` of a recipient of 32 bytes.
unfoldable pub serialize : Bytes → Bytes
serialize recipient = payload_id ∷ recipient

-- `&buf[1..33]`, which panics on a shorter buffer.
unfoldable pub recipient_slice : Bytes → Outcome Bytes
recipient_slice buf =
    if ltb (length buf) 33
    then throws (error (text "range end index out of range"))
    else ok (take 32 (drop 1 buf))

-- `XChainMessage::deserialize`
unfoldable pub deserialize : Bytes → Outcome Bytes
deserialize [] = throws (error (text "index out of bounds"))
deserialize (id ∷ buf) =
    if id == payload_id
    then recipient_slice (id ∷ buf)
    else throws (error (text "invalid payload ID"))

-- `subarray(1, 33)`, which ends where the array ends.
unfoldable pub payload_recipient : Bytes → Bytes
payload_recipient payload = take 32 (drop 1 payload)

take_all : (bs : Bytes) → take (length bs) bs ≡ bs
take_all [] = refl
take_all (b ∷ bs) = ap (λ t. b ∷ t) (take_all bs)

pub take_first : (bs : Bytes) → length bs ≡ 32 → take 32 bs ≡ bs
take_first bs h = rw (sym h) (take_all bs)

-- A recipient of 32 bytes that the program writes into a payload is the one that the program reads
-- back and that the client reads.
pub serialize-deserialize :
    (recipient : Bytes)
    → length recipient ≡ 32
    → (deserialize (serialize recipient) ≡ ok recipient)
      × (payload_recipient (serialize recipient) ≡ recipient)
unfolding serialize deserialize recipient_slice payload_recipient
serialize-deserialize recipient h = (ground (arith, take_first recipient h), take_first recipient h)

-- Where the program accepts a payload, whatever follows the recipient, the client reads the same
-- recipient from it.
deserialize-payload_recipient :
    (payload recipient : Bytes)
    → deserialize payload ≡ ok recipient
    → payload_recipient payload ≡ recipient
unfolding deserialize recipient_slice payload_recipient
deserialize-payload_recipient [] recipient h = ground arith
deserialize-payload_recipient (id ∷ buf) recipient h = ground arith
