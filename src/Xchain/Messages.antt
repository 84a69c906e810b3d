-- ===== src/Xchain/Messages.antt =====
-- nimbleXChainMessages: the payload of a transfer, and the readers of BytesLib that it uses.
pub mod RoundTrip
use nimble_xchain_contracts.Prelude.{
  ℕ, ◌+◌, ◌*◌, ◌==◌, ltb, List, [], ◌∷◌, length, take, drop, Bool, not, if◌then◌else◌,
}
use nimble_xchain_contracts.Js.{Text, text, Outcome, ok, throws, error, ◌>>=◌}
use nimble_xchain_contracts.Xchain.{Bytes, require}
use nimble_xchain_contracts.Xchain.Governance.{◌>>◌}

-- `nimbleXChainMessage`
pub record NimbleXchainMessage : Type 0 where
  pub payload_id : ℕ
  pub target_recipient : Bytes

-- `abi.encodePacked` of a byte and 32 bytes.
unfoldable pub encode_payload : NimbleXchainMessage → Bytes
encode_payload m = m.payload_id ∷ m.target_recipient

-- The number of one byte.
abbrev pub first_byte : Bytes → ℕ
first_byte [] = 0
first_byte (b ∷ bs) = b

unfoldable pub to_uint8 : Bytes → ℕ → Outcome ℕ
to_uint8 bs start =
    if ltb (length bs) (start + 1)
    then throws (error (text "toUint8_outOfBounds"))
    else ok (first_byte (drop start bs))

unfoldable pub to_uint16 : Bytes → ℕ → Outcome ℕ
to_uint16 bs start =
    if ltb (length bs) (start + 2)
    then throws (error (text "toUint16_outOfBounds"))
    else ok (first_byte (drop start bs) * 256 + first_byte (drop (start + 1) bs))

unfoldable pub to_bytes32 : Bytes → ℕ → Outcome Bytes
to_bytes32 bs start =
    if ltb (length bs) (start + 32)
    then throws (error (text "toBytes32_outOfBounds"))
    else ok (take 32 (drop start bs))

-- The index is a constant at each step, so that `SafeMath.tryAdd` does not fail.
unfoldable pub decode_payload : Bytes → Outcome NimbleXchainMessage
unfolding to_uint8 to_bytes32
decode_payload encoded_message = do
  id ← to_uint8 encoded_message 0
  require (id == 1) (text "invalid payloadID")
  recipient ← to_bytes32 encoded_message 1
  require (33 == length encoded_message) (text "invalid payload length")
  ok (record { payload_id = id; target_recipient = recipient })
