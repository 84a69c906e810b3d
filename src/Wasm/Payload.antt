-- ===== src/Wasm/Payload.antt =====
-- `PayloadInfo` of src/state.rs, and the readers of src/utils.rs that the contract uses. An index
-- that is out of range panics.
use nimble_xchain_contracts.Prelude.{
  ℕ, ◌+◌, ◌*◌, ltb, [], ◌∷◌, ◌++◌, length, take, drop, if◌then◌else◌,
}
use nimble_xchain_contracts.Js.{text, Outcome, ok, throws, error, ◌>>=◌}
use nimble_xchain_contracts.Xchain.{Bytes}
use nimble_xchain_contracts.Xchain.Messages.{first_byte}

pub record PayloadInfo : Type 0 where
  pub payload_id : ℕ
  pub target_recipient : Bytes

-- `&data[index..index + n]`
unfoldable pub slice : (index n : ℕ) → Bytes → Outcome Bytes
slice index n bytes =
    if ltb (length bytes) (index + n)
    then throws (error (text "range end index out of range"))
    else ok (take n (drop index bytes))

unfoldable pub get_u8 : Bytes → ℕ → Outcome ℕ
unfolding slice
get_u8 bytes index = do cut ← slice index 1 bytes; ok (first_byte cut)

unfoldable pub get_u16 : Bytes → ℕ → Outcome ℕ
unfolding slice
get_u16 bytes index = do
  cut ← slice index 2 bytes
  ok (first_byte cut * 256 + first_byte (drop 1 cut))

unfoldable pub get_const_bytes : ℕ → Bytes → ℕ → Outcome Bytes
unfolding slice
get_const_bytes n bytes index = slice index n bytes

unfoldable pub serialize : PayloadInfo → Bytes
serialize p = (p.payload_id ∷ []) ++ p.target_recipient

unfoldable pub deserialize : Bytes → Outcome PayloadInfo
unfolding get_u8 get_const_bytes slice
deserialize bytes = do
  payload_id ← get_u8 bytes 0
  target_recipient ← get_const_bytes 32 bytes 1
  ok (record { payload_id = payload_id; target_recipient = target_recipient })
