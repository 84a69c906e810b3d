-- ===== src/Solana/Keys.antt =====
-- solana/ts/sdk/xchain_token/accounts: the seeds of the program's addresses.
pub mod Distinct
use nimble_xchain_contracts.Prelude.{
  ℕ, zero, suc, ◌+◌, ◌*◌, ◌/◌, ◌%◌, ◌^◌, List, [], ◌∷◌, ltb, if◌then◌else◌,
}
use nimble_xchain_contracts.Js.{Text, text, Outcome, ok, throws, range_error, ◌>>=◌}
use nimble_xchain_contracts.Solana.Sdk.{Bytes, Key, KeyInit, key, Sdk, Derivation, address}

-- The bytes of a number, the lowest first.
unfoldable pub le_bytes : ℕ → ℕ → Bytes
le_bytes zero n = []
le_bytes (suc width) n = n % 256 ∷ le_bytes width (n / 256)

-- `writeUInt16LE` and `writeBigUInt64LE` into a buffer of as many bytes, which refuse other numbers.
unfoldable pub write_le : ℕ → ℕ → Outcome Bytes
write_le width n = if ltb n (256 ^ width) then ok (le_bytes width n) else throws range_error

-- The program's addresses.
pub data Account : Type 0 where
  sender_config redeemer_config : Account
  foreign_contract : (chain : ℕ) → Account
  token_transfer_message : (sequence : ℕ) → Account
  tmp_token_account : (mint : Key) → Account

unfoldable pub seeds_of : Account → Outcome (List Bytes)
seeds_of sender_config = ok (text "sender" ∷ [])
seeds_of redeemer_config = ok (text "redeemer" ∷ [])
seeds_of (foreign_contract chain) = do
  buf ← write_le 2 chain
  ok (text "foreign_contract" ∷ buf ∷ [])
seeds_of (token_transfer_message sequence) = do
  buf ← write_le 8 sequence
  ok (text "bridged" ∷ buf ∷ [])
seeds_of (tmp_token_account mint) = ok (text "tmp" ∷ mint ∷ [])

module _ (s : Sdk) where
  unfoldable pub derive_account : KeyInit → Account → Outcome Key
  derive_account program_id account = do
    seeds ← seeds_of account
    s.derive (address seeds program_id)

  unfoldable pub derive_sender_config_key : KeyInit → Outcome Key
  derive_sender_config_key program_id = derive_account program_id sender_config

  unfoldable pub derive_redeemer_config_key : KeyInit → Outcome Key
  derive_redeemer_config_key program_id = derive_account program_id redeemer_config

  unfoldable pub derive_foreign_contract_key : KeyInit → ℕ → Outcome Key
  derive_foreign_contract_key program_id chain = derive_account program_id (foreign_contract chain)

  unfoldable pub derive_token_transfer_message_key : KeyInit → ℕ → Outcome Key
  derive_token_transfer_message_key program_id sequence =
      derive_account program_id (token_transfer_message sequence)

  unfoldable pub derive_tmp_token_account_key : KeyInit → KeyInit → Outcome Key
  derive_tmp_token_account_key program_id mint = do
    mint_key ← s.public_key mint
    derive_account program_id (tmp_token_account mint_key)
