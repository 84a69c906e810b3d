-- ===== src/Solana/Instructions/Numbered.antt =====
-- The message account of a sending.
use nimble_xchain_contracts.Prelude.{ℕ, ◌+◌, ◌^◌, ◌<◌, ◌≡◌, sym, ap, ◌∙◌, [], ◌∷◌}
use nimble_xchain_contracts.Js.{text, ok, ok_injective, returned, ◌>>=◌}
use nimble_xchain_contracts.Solana.Sdk.{
  Key, KeyInit, Accounts, Sdk, SequenceTracker, address, associated_token,
}
use nimble_xchain_contracts.Solana.Keys.{
  le_bytes, write_le, derive_token_transfer_message_key, derive_tmp_token_account_key,
  derive_account, derive_sender_config_key, derive_foreign_contract_key, seeds_of,
}
use nimble_xchain_contracts.Solana.Keys.Distinct.{write_le_returned}
use nimble_xchain_contracts.Solana.Instructions.{
  Method, send_native_tokens_with_payload, send_wrapped_tokens_with_payload, finish_sending,
  SendTokensParams, Instruction, Sending, start_sending, create_program_interface,
  create_send_native_tokens_instruction, create_send_wrapped_tokens_instruction,
}

module _ (s : Sdk) (program_id payer bridge wormhole mint : KeyInit) where
  -- The sequence number that the token bridge gives next fits 8 bytes, and the message account has it
  -- in its seeds.
  pub record Numbered (sending : Sending) : Type 0 where
    pub tracker : SequenceTracker
    pub tracks : s.program_sequence_tracker bridge wormhole ≡ ok tracker
    pub fits : tracker.sequence + 1 < 2 ^ 64
    pub addresses :
        s.derive (address (text "bridged" ∷ le_bytes 8 (tracker.sequence + 1) ∷ []) program_id)
        ≡ ok sending.message

  message_key_returned :
      (sequence : ℕ) (message : Key)
      → derive_token_transfer_message_key s program_id sequence ≡ ok message
      → (sequence < 2 ^ 64)
        × (s.derive (address (text "bridged" ∷ le_bytes 8 sequence ∷ []) program_id) ≡ ok message)
  unfolding derive_token_transfer_message_key derive_account seeds_of
  message_key_returned sequence message h =
      let (seeds, derives, e1) =
        returned _ message (write_le 8 sequence >>= λ buf. ok (text "bridged" ∷ buf ∷ [])) h in
      let (buf, is_seeds, e2) = returned _ seeds (write_le 8 sequence) e1 in
      let (small, is_buf) = write_le_returned 8 sequence buf e2 in
      let same : text "bridged" ∷ le_bytes 8 sequence ∷ [] ≡ seeds =
        ap (λ b. text "bridged" ∷ b ∷ []) (sym is_buf) ∙ ok_injective is_seeds in
      (small, ap (λ seeds. s.derive (address seeds program_id)) same ∙ derives)

  start_sending-Numbered :
      (sending : Sending)
      → start_sending s program_id payer bridge wormhole mint ≡ ok sending
      → Numbered sending
  unfolding start_sending
  start_sending-Numbered sending h =
      let (program, h1, e1) = returned _ sending (create_program_interface s program_id) h in
      let (tracker, h2, e2) = returned _ sending (s.program_sequence_tracker bridge wormhole) h1 in
      let (message, h3, e3) =
        returned _ sending (derive_token_transfer_message_key s program_id (tracker.sequence + 1))
          h2 in
      let (mint_key, h4, e4) = returned _ sending (s.public_key mint) h3 in
      let (owner, h5, e5) = returned _ sending (s.public_key payer) h4 in
      let (from_account, h6, e6) =
        returned _ sending (s.derive (associated_token mint_key owner)) h5 in
      let (tmp_account, h7, e7) =
        returned _ sending (derive_tmp_token_account_key s program_id mint) h6 in
      let same : message ≡ sending.message = ap (λ x. x.message) (ok_injective h7) in
      let (fits, addresses) = message_key_returned (tracker.sequence + 1) message e3 in
      record { tracker = tracker; tracks = e2; fits = fits; addresses = addresses ∙ ap ok same }

  finish_sending_method :
      (chain : ℕ) (method : Method) (sending : Sending) (bridge_accounts : Accounts)
      (ins : Instruction)
      → finish_sending s program_id bridge chain method sending bridge_accounts ≡ ok ins
      → ins.method ≡ method
  unfolding finish_sending
  finish_sending_method chain method sending bridge_accounts ins h =
      let (config, h1, e1) = returned _ ins (derive_sender_config_key s program_id) h in
      let (contract, h2, e2) = returned _ ins (derive_foreign_contract_key s program_id chain) h1 in
      let (bridge_program, h3, e3) = returned _ ins (s.public_key bridge) h2 in
      ap (λ i. i.method) (sym (ok_injective h3))

  -- An instruction that sends a native token carries the batch, amount, recipient and chain that it
  -- is given, with a message account that is numbered by the token bridge's next sequence number.
  send_native-Numbered :
      (params : SendTokensParams) (ins : Instruction)
      → create_send_native_tokens_instruction s program_id payer bridge wormhole mint params
        ≡ ok ins
      → (sending : Sending) × Numbered sending
        × (ins.method
            ≡ send_native_tokens_with_payload params.batch_id params.amount params.recipient_address
                params.recipient_chain)
  unfolding create_send_native_tokens_instruction
  send_native-Numbered params ins h =
      let (sending, h1, e1) =
        returned _ ins (start_sending s program_id payer bridge wormhole mint) h in
      let (accounts, h2, e2) =
        returned _ ins
          (s.transfer_native_accounts program_id bridge wormhole payer sending.message
            sending.from_token_account mint)
          h1 in
      (
        sending,
        start_sending-Numbered sending e1,
        finish_sending_method params.recipient_chain _ sending accounts ins h2,
      )

  -- An instruction that sends a wrapped token carries the batch, amount, recipient and chain that it
  -- is given, with a message account that is numbered by the token bridge's next sequence number.
  send_wrapped-Numbered :
      (params : SendTokensParams) (ins : Instruction)
      → create_send_wrapped_tokens_instruction s program_id payer bridge wormhole mint params
        ≡ ok ins
      → (sending : Sending) × Numbered sending
        × (ins.method
            ≡ send_wrapped_tokens_with_payload params.batch_id params.amount
                params.recipient_address params.recipient_chain)
  unfolding create_send_wrapped_tokens_instruction
  send_wrapped-Numbered params ins h =
      let (sending, h1, e1) =
        returned _ ins (start_sending s program_id payer bridge wormhole mint) h in
      let (wrapped, h2, e2) = returned _ ins (s.wrapped_meta_of bridge mint) h1 in
      let (accounts, h3, e3) =
        returned _ ins
          (s.transfer_wrapped_accounts program_id bridge wormhole payer sending.message
            sending.from_token_account wrapped.chain wrapped.token_address)
          h2 in
      (
        sending,
        start_sending-Numbered sending e1,
        finish_sending_method params.recipient_chain _ sending accounts ins h3,
      )
