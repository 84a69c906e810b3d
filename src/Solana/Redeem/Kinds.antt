-- ===== src/Solana/Redeem/Kinds.antt =====
-- The redemption of a native and of a wrapped token.
use nimble_xchain_contracts.Prelude.{◌≡◌, ap, sym, ◌∙◌}
use nimble_xchain_contracts.Js.{Outcome, ok, ok_injective, returned, ◌>>=◌}
use nimble_xchain_contracts.Solana.Sdk.{
  Key, KeyInit, bytes, key, Accounts, ParsedTransfer, WormholeMessage, parsed, Sdk, KeepsKeys,
  custody_signer, mint_authority, custody, wrapped_meta, wrapped_mint,
}
use nimble_xchain_contracts.Solana.Instructions.{
  redeem_native_transfer_with_payload, redeem_wrapped_transfer_with_payload, Instruction,
  create_program_interface,
}
use nimble_xchain_contracts.Solana.Redeem.{
  parsed_of, create_redeem_native_transfer_instruction, create_redeem_wrapped_transfer_instruction,
  complete_transfer_native_accounts, complete_transfer_wrapped_accounts, native_token_accounts,
  wrapped_token_accounts,
}
use nimble_xchain_contracts.Solana.Redeem.Bridged.{
  Bridge, with_bridge_accounts-Bridge, native, wrapped, Tokens,
}
use nimble_xchain_contracts.Solana.Redeem.Paid.{Paid, redeem_transfer-Paid}

continues :
    {A : Type 0} (f : Key → Outcome A) {m : Outcome Key} {k : Key} {a : A}
    → m ≡ ok k
    → (m >>= f) ≡ ok a
    → f k ≡ ok a
continues f is h = ap (λ m. m >>= f) (sym is) ∙ h

module _ (s : Sdk) where
  native_token_accounts-Tokens :
      (bridge : KeyInit) (mint : Key) (tokens : Accounts)
      → native_token_accounts s bridge mint ≡ ok tokens
      → Tokens s native tokens
  unfolding native_token_accounts
  native_token_accounts-Tokens bridge mint tokens h =
      let (custody_key, h1, e1) = returned _ tokens (s.derive (custody bridge mint)) h in
      let (signer, h2, e2) = returned _ tokens (s.derive (custody_signer bridge)) h1 in
      (custody_key, mint, signer, sym (ok_injective h2))

  wrapped_token_accounts-Tokens :
      (bridge : KeyInit) (mint : Key) (tokens : Accounts)
      → wrapped_token_accounts s bridge mint ≡ ok tokens
      → Tokens s wrapped tokens
  unfolding wrapped_token_accounts
  wrapped_token_accounts-Tokens bridge mint tokens h =
      let (meta, h1, e1) = returned _ tokens (s.derive (wrapped_meta bridge mint)) h in
      let (authority, h2, e2) = returned _ tokens (s.derive (mint_authority bridge)) h1 in
      (mint, meta, authority, sym (ok_injective h2))

  complete_native-Bridge :
      (bridge wormhole payer : KeyInit) (p : ParsedTransfer) (mint : Key)
      → s.public_key (bytes p.token_address) ≡ ok mint
      → (to : Key) (accounts : Accounts)
      → complete_transfer_native_accounts s bridge wormhole payer (parsed p) (key to) ≡ ok accounts
      → Bridge s (key to) (native_token_accounts s bridge mint) accounts
  unfolding complete_transfer_native_accounts parsed_of
  complete_native-Bridge bridge wormhole payer p mint is_mint to accounts h =
      with_bridge_accounts-Bridge s bridge wormhole payer p (key to)
        (native_token_accounts s bridge mint) accounts (continues _ is_mint h)

  -- An instruction that redeems a native token is for the parsed message's hash and pays the
  -- recipient of its payload, in the token whose mint the message names.
  pub redeem_native-Paid :
      KeepsKeys s
      → (program_id payer bridge wormhole : KeyInit) (message : WormholeMessage) (ins : Instruction)
      → create_redeem_native_transfer_instruction s program_id payer bridge wormhole message
        ≡ ok ins
      → (p : ParsedTransfer) × (mint : Key) × (parsed_of s message ≡ ok p)
        × (s.public_key (bytes p.token_address) ≡ ok mint)
        × ((ins.method ≡ redeem_native_transfer_with_payload p.hash)
            × Paid s program_id p mint ins.accounts)
  unfolding create_redeem_native_transfer_instruction
  redeem_native-Paid keeps_keys program_id payer bridge wormhole message ins h =
      let (program, h1, e1) = returned _ ins (create_program_interface s program_id) h in
      let (p, h2, e2) = returned _ ins (parsed_of s message) h1 in
      let (mint, h3, e3) = returned _ ins (s.public_key (bytes p.token_address)) h2 in
      (
        p,
        mint,
        e2,
        e3,
        redeem_transfer-Paid s keeps_keys native program_id payer bridge program p mint _ _
            (native_token_accounts s bridge mint)
            (complete_native-Bridge bridge wormhole payer p mint e3)
            (native_token_accounts-Tokens bridge mint) ins h3,
      )

  complete_wrapped-Bridge :
      (bridge wormhole payer : KeyInit) (p : ParsedTransfer) (mint : Key)
      → s.derive (wrapped_mint bridge p.token_chain p.token_address) ≡ ok mint
      → (to : Key) (accounts : Accounts)
      → complete_transfer_wrapped_accounts s bridge wormhole payer (parsed p) (key to) ≡ ok accounts
      → Bridge s (key to) (wrapped_token_accounts s bridge mint) accounts
  unfolding complete_transfer_wrapped_accounts parsed_of
  complete_wrapped-Bridge bridge wormhole payer p mint is_mint to accounts h =
      with_bridge_accounts-Bridge s bridge wormhole payer p (key to)
        (wrapped_token_accounts s bridge mint) accounts (continues _ is_mint h)

  -- An instruction that redeems a wrapped token is for the parsed message's hash and pays the
  -- recipient of its payload, in the token that the bridge
  -- has minted for the message's token.
  redeem_wrapped-Paid :
      KeepsKeys s
      → (program_id payer bridge wormhole : KeyInit) (message : WormholeMessage) (ins : Instruction)
      → create_redeem_wrapped_transfer_instruction s program_id payer bridge wormhole message
        ≡ ok ins
      → (p : ParsedTransfer) × (mint : Key) × (parsed_of s message ≡ ok p)
        × (s.derive (wrapped_mint bridge p.token_chain p.token_address) ≡ ok mint)
        × ((ins.method ≡ redeem_wrapped_transfer_with_payload p.hash)
            × Paid s program_id p mint ins.accounts)
  unfolding create_redeem_wrapped_transfer_instruction
  redeem_wrapped-Paid keeps_keys program_id payer bridge wormhole message ins h =
      let (program, h1, e1) = returned _ ins (create_program_interface s program_id) h in
      let (p, h2, e2) = returned _ ins (parsed_of s message) h1 in
      let (mint, h3, e3) =
        returned _ ins (s.derive (wrapped_mint bridge p.token_chain p.token_address)) h2 in
      (
        p,
        mint,
        e2,
        e3,
        redeem_transfer-Paid s keeps_keys wrapped program_id payer bridge program p mint _ _
            (wrapped_token_accounts s bridge mint)
            (complete_wrapped-Bridge bridge wormhole payer p mint e3)
            (wrapped_token_accounts-Tokens bridge mint) ins h3,
      )
