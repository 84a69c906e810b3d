-- ===== src/Solana/Redeem.antt =====
-- solana/ts/sdk/xchain_token/instructions: redeeming a transfer of a native and of a wrapped token.
pub mod Bridged
pub mod Paid
pub mod Kinds
use nimble_xchain_contracts.Prelude.{ℕ, List, [], ◌∷◌, ◌++◌}
use nimble_xchain_contracts.Js.{Text, text, Outcome, ok, throws, ◌>>=◌}
use nimble_xchain_contracts.Js.Object.{object_of}
use nimble_xchain_contracts.Solana.Sdk.{
  Bytes, Key, KeyInit, bytes, key, Accounts, ParsedTransfer, WormholeMessage, signed, parsed, Sdk,
  associated_token, posted_vaa, claim, endpoint, redeemer_account, bridge_config, custody_signer,
  mint_authority, custody, wrapped_meta, wrapped_mint,
}
use nimble_xchain_contracts.Solana.Keys.{
  derive_redeemer_config_key, derive_foreign_contract_key, derive_tmp_token_account_key,
}
use nimble_xchain_contracts.Solana.Message.{payload_recipient}
use nimble_xchain_contracts.Solana.Instructions.{
  Method, redeem_native_transfer_with_payload, redeem_wrapped_transfer_with_payload, Instruction,
  instruction, create_program_interface,
}

module _ (s : Sdk) where
  unfoldable pub parsed_of : WormholeMessage → Outcome ParsedTransfer
  parsed_of (signed bs) = s.parse_token_transfer_vaa bs
  parsed_of (parsed p) = ok p

  -- The accounts of the token bridge that do not depend on the kind of token, around those that do.
  unfoldable pub with_bridge_accounts :
      (bridge wormhole payer : KeyInit) (p : ParsedTransfer) (to_token_account : KeyInit)
      (token_accounts : Outcome Accounts)
      → Outcome Accounts
  with_bridge_accounts bridge wormhole payer p to_token_account token_accounts = do
    cpi_program ← s.public_key (bytes p.to)
    payer_key ← s.public_key payer
    config ← s.derive (bridge_config bridge)
    vaa ← s.derive (posted_vaa wormhole p.hash)
    claim_key ← s.derive (claim bridge p.emitter_address p.emitter_chain p.sequence)
    foreign_endpoint ← s.derive (endpoint bridge p.emitter_chain p.emitter_address)
    to_account ← s.public_key to_token_account
    redeemer ← s.derive (redeemer_account cpi_program)
    fees_account ← s.public_key to_token_account
    tokens ← token_accounts
    wormhole_program ← s.public_key wormhole
    ok (
        (text "payer", payer_key)
        ∷ (text "tokenBridgeConfig", config)
        ∷ (text "vaa", vaa)
        ∷ (text "tokenBridgeClaim", claim_key)
        ∷ (text "tokenBridgeForeignEndpoint", foreign_endpoint)
        ∷ (text "toTokenAccount", to_account)
        ∷ (text "tokenBridgeRedeemer", redeemer)
        ∷ (text "toFeesTokenAccount", fees_account)
        ∷ (tokens
            ++ ((text "rent", s.rent)
                ∷ (text "systemProgram", s.system_program)
                ∷ (text "tokenProgram", s.token_program)
                ∷ (text "wormholeProgram", wormhole_program)
                ∷ [])))

  unfoldable pub native_token_accounts : KeyInit → Key → Outcome Accounts
  native_token_accounts bridge mint = do
    custody_key ← s.derive (custody bridge mint)
    signer ← s.derive (custody_signer bridge)
    ok (
        (text "tokenBridgeCustody", custody_key)
        ∷ (text "mint", mint)
        ∷ (text "tokenBridgeCustodySigner", signer)
        ∷ [])

  unfoldable pub wrapped_token_accounts : KeyInit → Key → Outcome Accounts
  wrapped_token_accounts bridge mint = do
    meta ← s.derive (wrapped_meta bridge mint)
    authority ← s.derive (mint_authority bridge)
    ok (
        (text "tokenBridgeWrappedMint", mint)
        ∷ (text "tokenBridgeWrappedMeta", meta)
        ∷ (text "tokenBridgeMintAuthority", authority)
        ∷ [])

  unfoldable pub complete_transfer_native_accounts :
      (bridge wormhole payer : KeyInit) (vaa : WormholeMessage) (to_token_account : KeyInit)
      → Outcome Accounts
  unfolding native_token_accounts with_bridge_accounts
  complete_transfer_native_accounts bridge wormhole payer vaa to_token_account = do
    p ← parsed_of vaa
    mint ← s.public_key (bytes p.token_address)
    with_bridge_accounts bridge wormhole payer p to_token_account
        (native_token_accounts bridge mint)

  unfoldable pub complete_transfer_wrapped_accounts :
      (bridge wormhole payer : KeyInit) (vaa : WormholeMessage) (to_token_account : KeyInit)
      → Outcome Accounts
  unfolding wrapped_token_accounts with_bridge_accounts
  complete_transfer_wrapped_accounts bridge wormhole payer vaa to_token_account = do
    p ← parsed_of vaa
    mint ← s.derive (wrapped_mint bridge p.token_chain p.token_address)
    with_bridge_accounts bridge wormhole payer p to_token_account
        (wrapped_token_accounts bridge mint)

  -- What the two redemptions share, once the mint is known.
  unfoldable pub redeem_transfer :
      (program_id payer bridge : KeyInit) (program : Key) (p : ParsedTransfer) (mint : Key)
      (method : Method) (bridge_accounts : Key → Outcome Accounts)
      → Outcome Instruction
  redeem_transfer program_id payer bridge program p mint method bridge_accounts_of = do
    tmp_token_account ← derive_tmp_token_account_key s program_id (key mint)
    bridge_accounts ← bridge_accounts_of tmp_token_account
    recipient ← s.public_key (bytes (payload_recipient p.token_transfer_payload))
    recipient_token_account ← s.derive (associated_token mint recipient)
    config ← derive_redeemer_config_key s program_id
    foreign_contract ← derive_foreign_contract_key s program_id p.emitter_chain
    payer_key ← s.public_key payer
    payer_token_account ← s.derive (associated_token mint payer_key)
    bridge_program ← s.public_key bridge
    ok (
        instruction program method (
          object_of (
            (text "config", config)
            ∷ (text "foreignContract", foreign_contract)
            ∷ (text "tmpTokenAccount", tmp_token_account)
            ∷ (text "recipientTokenAccount", recipient_token_account)
            ∷ (text "recipient", recipient)
            ∷ (text "payerTokenAccount", payer_token_account)
            ∷ (text "tokenBridgeProgram", bridge_program)
            ∷ bridge_accounts)))

  unfoldable pub create_redeem_native_transfer_instruction :
      (program_id payer bridge wormhole : KeyInit) → WormholeMessage → Outcome Instruction
  create_redeem_native_transfer_instruction program_id payer bridge wormhole message = do
    program ← create_program_interface s program_id
    p ← parsed_of message
    mint ← s.public_key (bytes p.token_address)
    redeem_transfer program_id payer bridge program p mint
        (redeem_native_transfer_with_payload p.hash)
        (λ account.
          complete_transfer_native_accounts bridge wormhole payer (parsed p) (key account))

  unfoldable pub create_redeem_wrapped_transfer_instruction :
      (program_id payer bridge wormhole : KeyInit) → WormholeMessage → Outcome Instruction
  create_redeem_wrapped_transfer_instruction program_id payer bridge wormhole message = do
    program ← create_program_interface s program_id
    p ← parsed_of message
    mint ← s.derive (wrapped_mint bridge p.token_chain p.token_address)
    redeem_transfer program_id payer bridge program p mint
        (redeem_wrapped_transfer_with_payload p.hash)
        (λ account.
          complete_transfer_wrapped_accounts bridge wormhole payer (parsed p) (key account))
