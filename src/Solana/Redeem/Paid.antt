-- ===== src/Solana/Redeem/Paid.antt =====
-- Who is paid by a redemption.
use nimble_xchain_contracts.Prelude.{◌≡◌, ap, sym, ◌∙◌, some}
use nimble_xchain_contracts.Js.{text, Outcome, ok, ok_injective, returned}
use nimble_xchain_contracts.Js.Object.{own}
use nimble_xchain_contracts.Solana.Sdk.{
  Key, KeyInit, bytes, key, Accounts, ParsedTransfer, Sdk, KeepsKeys, associated_token,
}
use nimble_xchain_contracts.Solana.Keys.{
  derive_redeemer_config_key, derive_foreign_contract_key, derive_tmp_token_account_key,
}
use nimble_xchain_contracts.Solana.Message.{payload_recipient}
use nimble_xchain_contracts.Solana.Instructions.{Method, Instruction}
use nimble_xchain_contracts.Solana.Redeem.{redeem_transfer}
use nimble_xchain_contracts.Solana.Redeem.Bridged.{
  Bridge, Kind, Tokens, Table, accounts_of, accounts_of_lem, owned,
}

module _ (s : Sdk) where
  -- The accounts of a redemption pay its recipient: bytes 1 to 32 of the payload are the recipient,
  -- whose token account is used; the temporary account of the mint gets the tokens and the fees;
  -- the sender is checked against the contract of the emitter's chain.
  pub record Paid (program_id : KeyInit) (p : ParsedTransfer) (mint : Key) (accounts : Accounts)
      : Type 0 where
    pub recipient : Key
    pub recipient_token_account : Key
    pub tmp_token_account : Key
    pub foreign_contract : Key
    pub reads : s.public_key (bytes (payload_recipient p.token_transfer_payload)) ≡ ok recipient
    pub associates : s.derive (associated_token mint recipient) ≡ ok recipient_token_account
    pub temporary : derive_tmp_token_account_key s program_id (key mint) ≡ ok tmp_token_account
    pub knows : derive_foreign_contract_key s program_id p.emitter_chain ≡ ok foreign_contract
    pub own-recipient : own (text "recipient") accounts ≡ some recipient
    pub own-recipient_token_account :
        own (text "recipientTokenAccount") accounts ≡ some recipient_token_account
    pub own-tmp_token_account : own (text "tmpTokenAccount") accounts ≡ some tmp_token_account
    pub own-to_token_account : own (text "toTokenAccount") accounts ≡ some tmp_token_account
    pub own-to_fees_token_account :
        own (text "toFeesTokenAccount") accounts ≡ some tmp_token_account
    pub own-foreign_contract : own (text "foreignContract") accounts ≡ some foreign_contract

  Table-Paid :
      (kind : Kind s) (t : Table s kind) (program_id : KeyInit) (p : ParsedTransfer) (mint : Key)
      (accounts : Accounts)
      → s.public_key (bytes (payload_recipient p.token_transfer_payload)) ≡ ok t.recipient
      → s.derive (associated_token mint t.recipient) ≡ ok t.recipient_token_account
      → derive_tmp_token_account_key s program_id (key mint) ≡ ok t.tmp
      → derive_foreign_contract_key s program_id p.emitter_chain ≡ ok t.foreign
      → accounts ≡ accounts_of s kind t
      → Paid program_id p mint accounts
  Table-Paid kind t program_id p mint accounts reads associates temporary knows is_table =
      let (o1, o2, o3, o4, o5, o6) = owned s kind t in
      record {
        recipient = t.recipient;
        recipient_token_account = t.recipient_token_account;
        tmp_token_account = t.tmp;
        foreign_contract = t.foreign;
        reads = reads;
        associates = associates;
        temporary = temporary;
        knows = knows;
        own-recipient = ap (own (text "recipient")) is_table ∙ o1;
        own-recipient_token_account = ap (own (text "recipientTokenAccount")) is_table ∙ o2;
        own-tmp_token_account = ap (own (text "tmpTokenAccount")) is_table ∙ o3;
        own-to_token_account = ap (own (text "toTokenAccount")) is_table ∙ o4;
        own-to_fees_token_account = ap (own (text "toFeesTokenAccount")) is_table ∙ o5;
        own-foreign_contract = ap (own (text "foreignContract")) is_table ∙ o6;
      }

  -- Both redemptions, over the accounts that depend on the kind of the token.
  pub redeem_transfer-Paid :
      KeepsKeys s
      → (kind : Kind s) (program_id payer bridge : KeyInit) (program : Key) (p : ParsedTransfer)
        (mint : Key) (method : Method) (bridge_accounts_of : Key → Outcome Accounts)
        (token_accounts : Outcome Accounts)
      → ((to : Key) (accounts : Accounts)
          → bridge_accounts_of to ≡ ok accounts
          → Bridge s (key to) token_accounts accounts)
      → ((tokens : Accounts) → token_accounts ≡ ok tokens → Tokens s kind tokens)
      → (ins : Instruction)
      → redeem_transfer s program_id payer bridge program p mint method bridge_accounts_of ≡ ok ins
      → (ins.method ≡ method) × Paid program_id p mint ins.accounts
  unfolding redeem_transfer accounts_of
  redeem_transfer-Paid keeps_keys kind program_id payer bridge program p mint method
        bridge_accounts_of token_accounts bridges kinds ins h =
      let (tmp, h1, e1) = returned _ ins (derive_tmp_token_account_key s program_id (key mint)) h in
      let (accounts, h2, e2) = returned _ ins (bridge_accounts_of tmp) h1 in
      let (recipient, h3, e3) =
        returned _ ins (s.public_key (bytes (payload_recipient p.token_transfer_payload))) h2 in
      let (recipient_token_account, h4, e4) =
        returned _ ins (s.derive (associated_token mint recipient)) h3 in
      let (config, h5, e5) = returned _ ins (derive_redeemer_config_key s program_id) h4 in
      let (foreign_contract, h6, e6) =
        returned _ ins (derive_foreign_contract_key s program_id p.emitter_chain) h5 in
      let (payer_key, h7, e7) = returned _ ins (s.public_key payer) h6 in
      let (payer_token_account, h8, e8) =
        returned _ ins (s.derive (associated_token mint payer_key)) h7 in
      let (bridge_program, h9, e9) = returned _ ins (s.public_key bridge) h8 in
      let b = bridges tmp accounts e2 in
      let to_is : b.to ≡ tmp = ok_injective (sym b.pays ∙ keeps_keys.keeps tmp) in
      let fees_is : b.fees ≡ tmp = ok_injective (sym b.pays_fees ∙ keeps_keys.keeps tmp) in
      let (x, y, z, tokens_are) = kinds b.tokens b.has_tokens in
      let table : Table s kind = record {
        config = config;
        foreign = foreign_contract;
        tmp = tmp;
        recipient_token_account = recipient_token_account;
        recipient = recipient;
        payer_token_account = payer_token_account;
        bridge_program = bridge_program;
        payer = b.payer;
        bridge_config = b.config;
        vaa = b.vaa;
        claim_key = b.claim_key;
        foreign_endpoint = b.foreign_endpoint;
        redeemer = b.redeemer;
        a = x;
        b = y;
        c = z;
        wormhole_program = b.wormhole_program;
      } in
      let is_table : ins.accounts ≡ accounts_of s kind table =
        ap (λ i. i.accounts) (sym (ok_injective h9))
        ∙ accounts_of_lem s kind table b.to b.fees b.tokens accounts to_is fees_is tokens_are
            b.lists in
      (
        ap (λ i. i.method) (sym (ok_injective h9)),
        Table-Paid kind table program_id p mint ins.accounts e3 e4 e1 e6 is_table,
      )
