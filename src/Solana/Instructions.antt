-- ===== src/Solana/Instructions.antt =====
-- solana/ts/sdk/xchain_token/instructions: the instructions that set the program up and send, and
-- what the client reads of the program's accounts. An instruction is what Anchor's builder is given.
pub mod Numbered
use nimble_xchain_contracts.Prelude.{ℕ, ◌+◌, ◌^◌, List, [], ◌∷◌, ◌++◌, Option, none, some}
use nimble_xchain_contracts.Js.{Text, text, Outcome, ok, throws, ◌>>=◌}
use nimble_xchain_contracts.Js.Object.{object_of}
use nimble_xchain_contracts.Solana.Sdk.{
  Bytes, Key, KeyInit, key, Accounts, Sdk, Derivation, endpoint, associated_token,
}
use nimble_xchain_contracts.Solana.Keys.{
  derive_sender_config_key, derive_redeemer_config_key, derive_foreign_contract_key,
  derive_token_transfer_message_key, derive_tmp_token_account_key,
}

-- `SendTokensParams`
pub record SendTokensParams : Type 0 where
  pub batch_id : ℕ
  pub amount : ℕ
  pub recipient_address : Bytes
  pub recipient_chain : ℕ

-- The program's methods with their arguments.
pub data Method : Type 0 where
  initialize : (relayer_fee relayer_fee_precision : ℕ) → Method
  update_relayer_fee : (relayer_fee relayer_fee_precision : ℕ) → Method
  register_foreign_contract : (chain : ℕ) (address : Bytes) → Method
  send_native_tokens_with_payload send_wrapped_tokens_with_payload :
      (batch_id amount : ℕ) (recipient_address : Bytes) (recipient_chain : ℕ) → Method
  redeem_native_transfer_with_payload redeem_wrapped_transfer_with_payload :
      (vaa_hash : Bytes) → Method

pub record Instruction : Type 0 where
  pub program : Key
  pub method : Method
  pub accounts : Accounts

abbrev pub instruction : Key → Method → Accounts → Instruction
instruction program method accounts = record {
  program = program;
  method = method;
  accounts = accounts;
}

-- The message account and the payer's and the temporary token account of a sending: the message
-- has the sequence number after the tracker's.
pub record Sending : Type 0 where
  pub program : Key
  pub message : Key
  pub from_token_account : Key
  pub tmp_token_account : Key

module _ (s : Sdk) where
  -- The program's own key, in `createXChainTokenProgramInterface(connection, programId)`.
  unfoldable pub create_program_interface : KeyInit → Outcome Key
  create_program_interface program_id = s.public_key program_id

  unfoldable pub create_initialize_instruction :
      (program_id payer bridge wormhole : KeyInit) (relayer_fee relayer_fee_precision : ℕ)
      → Outcome Instruction
  create_initialize_instruction program_id payer bridge wormhole relayer_fee relayer_fee_precision =
      do
        program ← create_program_interface program_id
        bridge_accounts ← s.bridge_derived_accounts program bridge wormhole
        owner ← s.public_key payer
        sender_config ← derive_sender_config_key s program_id
        redeemer_config ← derive_redeemer_config_key s program_id
        bridge_program ← s.public_key bridge
        wormhole_program ← s.public_key wormhole
        ok (
            instruction program (initialize relayer_fee relayer_fee_precision) (
              object_of (
                (text "owner", owner)
                ∷ (text "senderConfig", sender_config)
                ∷ (text "redeemerConfig", redeemer_config)
                ∷ (text "tokenBridgeProgram", bridge_program)
                ∷ (text "wormholeProgram", wormhole_program)
                ∷ bridge_accounts)))

  unfoldable pub create_update_relayer_fee_instruction :
      (program_id payer : KeyInit) (relayer_fee relayer_fee_precision : ℕ) → Outcome Instruction
  create_update_relayer_fee_instruction program_id payer relayer_fee relayer_fee_precision = do
    program ← create_program_interface program_id
    owner ← s.public_key payer
    config ← derive_redeemer_config_key s program_id
    ok (
        instruction program (update_relayer_fee relayer_fee relayer_fee_precision)
          (object_of ((text "owner", owner) ∷ (text "config", config) ∷ [])))

  unfoldable pub create_register_foreign_contract_instruction :
      (program_id payer bridge : KeyInit) (chain : ℕ)
      (contract_address bridge_foreign_address : Bytes)
      → Outcome Instruction
  create_register_foreign_contract_instruction program_id payer bridge chain contract_address
        bridge_foreign_address =
      do
        program ← create_program_interface program_id
        owner ← s.public_key payer
        config ← derive_sender_config_key s (key program)
        foreign_contract ← derive_foreign_contract_key s (key program) chain
        foreign_endpoint ← s.derive (endpoint bridge chain bridge_foreign_address)
        bridge_program ← s.public_key bridge
        ok (
            instruction program (register_foreign_contract chain contract_address) (
              object_of (
                (text "owner", owner)
                ∷ (text "config", config)
                ∷ (text "foreignContract", foreign_contract)
                ∷ (text "tokenBridgeForeignEndpoint", foreign_endpoint)
                ∷ (text "tokenBridgeProgram", bridge_program)
                ∷ [])))

  unfoldable pub start_sending : (program_id payer bridge wormhole mint : KeyInit) → Outcome Sending
  start_sending program_id payer bridge wormhole mint = do
    program ← create_program_interface program_id
    tracker ← s.program_sequence_tracker bridge wormhole
    message ← derive_token_transfer_message_key s program_id (tracker.sequence + 1)
    mint_key ← s.public_key mint
    owner ← s.public_key payer
    from_token_account ← s.derive (associated_token mint_key owner)
    tmp_token_account ← derive_tmp_token_account_key s program_id mint
    ok (record {
      program = program;
      message = message;
      from_token_account = from_token_account;
      tmp_token_account = tmp_token_account;
    })

  -- The instruction of a sending, over the token bridge's accounts for it.
  unfoldable pub finish_sending :
      (program_id bridge : KeyInit) (recipient_chain : ℕ)
      → Method
      → Sending
      → Accounts
      → Outcome Instruction
  finish_sending program_id bridge recipient_chain method sending bridge_accounts = do
    config ← derive_sender_config_key s program_id
    foreign_contract ← derive_foreign_contract_key s program_id recipient_chain
    bridge_program ← s.public_key bridge
    ok (
        instruction sending.program method (
          object_of (
            (text "config", config)
            ∷ (text "foreignContract", foreign_contract)
            ∷ (text "tmpTokenAccount", sending.tmp_token_account)
            ∷ (text "tokenBridgeProgram", bridge_program)
            ∷ bridge_accounts)))

  unfoldable pub create_send_native_tokens_instruction :
      (program_id payer bridge wormhole mint : KeyInit) → SendTokensParams → Outcome Instruction
  create_send_native_tokens_instruction program_id payer bridge wormhole mint params = do
    sending ← start_sending program_id payer bridge wormhole mint
    bridge_accounts ←
        s.transfer_native_accounts program_id bridge wormhole payer sending.message
          sending.from_token_account mint
    finish_sending program_id bridge params.recipient_chain
        (send_native_tokens_with_payload params.batch_id params.amount params.recipient_address
          params.recipient_chain)
        sending bridge_accounts

  unfoldable pub create_send_wrapped_tokens_instruction :
      (program_id payer bridge wormhole mint : KeyInit) → SendTokensParams → Outcome Instruction
  create_send_wrapped_tokens_instruction program_id payer bridge wormhole mint params = do
    sending ← start_sending program_id payer bridge wormhole mint
    wrapped ← s.wrapped_meta_of bridge mint
    bridge_accounts ←
        s.transfer_wrapped_accounts program_id bridge wormhole payer sending.message
          sending.from_token_account wrapped.chain wrapped.token_address
    finish_sending program_id bridge params.recipient_chain
        (send_wrapped_tokens_with_payload params.batch_id params.amount params.recipient_address
          params.recipient_chain)
        sending bridge_accounts

-- What the client reads of a foreign contract's account: the chain is the one that was asked for.
pub record ForeignEmitter : Type 0 where
  pub chain : ℕ
  pub address : Bytes

abbrev emitter_of : ℕ → ForeignEmitter → ForeignEmitter
emitter_of chain fetched = record { chain = chain; address = fetched.address }

-- Accounts as the program keeps them, which `fetch` of Anchor reads by their key.
module _ {ℓ κ} {SenderConfigData : Type ℓ} {RedeemerConfigData : Type κ} (s : Sdk)
    (fetch_sender_config : Key → Outcome SenderConfigData)
    (fetch_redeemer_config : Key → Outcome RedeemerConfigData)
    (fetch_foreign_contract : Key → Outcome ForeignEmitter) where
  unfoldable pub get_sender_config_data : KeyInit → Outcome SenderConfigData
  get_sender_config_data program_id = do
    program ← create_program_interface s program_id
    account ← derive_sender_config_key s program_id
    fetch_sender_config account

  unfoldable pub get_redeemer_config_data : KeyInit → Outcome RedeemerConfigData
  get_redeemer_config_data program_id = do
    program ← create_program_interface s program_id
    account ← derive_redeemer_config_key s program_id
    fetch_redeemer_config account

  unfoldable pub get_foreign_contract_data : KeyInit → ℕ → Outcome ForeignEmitter
  get_foreign_contract_data program_id chain = do
    program ← create_program_interface s program_id
    account ← derive_foreign_contract_key s program_id chain
    fetched ← fetch_foreign_contract account
    ok (emitter_of chain fetched)
