-- ===== src/Solana/Tests.antt =====
-- The client on packages that derive short addresses: the seeds in a row, or the arguments.
use nimble_xchain_contracts.Prelude.{◌≡◌, refl, List, [], ◌∷◌, ◌++◌}
use nimble_xchain_contracts.Js.{text, Outcome, ok, throws, range_error}
use nimble_xchain_contracts.Solana.Sdk.{
  Bytes, Key, KeyInit, base58, bytes, key, ParsedTransfer, parsed, signed, Derivation, address,
  associated_token, posted_vaa, claim, endpoint, redeemer_account, bridge_config, custody_signer,
  mint_authority, custody, wrapped_meta, wrapped_mint, Sdk, KeepsKeys,
}
use nimble_xchain_contracts.Solana.Keys.{
  foreign_contract, seeds_of, write_le, le_bytes, derive_account, derive_sender_config_key,
  derive_redeemer_config_key, derive_foreign_contract_key, derive_token_transfer_message_key,
  derive_tmp_token_account_key,
}
use nimble_xchain_contracts.Solana.Keys.Distinct.{seeds_of_injective}
use nimble_xchain_contracts.Solana.Message.{deserialize, recipient_slice}
use nimble_xchain_contracts.Solana.Instructions.{
  SendTokensParams, Instruction, redeem_native_transfer_with_payload, create_program_interface,
  start_sending, finish_sending, create_send_native_tokens_instruction,
  create_send_wrapped_tokens_instruction,
}
use nimble_xchain_contracts.Solana.Redeem.{
  parsed_of, redeem_transfer, complete_transfer_native_accounts, complete_transfer_wrapped_accounts,
  create_redeem_native_transfer_instruction, create_redeem_wrapped_transfer_instruction,
}
use nimble_xchain_contracts.Solana.Redeem.Paid.{Paid}
use nimble_xchain_contracts.Solana.Redeem.Kinds.{redeem_native-Paid}

abbrev public_key : KeyInit → Outcome Key
public_key (base58 t) = ok t
public_key (bytes bs) = ok bs
public_key (key k) = ok k

abbrev first_seed : List Bytes → Key
first_seed [] = []
first_seed (seed ∷ seeds) = seed

abbrev derive : Derivation → Outcome Key
derive (address seeds program) = ok (first_seed seeds)
derive (associated_token mint owner) = ok (mint ++ owner)
derive (posted_vaa wormhole hash) = ok hash
derive (claim bridge emitter chain sequence) = ok emitter
derive (endpoint bridge chain emitter) = ok emitter
derive (redeemer_account program) = ok program
derive (bridge_config bridge) = ok (1 ∷ [])
derive (custody_signer bridge) = ok (2 ∷ [])
derive (mint_authority bridge) = ok (3 ∷ [])
derive (custody bridge mint) = ok mint
derive (wrapped_meta bridge mint) = ok mint
derive (wrapped_mint bridge chain token) = ok token

abbrev transfer : ParsedTransfer
transfer = record {
  hash = 9 ∷ [];
  emitter_address = 8 ∷ [];
  emitter_chain = 2;
  sequence = 5;
  token_chain = 2;
  token_address = 7 ∷ [];
  to = 6 ∷ [];
  token_transfer_payload = 1 ∷ 4 ∷ 4 ∷ [];
}

abbrev sdk : Sdk
sdk = record {
  public_key = public_key;
  derive = derive;
  parse_token_transfer_vaa = λ bs. ok transfer;
  program_sequence_tracker = λ bridge wormhole. ok (record { sequence = 41 });
  wrapped_meta_of = λ bridge mint. ok (record { chain = 2; token_address = 7 ∷ [] });
  bridge_derived_accounts = λ program bridge wormhole. ok [];
  transfer_native_accounts = λ program bridge wormhole payer message from_account mint. ok [];
  transfer_wrapped_accounts =
      λ program bridge wormhole payer message from_account chain token_address. ok [];
  rent = 11 ∷ [];
  system_program = 12 ∷ [];
  token_program = 13 ∷ [];
}

keeps_keys : KeepsKeys sdk
keeps_keys = record { keeps = λ k. refl }

-- The two bytes of a chain, and a chain that has none.
seeds_of_test : seeds_of (foreign_contract 258) ≡ ok (text "foreign_contract" ∷ (2 ∷ 1 ∷ []) ∷ [])
unfolding seeds_of write_le le_bytes
seeds_of_test = refl

seeds_of_range_test : seeds_of (foreign_contract 65_536) ≡ throws range_error
unfolding seeds_of write_le le_bytes
seeds_of_range_test = refl

seeds_of_example : foreign_contract 258 ≡ foreign_contract 258
seeds_of_example =
    seeds_of_injective (foreign_contract 258) (foreign_contract 258) _ _ seeds_of_test seeds_of_test
      refl

abbrev recipient : Bytes
recipient =
    1 ∷ 2 ∷ 3 ∷ 4 ∷ 5 ∷ 6 ∷ 7 ∷ 8 ∷ 9 ∷ 10 ∷ 11 ∷ 12 ∷ 13 ∷ 14 ∷ 15 ∷ 16 ∷ 17 ∷ 18 ∷ 19 ∷ 20 ∷ 21
    ∷ 22 ∷ 23 ∷ 24 ∷ 25 ∷ 26 ∷ 27 ∷ 28 ∷ 29 ∷ 30 ∷ 31 ∷ 32 ∷ []

-- Two bytes follow the recipient.
deserialize_test : deserialize ((1 ∷ recipient) ++ (7 ∷ 7 ∷ [])) ≡ ok recipient
unfolding deserialize recipient_slice
deserialize_test = refl

abbrev none_built : Instruction
none_built = record { program = []; method = redeem_native_transfer_with_payload []; accounts = [] }

abbrev built : Outcome Instruction → Instruction
built (ok ins) = ins
built (throws e) = none_built

abbrev program_id : KeyInit
program_id = base58 (text "program")

abbrev payer : KeyInit
payer = base58 (text "payer")

abbrev bridge : KeyInit
bridge = base58 (text "bridge")

abbrev wormhole : KeyInit
wormhole = base58 (text "wormhole")

abbrev native_redemption : Outcome Instruction
native_redemption =
    create_redeem_native_transfer_instruction sdk program_id payer bridge wormhole (signed [])

redeem_native_test : native_redemption ≡ ok (built native_redemption)
unfolding create_redeem_native_transfer_instruction create_program_interface parsed_of
    redeem_transfer derive_tmp_token_account_key derive_account seeds_of
    complete_transfer_native_accounts derive_redeemer_config_key derive_foreign_contract_key
    write_le le_bytes
redeem_native_test = refl

redeem_native_example :
    (p : ParsedTransfer) × (mint : Key) × (parsed_of sdk (signed []) ≡ ok p)
    × (public_key (bytes p.token_address) ≡ ok mint)
    × (((built native_redemption).method ≡ redeem_native_transfer_with_payload p.hash)
        × Paid sdk program_id p mint (built native_redemption).accounts)
redeem_native_example =
    redeem_native-Paid sdk keeps_keys program_id payer bridge wormhole (signed [])
      (built native_redemption) redeem_native_test

abbrev wrapped_redemption : Outcome Instruction
wrapped_redemption =
    create_redeem_wrapped_transfer_instruction sdk program_id payer bridge wormhole
      (parsed transfer)

redeem_wrapped_test : wrapped_redemption ≡ ok (built wrapped_redemption)
unfolding create_redeem_wrapped_transfer_instruction create_program_interface parsed_of
    redeem_transfer derive_tmp_token_account_key derive_account seeds_of
    complete_transfer_wrapped_accounts derive_redeemer_config_key derive_foreign_contract_key
    write_le le_bytes
redeem_wrapped_test = refl

abbrev params : SendTokensParams
params = record { batch_id = 0; amount = 1_000; recipient_address = 5 ∷ []; recipient_chain = 2 }

abbrev mint : KeyInit
mint = base58 (text "mint")

abbrev native_sending : Outcome Instruction
native_sending =
    create_send_native_tokens_instruction sdk program_id payer bridge wormhole mint params

send_native_test : native_sending ≡ ok (built native_sending)
unfolding create_send_native_tokens_instruction start_sending create_program_interface
    derive_token_transfer_message_key derive_tmp_token_account_key derive_account seeds_of
    finish_sending derive_sender_config_key derive_foreign_contract_key write_le le_bytes
send_native_test = refl

abbrev wrapped_sending : Outcome Instruction
wrapped_sending =
    create_send_wrapped_tokens_instruction sdk program_id payer bridge wormhole mint params

send_wrapped_test : wrapped_sending ≡ ok (built wrapped_sending)
unfolding create_send_wrapped_tokens_instruction start_sending create_program_interface
    derive_token_transfer_message_key derive_tmp_token_account_key derive_account seeds_of
    finish_sending derive_sender_config_key derive_foreign_contract_key write_le le_bytes
send_wrapped_test = refl
