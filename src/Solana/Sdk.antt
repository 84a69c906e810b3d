-- ===== src/Solana/Sdk.antt =====
-- What the client uses of Solana's and Wormhole's packages, as parameters.
use nimble_xchain_contracts.Prelude.{ℕ, List, ◌≡◌}
use nimble_xchain_contracts.Js.{Text, Outcome, ok}

abbrev pub Bytes : Type 0
Bytes = List ℕ

-- A public key is its bytes.
abbrev pub Key : Type 0
Key = Bytes

-- `PublicKeyInitData`
pub data KeyInit : Type 0 where
  base58 : Text → KeyInit
  bytes : Bytes → KeyInit
  key : Key → KeyInit

-- The accounts by their name in the program's interface.
abbrev pub Accounts : Type 0
Accounts = List (Text × Key)

-- `ParsedTokenTransferVaa`, of which the client reads this.
pub record ParsedTransfer : Type 0 where
  pub hash : Bytes
  pub emitter_address : Bytes
  pub emitter_chain : ℕ
  pub sequence : ℕ
  pub token_chain : ℕ
  pub token_address : Bytes
  pub to : Bytes
  pub token_transfer_payload : Bytes

-- `SignedVaa | ParsedTokenTransferVaa`, which `isBytes` tells apart.
pub data WormholeMessage : Type 0 where
  signed : Bytes → WormholeMessage
  parsed : ParsedTransfer → WormholeMessage

-- The addresses that the packages derive, by their function's arguments.
pub data Derivation : Type 0 where
  address : (seeds : List Bytes) (program : KeyInit) → Derivation
  associated_token : (mint owner : Key) → Derivation
  posted_vaa : (wormhole : KeyInit) (hash : Bytes) → Derivation
  claim : (bridge : KeyInit) (emitter : Bytes) (chain sequence : ℕ) → Derivation
  endpoint : (bridge : KeyInit) (chain : ℕ) (emitter : Bytes) → Derivation
  redeemer_account : (program : Key) → Derivation
  bridge_config custody_signer mint_authority : (bridge : KeyInit) → Derivation
  custody wrapped_meta : (bridge : KeyInit) (mint : Key) → Derivation
  wrapped_mint : (bridge : KeyInit) (chain : ℕ) (token : Bytes) → Derivation

pub record SequenceTracker : Type 0 where
  pub sequence : ℕ

pub record WrappedMeta : Type 0 where
  pub chain : ℕ
  pub token_address : Bytes

pub record Sdk : Type 0 where
  -- `new PublicKey`
  pub public_key : KeyInit → Outcome Key
  pub derive : Derivation → Outcome Key
  pub parse_token_transfer_vaa : Bytes → Outcome ParsedTransfer
  -- what the chain says of a token bridge on a Wormhole program, and of a wrapped mint
  pub program_sequence_tracker : (bridge wormhole : KeyInit) → Outcome SequenceTracker
  pub wrapped_meta_of : (bridge mint : KeyInit) → Outcome WrappedMeta
  -- `getTokenBridgeDerivedAccounts`, `getTransferNativeWithPayloadCpiAccounts` and
  -- `getTransferWrappedWithPayloadCpiAccounts`
  pub bridge_derived_accounts : (program : Key) (bridge wormhole : KeyInit) → Outcome Accounts
  pub transfer_native_accounts :
      (program bridge wormhole payer : KeyInit) (message from_account : Key) (mint : KeyInit)
      → Outcome Accounts
  pub transfer_wrapped_accounts :
      (program bridge wormhole payer : KeyInit) (message from_account : Key) (chain : ℕ)
      (token_address : Bytes)
      → Outcome Accounts
  pub rent : Key
  pub system_program : Key
  pub token_program : Key

-- A key is taken as it is.
pub record KeepsKeys (s : Sdk) : Type 0 where
  pub keeps : (k : Key) → s.public_key (key k) ≡ ok k
