-- ===== src/Program.antt =====
-- solana/programs/xchain_token: the program of Solana, its owner's instructions. What Anchor checks
-- of the accounts of an instruction, by context.rs, comes first, then the instruction itself; an
-- instruction that fails changes nothing.
pub mod Reachable
pub mod Signatures
pub mod Redeem
pub mod Send
mod Tests
use nimble_xchain_contracts.Prelude.{
  ℕ, ◌≡◌, arith, ◌==◌, ltb, List, [], ◌∷◌, Option, none, some, Bool, true, false, ◌&&◌, not,
  if◌then◌else◌,
}
use nimble_xchain_contracts.Js.{text, text_eq, Outcome, ok, throws, error, ◌>>=◌}
use nimble_xchain_contracts.Xchain.{Bytes, all_zero, require}
use nimble_xchain_contracts.Xchain.Governance.{◌>>◌}
use nimble_xchain_contracts.Xchain.Fees.{RedeemerConfig}

-- An account as a transaction names it: its key, and whether the transaction has its signature.
pub record AccountInfo : Type 0 where
  pub key : Bytes
  pub is_signer : Bool

pub record ForeignContract : Type 0 where
  pub chain : ℕ
  pub address : Bytes
  pub token_bridge_foreign_endpoint : Bytes

-- The program's accounts: the owner of the sender's configuration, the redeemer's configuration, and
-- the account of the foreign contract of each chain.
pub record Accounts : Type 0 where
  pub sender_owner : Bytes
  pub redeemer_config : RedeemerConfig
  pub foreign_contracts : ℕ → Option ForeignContract

-- `Signer`
abbrev pub signer : AccountInfo → Outcome (Unit {0})
signer a = require a.is_signer (text "AccountNotSigner")

-- `has_one = owner`
abbrev pub has_one : Bytes → AccountInfo → Outcome (Unit {0})
has_one owner a = require (text_eq owner a.key) (text "OwnerOnly")

-- `init` creates both configurations, and fails where they are.
abbrev pub created : Option Accounts → Outcome (Unit {0})
created none = ok tt
created (some accounts) = throws (error (text "account already in use"))

unfoldable pub initialize :
    AccountInfo → (relayer_fee relayer_fee_precision : ℕ) → Option Accounts → Outcome Accounts
initialize owner relayer_fee relayer_fee_precision before = do
  signer owner
  created before
  require (ltb relayer_fee relayer_fee_precision) (text "InvalidRelayerFee")
  ok (record {
    sender_owner = owner.key;
    redeemer_config = record {
      owner = owner.key;
      relayer_fee = relayer_fee;
      relayer_fee_precision = relayer_fee_precision;
    };
    foreign_contracts = λ chain. none;
  })

-- Anchor reads the account of a chain's contract at the address that the chain's number gives: it has
-- to be there.
abbrev pub initialized : Option ForeignContract → Outcome ForeignContract
initialized none = throws (error (text "AccountNotInitialized"))
initialized (some f) = ok f

pub initialized-found :
    (o : Option ForeignContract) (f : ForeignContract) → initialized o ≡ ok f → o ≡ some f
initialized-found none f h = ground arith
initialized-found (some g) f h = ground arith

-- `solana` is Wormhole's number of the chain. The account of the chain is created or overwritten.
unfoldable pub register_foreign_contract :
    (solana : ℕ)
    → AccountInfo
    → (chain : ℕ) → (address endpoint : Bytes) → Accounts
    → Outcome Accounts
register_foreign_contract solana owner chain address endpoint s = do
  signer owner
  has_one s.sender_owner owner
  require (ltb 0 chain && not (chain == solana) && not (all_zero address))
      (text "InvalidForeignContract")
  ok (record s {
    foreign_contracts = λ c.
        if c == chain
        then some
            (record { chain = chain; address = address; token_bridge_foreign_endpoint = endpoint })
        else s.foreign_contracts c;
  })

-- The owner's account is an `UncheckedAccount` here.
unfoldable pub update_relayer_fee :
    AccountInfo → (relayer_fee relayer_fee_precision : ℕ) → Accounts → Outcome Accounts
update_relayer_fee owner relayer_fee relayer_fee_precision s = do
  has_one s.redeemer_config.owner owner
  require (ltb relayer_fee relayer_fee_precision) (text "InvalidRelayerFee")
  ok (record s {
    redeemer_config = record s.redeemer_config {
      relayer_fee = relayer_fee;
      relayer_fee_precision = relayer_fee_precision;
    };
  })
