-- ===== src/Program/Send.antt =====
-- send_native_tokens_with_payload and send_wrapped_tokens_with_payload. SPL tokens and the token bridge
-- are other programs: operations of a `Bank` on the rest of the chain's state `W`. The accounts that
-- the bridge alone reads are left out. Where several constraints on the accounts fail, which error is
-- reported first is not looked at.
pub mod Bridged
use nimble_xchain_contracts.Prelude.{
  ℕ, ◌==◌, ltb, List, [], ◌∷◌, Option, none, some, Bool, true, false, ◌&&◌, not, if◌then◌else◌,
}
use nimble_xchain_contracts.Js.{text, text_eq, Outcome, ok, ◌>>=◌}
use nimble_xchain_contracts.Solana.Message.{serialize}
use nimble_xchain_contracts.Xchain.{Bytes, all_zero, require}
use nimble_xchain_contracts.Xchain.Governance.{◌>>◌}
use nimble_xchain_contracts.Program.{ForeignContract, Accounts, initialized}
use nimble_xchain_contracts.Program.Redeem.{Kind, native, wrapped}

-- The accounts of the instruction that its body reads.
pub record Context : Type 0 where
  pub payer : Bytes
  pub payer_is_signer : Bool
  pub mint : Bytes
  pub from_token_account : Bytes
  pub tmp_token_account : Bytes
  pub token_bridge_authority_signer : Bytes
  pub decimals : ℕ

-- The arguments of the instruction.
pub record Arguments : Type 0 where
  pub batch_id : ℕ
  pub amount : ℕ
  pub recipient_address : Bytes
  pub recipient_chain : ℕ

-- What the token bridge is asked for.
pub record Order : Type 0 where
  pub batch_id : ℕ
  pub amount : ℕ
  pub target_contract : Bytes
  pub target_chain : ℕ
  pub payload : Bytes

pub record Bank (W : Type 0) : Type 0 where
  pub truncate_amount : (amount decimals : ℕ) → ℕ
  pub associated_token_address : (owner mint : Bytes) → Bytes
  -- the program's own address for the temporary account of a mint
  pub tmp_address : (mint : Bytes) → Bytes
  -- what the sender's configuration has
  pub authority_signer : Bytes
  -- `init`, with the sender's configuration as the authority
  pub create_token_account : (account mint : Bytes) → W → Outcome W
  pub transfer : (from to : Bytes) → ℕ → W → Outcome W
  pub approve : (account delegate : Bytes) → ℕ → W → Outcome W
  pub transfer_with_payload : Kind → Order → W → Outcome W
  pub close_account : (account destination : Bytes) → W → Outcome W
  pub chain_id_solana : ℕ

unfoldable pub order_of : Arguments → ForeignContract → ℕ → Order
order_of a f amount = record {
  batch_id = a.batch_id;
  amount = amount;
  target_contract = f.address;
  target_chain = a.recipient_chain;
  payload = serialize a.recipient_address;
}

module _ {W : Type 0} (bank : Bank W) where
  open bank use {
    truncate_amount, associated_token_address, tmp_address, authority_signer, create_token_account,
    transfer, approve, transfer_with_payload, close_account, chain_id_solana,
  }

  -- Of a native token only what the bridge's eight decimals keep.
  abbrev pub bridged_amount : Kind → Context → ℕ → ℕ
  bridged_amount native c amount = truncate_amount amount c.decimals
  bridged_amount wrapped c amount = amount

  -- The constraints of context.rs on these accounts.
  unfoldable pub check_accounts : Context → Outcome (Unit {0})
  check_accounts c = do
    require c.payer_is_signer (text "AccountNotSigner")
    require (text_eq c.from_token_account (associated_token_address c.payer c.mint))
        (text "ConstraintAssociated")
    require (text_eq c.tmp_token_account (tmp_address c.mint)) (text "ConstraintSeeds")
    require (text_eq c.token_bridge_authority_signer authority_signer)
        (text "InvalidTokenBridgeAuthoritySigner")

  unfoldable pub send_tokens_with_payload : Kind → Accounts → Context → Arguments → W → Outcome W
  unfolding order_of check_accounts
  send_tokens_with_payload kind s c a w = do
    foreign ← initialized (s.foreign_contracts a.recipient_chain)
    check_accounts c
    created ← create_token_account c.tmp_token_account c.mint w
    let sent = bridged_amount kind c a.amount
    require (ltb 0 sent) (text "ZeroBridgeAmount")
    require
        (ltb 0 a.recipient_chain
          && not (a.recipient_chain == chain_id_solana)
          && not (all_zero a.recipient_address))
        (text "InvalidRecipient")
    w1 ← transfer c.from_token_account c.tmp_token_account sent created
    w2 ← approve c.tmp_token_account c.token_bridge_authority_signer sent w1
    w3 ← transfer_with_payload kind (order_of a foreign sent) w2
    close_account c.tmp_token_account c.payer w3
