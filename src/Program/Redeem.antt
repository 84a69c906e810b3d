-- ===== src/Program/Redeem.antt =====
-- redeem_native_transfer_with_payload and redeem_wrapped_transfer_with_payload. SPL tokens and the
-- token bridge are other programs: operations of a `Bank` on the rest of the chain's state `W`. An
-- instruction that fails undoes all, so that it gives no state. The accounts that the bridge alone
-- reads are left out, and so is what Anchor checks of them. Where several constraints on the accounts
-- fail, which error is reported first is not looked at.
pub mod Payment
pub mod Settled
pub mod Admitted
pub mod Paying
pub mod Redeemable
use nimble_xchain_contracts.Prelude.{
  ℕ, ◌-◌, ◌==◌, leb, ltb, List, [], ◌∷◌, Option, none, some, Bool, true, false, ◌&&◌, ◌||◌, not,
  if◌then◌else◌,
}
use nimble_xchain_contracts.Js.{text, text_eq, Outcome, ok, throws, error, ◌>>=◌}
use nimble_xchain_contracts.Xchain.{Bytes, require}
use nimble_xchain_contracts.Xchain.Governance.{◌>>◌}
use nimble_xchain_contracts.Xchain.Fees.{RedeemerConfig, compute_relayer_amount}
use nimble_xchain_contracts.Program.{ForeignContract, Accounts, initialized}

-- A posted message: what is read of it. `recipient` is what `XChainMessage` has.
pub record Vaa : Type 0 where
  pub emitter_chain : ℕ
  pub emitter_address : Bytes
  pub sequence : ℕ
  pub from_address : Bytes
  pub to : Bytes
  pub to_chain : ℕ
  pub token_chain : ℕ
  pub token_address : Bytes
  pub amount : ℕ
  pub recipient : Bytes

-- `ForeignContract::verify`
unfoldable pub verify : ForeignContract → Vaa → Bool
verify f vaa = vaa.emitter_chain == f.chain && text_eq vaa.from_address f.address

-- The accounts that the transaction names.
pub record Named : Type 0 where
  pub program_id : Bytes
  pub payer : Bytes
  pub payer_is_signer : Bool
  pub payer_token_account : Bytes
  pub config_key : Bytes
  pub mint : Bytes
  pub decimals : ℕ
  pub recipient : Bytes
  pub recipient_token_account : Bytes
  pub tmp_token_account : Bytes
  pub token_bridge_claim : Bytes
  pub vaa : Vaa

-- The accounts of the instruction, with the two that Anchor finds by their seeds.
pub record Context : Type 0 where
  pub named : Named
  pub config : RedeemerConfig
  pub foreign_contract : ForeignContract

pub data Kind : Type 0 where
  native wrapped : Kind

-- The programs that the instruction calls, and what it reads of the chain.
pub record Bank (W : Type 0) : Type 0 where
  -- whether the bridge's claim account has data
  pub claimed : W → (claim_account : Bytes) → Bool
  pub has_account : W → (token_account : Bytes) → Bool
  -- of a native token the message's own address, of a wrapped one what the bridge derives
  pub mint_of : Kind → Vaa → Bytes
  pub associated_token_address : (owner mint : Bytes) → Bytes
  -- the program's own address for the temporary account of a mint
  pub tmp_address : (mint : Bytes) → Bytes
  -- `init`, with the redeemer's configuration as the authority
  pub create_token_account : (account mint : Bytes) → W → Outcome W
  pub complete_transfer : Kind → Context → W → Outcome W
  pub transfer : (from to : Bytes) → ℕ → W → Outcome W
  pub close_account : (account destination : Bytes) → W → Outcome W
  pub denormalize_amount : (amount decimals : ℕ) → ℕ
  pub chain_id_solana : ℕ

-- The token is of Solana, or of another chain.
abbrev pub is_of_kind : Kind → Bool → Bool
is_of_kind native is_solana = is_solana
is_of_kind wrapped is_solana = not is_solana

module _ {W : Type 0} (bank : Bank W) where
  open bank use {
    claimed, has_account, mint_of, associated_token_address, tmp_address, create_token_account,
    complete_transfer, transfer, close_account, denormalize_amount, chain_id_solana,
  }

  -- The constraints of context.rs on these accounts.
  unfoldable pub check_accounts : Kind → Context → Outcome (Unit {0})
  unfolding verify
  check_accounts kind c = do
    require
        (text_eq c.named.payer c.named.recipient
          || text_eq c.named.payer_token_account
              (associated_token_address c.named.payer c.named.mint))
        (text "InvalidPayerAta")
    require (verify c.foreign_contract c.named.vaa) (text "InvalidForeignContract")
    require (text_eq c.named.mint (mint_of kind c.named.vaa)) (text "ConstraintAddress")
    require
        (text_eq c.named.recipient_token_account
          (associated_token_address c.named.recipient c.named.mint))
        (text "ConstraintAssociated")
    require (text_eq c.named.vaa.to c.named.program_id || text_eq c.named.vaa.to c.named.config_key)
        (text "InvalidTransferToAddress")
    require (c.named.vaa.to_chain == chain_id_solana) (text "InvalidTransferToChain")
    require (is_of_kind kind (c.named.vaa.token_chain == chain_id_solana))
        (text "InvalidTransferTokenChain")
    require (text_eq c.named.tmp_token_account (tmp_address c.named.mint)) (text "ConstraintSeeds")
    require c.named.payer_is_signer (text "AccountNotSigner")

  -- The bridge carries eight decimals at most; a wrapped token has no more.
  abbrev pub amount_of : Kind → Context → ℕ
  amount_of native c = denormalize_amount c.named.vaa.amount c.named.decimals
  amount_of wrapped c = c.named.vaa.amount

  -- `if relayer_amount > 0`
  unfoldable pub pay_relayer : Context → ℕ → W → Outcome W
  pay_relayer c relayer_amount w =
      if ltb 0 relayer_amount
      then transfer c.named.tmp_token_account c.named.payer_token_account relayer_amount w
      else ok w

  unfoldable pub pay_both : Context → ℕ → W → Outcome W
  pay_both c amount w = do
    require (has_account w c.named.payer_token_account) (text "NonExistentRelayerAta")
    relayer_amount ← compute_relayer_amount c.config amount
    w' ← pay_relayer c relayer_amount w
    require (leb relayer_amount amount) (text "InvalidCalculation")
    transfer c.named.tmp_token_account c.named.recipient_token_account (amount - relayer_amount) w'

  -- `if ctx.accounts.payer.key() != ctx.accounts.recipient.key()`
  unfoldable pub pay_out : Context → ℕ → W → Outcome W
  pay_out c amount w =
      if not (text_eq c.named.payer c.named.recipient)
      then pay_both c amount w
      else transfer c.named.tmp_token_account c.named.recipient_token_account amount w

  -- The recipient's token account is read, so that it has to be there, and the temporary one created.
  unfoldable pub redeem_with : Kind → Context → W → Outcome W
  redeem_with kind c w = do
    check_accounts kind c
    require (has_account w c.named.recipient_token_account) (text "AccountNotInitialized")
    created ← create_token_account c.named.tmp_token_account c.named.mint w
    require (not (claimed created c.named.token_bridge_claim)) (text "AlreadyRedeemed")
    require (text_eq c.named.recipient c.named.vaa.recipient) (text "InvalidRecipient")
    completed ← complete_transfer kind c created
    paid ← pay_out c (amount_of kind c) completed
    close_account c.named.tmp_token_account c.named.payer paid

  -- The configuration and the contract of the message's chain are found by their seeds.
  unfoldable pub redeem_transfer_with_payload : Kind → Accounts → Named → W → Outcome W
  redeem_transfer_with_payload kind s n w = do
    foreign ← initialized (s.foreign_contracts n.vaa.emitter_chain)
    redeem_with kind (record { named = n; config = s.redeemer_config; foreign_contract = foreign })
        w
