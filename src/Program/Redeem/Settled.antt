-- ===== src/Program/Redeem/Settled.antt =====
-- What a redemption on Solana pays.
use nimble_xchain_contracts.Prelude.{ℕ, ◌==◌, ◌≡◌, refl, arith, false, not, ◌&&◌, ◌||◌, some}
use mathlib.Core.Path.{subst}
use nimble_xchain_contracts.Program.{ForeignContract, Accounts, initialized, initialized-found}
use nimble_xchain_contracts.Js.{text, text_eq, text_eq_sound, ok, returned}
use nimble_xchain_contracts.Xchain.{Bytes, require, required}
use nimble_xchain_contracts.Xchain.Transfers.Settled.{Paid}
use nimble_xchain_contracts.Program.Redeem.{
  verify, Context, Kind, native, wrapped, Bank, Vaa, Named, check_accounts, amount_of, pay_out,
  redeem_with, redeem_transfer_with_payload,
}
use nimble_xchain_contracts.Program.Redeem.Payment.{Moves, part_of, pay_out-Paid}

-- The bridge completes a message with the claim account that belongs to it.
abbrev pub ClaimsBy : {W : Type 0} → Bank W → (Vaa → Bytes) → Type 0
ClaimsBy {W} bank claim_address =
    (kind : Kind) (c : Context) (w w' : W)
    → bank.complete_transfer kind c w ≡ ok w'
    → c.named.token_bridge_claim ≡ claim_address c.named.vaa

-- The message's amount in the mint's decimals. A wrapped token has the message's decimals.
abbrev pub InDecimals : {W : Type 0} → Bank W → Kind → Context → ℕ → Type 0
InDecimals bank native c n = n ≡ bank.denormalize_amount c.named.vaa.amount c.named.decimals
InDecimals bank wrapped c n = n ≡ c.named.vaa.amount

pub amount_of-InDecimals :
    {W : Type 0} (bank : Bank W) (kind : Kind) (c : Context)
    → InDecimals bank kind c (amount_of bank kind c)
amount_of-InDecimals bank native c = refl
amount_of-InDecimals bank wrapped c = refl

-- What a redemption did on the way to its end.
pub record Redemption {W : Type 0} (bank : Bank W) (claim_address : Vaa → Bytes)
    (ledger : W → Bytes → ℕ) (kind : Kind) (c : Context) (w w' : W) : Type 0 where
  pub registered_chain : c.named.vaa.emitter_chain ≡ c.foreign_contract.chain
  pub registered : c.named.vaa.from_address ≡ c.foreign_contract.address
  pub to_solana : c.named.vaa.to_chain ≡ bank.chain_id_solana
  pub addressed : c.named.recipient ≡ c.named.vaa.recipient
  pub recipient_account :
      c.named.recipient_token_account ≡ bank.associated_token_address c.named.recipient c.named.mint
  pub mint : c.named.mint ≡ bank.mint_of kind c.named.vaa
  pub created : W
  pub creates : bank.create_token_account c.named.tmp_token_account c.named.mint w ≡ ok created
  pub not_claimed : bank.claimed created (claim_address c.named.vaa) ≡ false
  pub completed : W
  pub completes : bank.complete_transfer kind c created ≡ ok completed
  pub in_decimals : InDecimals bank kind c (amount_of bank kind c)
  pub part : ℕ
  pub computed : part_of c (amount_of bank kind c) ≡ ok part
  pub settled : W
  pub paid :
      Paid ledger c.named.tmp_token_account c.named.payer_token_account
        c.named.recipient_token_account
        (amount_of bank kind c)
        part
        completed
        settled
  pub closes : bank.close_account c.named.tmp_token_account c.named.payer settled ≡ ok w'

module _ {W : Type 0} (bank : Bank W) where
  pub check_accounts_lem :
      (kind : Kind) (c : Context) {u : Unit {0}}
      → check_accounts bank kind c ≡ ok u
      → (c.named.vaa.emitter_chain ≡ c.foreign_contract.chain)
        × (c.named.vaa.from_address ≡ c.foreign_contract.address)
        × (c.named.recipient_token_account
            ≡ bank.associated_token_address c.named.recipient c.named.mint)
        × (c.named.vaa.to_chain ≡ bank.chain_id_solana)
        × (c.named.mint ≡ bank.mint_of kind c.named.vaa)
  unfolding check_accounts verify
  check_accounts_lem kind c {u} h =
      let (_, h1, _) =
        returned _ u
          (require
            (text_eq c.named.payer c.named.recipient
              || text_eq c.named.payer_token_account
                  (bank.associated_token_address c.named.payer c.named.mint))
            _)
          h in
      let (_, h2, verified) = returned _ u (require (verify c.foreign_contract c.named.vaa) _) h1 in
      let (_, h2', mint) =
        returned _ u (require (text_eq c.named.mint (bank.mint_of kind c.named.vaa)) _) h2 in
      let (_, h3, account) =
        returned _ u
          (require
            (text_eq c.named.recipient_token_account
              (bank.associated_token_address c.named.recipient c.named.mint))
            _)
          h2' in
      let (_, h4, _) =
        returned _ u
          (require
            (text_eq c.named.vaa.to c.named.program_id || text_eq c.named.vaa.to c.named.config_key)
            _)
          h3 in
      let (_, _, solana) =
        returned _ u (require (c.named.vaa.to_chain == bank.chain_id_solana) _) h4 in
      let both =
        required
          (c.named.vaa.emitter_chain == c.foreign_contract.chain
            && text_eq c.named.vaa.from_address c.foreign_contract.address)
          _ verified in
      (
        ground arith,
        text_eq_sound c.named.vaa.from_address c.foreign_contract.address (ground arith),
        text_eq_sound c.named.recipient_token_account
            (bank.associated_token_address c.named.recipient c.named.mint) (required _ _ account),
        ground arith,
        text_eq_sound c.named.mint (bank.mint_of kind c.named.vaa) (required _ _ mint),
      )

module _ {W : Type 0} (bank : Bank W) (ledger : W → Bytes → ℕ) (moves : Moves bank ledger) where
  redeem_with-Redemption :
      (claim_address : Vaa → Bytes) (claims : ClaimsBy bank claim_address) (kind : Kind)
      (c : Context) (w w' : W)
      → redeem_with bank kind c w ≡ ok w'
      → Redemption bank claim_address ledger kind c w w'
  unfolding redeem_with
  redeem_with-Redemption claim_address claims kind c w w' gives =
      let (_, h1, checked_accounts) = returned _ w' (check_accounts bank kind c) gives in
      let (registered_chain, registered, recipient_account, to_solana, mint) =
        check_accounts_lem bank kind c checked_accounts in
      let (_, h1', _) =
        returned _ w' (require (bank.has_account w c.named.recipient_token_account) _) h1 in
      let (created, h1'', creates) =
        returned _ w' (bank.create_token_account c.named.tmp_token_account c.named.mint w) h1' in
      let (_, h2, unclaimed) =
        returned _ w'
          (require (not (bank.claimed created c.named.token_bridge_claim)) (text "AlreadyRedeemed"))
          h1'' in
      let (_, h3, named) =
        returned _ w'
          (require (text_eq c.named.recipient c.named.vaa.recipient) (text "InvalidRecipient"))
          h2 in
      let (completed, h4, completes) = returned _ w' (bank.complete_transfer kind c created) h3 in
      let (settled, closes, pays) =
        returned _ w' (pay_out bank c (amount_of bank kind c) completed) h4 in
      let (part, computed, paid) =
        pay_out-Paid bank ledger moves c (amount_of bank kind c) completed settled pays in
      record {
        registered_chain = registered_chain;
        registered = registered;
        to_solana = to_solana;
        addressed = text_eq_sound c.named.recipient c.named.vaa.recipient (required _ _ named);
        recipient_account = recipient_account;
        mint = mint;
        created = created;
        creates = creates;
        not_claimed =
            subst (λ x. bank.claimed created x ≡ false) (claims kind c created completed completes)
              (ground arith);
        completed = completed;
        completes = completes;
        in_decimals = amount_of-InDecimals bank kind c;
        part = part;
        computed = computed;
        settled = settled;
        paid = paid;
        closes = closes;
      }

  -- With tokens whose transfers move the whole amount, and a bridge that completes a message only
  -- with its own claim account, a redemption on Solana that succeeds was of a message whose sender
  -- is the contract in the program's account for the chain that emitted it, for the recipient that
  -- it names, and its claim account had no data; after the bridge's completion the amount of the
  -- message, in the mint's decimals, is paid out of the temporary account whole: to the associated
  -- account of the recipient, less the fee of a relayer who is not the recipient.
  pub redeem_transfer_with_payload_settled :
      (claim_address : Vaa → Bytes) (claims : ClaimsBy bank claim_address) (kind : Kind)
      (s : Accounts) (n : Named) (w w' : W)
      → redeem_transfer_with_payload bank kind s n w ≡ ok w'
      → (foreign : ForeignContract) × (s.foreign_contracts n.vaa.emitter_chain ≡ some foreign)
        × Redemption bank claim_address ledger kind
            (record { named = n; config = s.redeemer_config; foreign_contract = foreign })
            w
            w'
  unfolding redeem_transfer_with_payload
  redeem_transfer_with_payload_settled claim_address claims kind s n w w' gives =
      let (foreign, redeems, found) =
        returned _ w' (initialized (s.foreign_contracts n.vaa.emitter_chain)) gives in
      (
        foreign,
        initialized-found _ _ found,
        redeem_with-Redemption claim_address claims kind
            (record { named = n; config = s.redeemer_config; foreign_contract = foreign }) w w'
            redeems,
      )
