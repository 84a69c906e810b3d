-- ===== src/Program/Redeem/Admitted.antt =====
-- What the constraints on the accounts of a redemption ask for.
use nimble_xchain_contracts.Prelude.{◌==◌, ◌≡◌, refl, arith, true, ◌||◌}
use mathlib.Core.Path.{subst}
use nimble_xchain_contracts.Js.{text_eq, text_eq_sound, text_eq_refl, ok, returned}
use nimble_xchain_contracts.Xchain.{require, required}
use nimble_xchain_contracts.Program.Redeem.{verify, Context, Kind, Bank, is_of_kind, check_accounts}
use nimble_xchain_contracts.Program.Redeem.Settled.{check_accounts_lem}

-- What the constraints on the accounts ask for.
pub record Admitted {W : Type 0} (bank : Bank W) (kind : Kind) (c : Context) : Type 0 where
  pub payer_account :
      (text_eq c.named.payer c.named.recipient
        || text_eq c.named.payer_token_account
            (bank.associated_token_address c.named.payer c.named.mint))
      ≡ true
  pub registered_chain : c.named.vaa.emitter_chain ≡ c.foreign_contract.chain
  pub registered : c.named.vaa.from_address ≡ c.foreign_contract.address
  pub mint : c.named.mint ≡ bank.mint_of kind c.named.vaa
  pub recipient_account :
      c.named.recipient_token_account ≡ bank.associated_token_address c.named.recipient c.named.mint
  pub to_program :
      (text_eq c.named.vaa.to c.named.program_id || text_eq c.named.vaa.to c.named.config_key)
      ≡ true
  pub to_solana : c.named.vaa.to_chain ≡ bank.chain_id_solana
  pub of_kind : is_of_kind kind (c.named.vaa.token_chain == bank.chain_id_solana) ≡ true
  pub own_account : c.named.tmp_token_account ≡ bank.tmp_address c.named.mint
  pub signed : c.named.payer_is_signer ≡ true

module _ {W : Type 0} (bank : Bank W) (kind : Kind) (c : Context) where
  pub check_accounts-Admitted :
      {u : Unit {0}} → check_accounts bank kind c ≡ ok u → Admitted bank kind c
  unfolding check_accounts
  check_accounts-Admitted {u} h =
      let (chain, address, account, solana, mint) = check_accounts_lem bank kind c h in
      let (_, h1, payer) = returned _ u (require _ _) h in
      let (_, h2, _) = returned _ u (require (verify c.foreign_contract c.named.vaa) _) h1 in
      let (_, h3, _) =
        returned _ u (require (text_eq c.named.mint (bank.mint_of kind c.named.vaa)) _) h2 in
      let (_, h4, _) =
        returned _ u
          (require
            (text_eq c.named.recipient_token_account
              (bank.associated_token_address c.named.recipient c.named.mint))
            _)
          h3 in
      let (_, h5, to) =
        returned _ u
          (require
            (text_eq c.named.vaa.to c.named.program_id || text_eq c.named.vaa.to c.named.config_key)
            _)
          h4 in
      let (_, h6, _) = returned _ u (require (c.named.vaa.to_chain == bank.chain_id_solana) _) h5 in
      let (_, h7, of_kind) =
        returned _ u (require (is_of_kind kind (c.named.vaa.token_chain == bank.chain_id_solana)) _)
          h6 in
      let (_, last, own) =
        returned _ u (require (text_eq c.named.tmp_token_account (bank.tmp_address c.named.mint)) _)
          h7 in
      record {
        payer_account = required _ _ payer;
        registered_chain = chain;
        registered = address;
        mint = mint;
        recipient_account = account;
        to_program = required _ _ to;
        to_solana = solana;
        of_kind = required _ _ of_kind;
        own_account = text_eq_sound _ _ (required _ _ own);
        signed = required _ _ last;
      }

  pub Admitted-check_accounts : Admitted bank kind c → check_accounts bank kind c ≡ ok tt
  unfolding check_accounts verify
  Admitted-check_accounts a =
      let e1 = a.payer_account in
      let e2 : (c.named.vaa.emitter_chain == c.foreign_contract.chain) ≡ true =
        ground (arith, a.registered_chain) in
      let e3 : text_eq c.named.vaa.from_address c.foreign_contract.address ≡ true =
        subst (λ x. text_eq c.named.vaa.from_address x ≡ true) a.registered
          (text_eq_refl c.named.vaa.from_address) in
      let e4 : text_eq c.named.mint (bank.mint_of kind c.named.vaa) ≡ true =
        subst (λ x. text_eq c.named.mint x ≡ true) a.mint (text_eq_refl c.named.mint) in
      let e5 : text_eq c.named.recipient_token_account
            (bank.associated_token_address c.named.recipient c.named.mint)
          ≡ true =
        subst (λ x. text_eq c.named.recipient_token_account x ≡ true) a.recipient_account
          (text_eq_refl c.named.recipient_token_account) in
      let e7 : (c.named.vaa.to_chain == bank.chain_id_solana) ≡ true =
        ground (arith, a.to_solana) in
      let e9 : text_eq c.named.tmp_token_account (bank.tmp_address c.named.mint) ≡ true =
        subst (λ x. text_eq c.named.tmp_token_account x ≡ true) a.own_account
          (text_eq_refl c.named.tmp_token_account) in
      rw (e1, e2, e3, e4, e5, a.to_program, e7, a.of_kind, e9, a.signed) refl
