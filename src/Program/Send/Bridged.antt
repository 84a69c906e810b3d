-- ===== src/Program/Send/Bridged.antt =====
-- What the program asks of the token bridge.
use nimble_xchain_contracts.Prelude.{
  ℕ, ◌≡◌, ◌<◌, ◌↔◌, true, ◌==◌, refl, arith, ltb, length, some, false, ◌&&◌, not,
}
use nimble_xchain_contracts.Js.{text_eq, text_eq_sound, text_eq_refl, ok, returned}
use nimble_xchain_contracts.Solana.Message.{serialize}
use nimble_xchain_contracts.Xchain.{Bytes, all_zero, require, required}
use nimble_xchain_contracts.Xchain.Messages.{encode_payload, decode_payload}
use nimble_xchain_contracts.Xchain.Messages.RoundTrip.{decode_payload-encode_payload}
use nimble_xchain_contracts.Program.{ForeignContract, Accounts, initialized, initialized-found}
use nimble_xchain_contracts.Program.Redeem.{Kind, native, wrapped}
use nimble_xchain_contracts.Program.Send.{
  Context, Arguments, Bank, order_of, bridged_amount, check_accounts, send_tokens_with_payload,
}

-- Of a native token only what the bridge keeps of its decimals is sent.
abbrev pub IsKept : {W : Type 0} → Bank W → Kind → Context → ℕ → ℕ → Type 0
IsKept bank native c amount n = n ≡ bank.truncate_amount amount c.decimals
IsKept bank wrapped c amount n = n ≡ amount

bridged_amount-IsKept :
    {W : Type 0} (bank : Bank W) (kind : Kind) (c : Context) (amount : ℕ)
    → IsKept bank kind c amount (bridged_amount bank kind c amount)
bridged_amount-IsKept bank native c amount = refl
bridged_amount-IsKept bank wrapped c amount = refl

-- What a transfer that succeeds did.
pub record Bridged {W : Type 0} (bank : Bank W) (kind : Kind) (s : Accounts) (c : Context)
    (a : Arguments) (w w' : W) : Type 0 where
  pub signed : c.payer_is_signer ≡ true
  pub payers_account : c.from_token_account ≡ bank.associated_token_address c.payer c.mint
  pub own_account : c.tmp_token_account ≡ bank.tmp_address c.mint
  pub signs : c.token_bridge_authority_signer ≡ bank.authority_signer
  pub created : W
  pub creates : bank.create_token_account c.tmp_token_account c.mint w ≡ ok created
  pub kept : IsKept bank kind c a.amount (bridged_amount bank kind c a.amount)
  pub some_tokens : 0 < bridged_amount bank kind c a.amount
  pub chain_set : 0 < a.recipient_chain
  pub other_chain : (a.recipient_chain == bank.chain_id_solana) ≡ false
  pub recipient_set : all_zero a.recipient_address ≡ false
  pub foreign : ForeignContract
  pub registered : s.foreign_contracts a.recipient_chain ≡ some foreign
  pub deposited : W
  pub deposit :
      bank.transfer c.from_token_account c.tmp_token_account
        (bridged_amount bank kind c a.amount)
        created
      ≡ ok deposited
  pub approved : W
  pub approval :
      bank.approve c.tmp_token_account c.token_bridge_authority_signer
        (bridged_amount bank kind c a.amount)
        deposited
      ≡ ok approved
  pub bridged : W
  pub ordered :
      bank.transfer_with_payload kind
        (record {
          batch_id = a.batch_id;
          amount = bridged_amount bank kind c a.amount;
          target_contract = foreign.address;
          target_chain = a.recipient_chain;
          payload = serialize a.recipient_address;
        })
        approved
      ≡ ok bridged
  pub decoded :
      decode_payload (serialize a.recipient_address)
      ≡ ok (record { payload_id = 1; target_recipient = a.recipient_address })
  pub closes : bank.close_account c.tmp_token_account c.payer bridged ≡ ok w'

decoded_by_contract :
    (recipient : Bytes)
    → length recipient ≡ 32
    → decode_payload (serialize recipient)
      ≡ ok (record { payload_id = 1; target_recipient = recipient })
unfolding serialize encode_payload
decoded_by_contract recipient long =
    decode_payload-encode_payload (record { payload_id = 1; target_recipient = recipient }) refl
      long

checked_accounts :
    {W : Type 0} (bank : Bank W) (c : Context) {u : Unit {0}}
    → check_accounts bank c ≡ ok u
    → (c.payer_is_signer ≡ true)
      × (c.from_token_account ≡ bank.associated_token_address c.payer c.mint)
      × (c.tmp_token_account ≡ bank.tmp_address c.mint)
      × (c.token_bridge_authority_signer ≡ bank.authority_signer)
unfolding check_accounts
checked_accounts bank c {u} h =
    let (_, h1, signed) = returned _ u (require c.payer_is_signer _) h in
    let (_, h2, payers) =
      returned _ u
        (require (text_eq c.from_token_account (bank.associated_token_address c.payer c.mint)) _)
        h1 in
    let (_, last, own) =
      returned _ u (require (text_eq c.tmp_token_account (bank.tmp_address c.mint)) _) h2 in
    (
      required _ _ signed,
      text_eq_sound _ _ (required _ _ payers),
      text_eq_sound _ _ (required _ _ own),
      text_eq_sound _ _ (required _ _ last),
    )

module _ {W : Type 0} (bank : Bank W) (kind : Kind) (s : Accounts) (c : Context)
    (a : Arguments) where
  send_tokens_with_payload-Bridged :
      (w w' : W)
      → length a.recipient_address ≡ 32
      → send_tokens_with_payload bank kind s c a w ≡ ok w'
      → Bridged bank kind s c a w w'
  unfolding send_tokens_with_payload order_of
  send_tokens_with_payload-Bridged w w' long gives =
      let sent : ℕ = bridged_amount bank kind c a.amount in
      let (foreign, h1, reads) =
        returned _ w' (initialized (s.foreign_contracts a.recipient_chain)) gives in
      let (_, h1', constrained) = returned _ w' (check_accounts bank c) h1 in
      let (created, h1'', creates) =
        returned _ w' (bank.create_token_account c.tmp_token_account c.mint w) h1' in
      let (signed, payers_account, own_account, signs) = checked_accounts bank c constrained in
      let (_, h2, some_tokens) =
        returned _ w' (require (ltb 0 (bridged_amount bank kind c a.amount)) _) h1'' in
      let (_, h3, allowed) =
        returned _ w'
          (require
            (ltb 0 a.recipient_chain
              && not (a.recipient_chain == bank.chain_id_solana)
              && not (all_zero a.recipient_address))
            _)
          h2 in
      let (deposited, h4, deposit) =
        returned _ w' (bank.transfer c.from_token_account c.tmp_token_account sent created) h3 in
      let (approved, h5, approval) =
        returned _ w'
          (bank.approve c.tmp_token_account c.token_bridge_authority_signer sent deposited) h4 in
      let (bridged, closes, ordered) =
        returned _ w' (bank.transfer_with_payload kind (order_of a foreign sent) approved) h5 in
      let valid = required _ _ allowed in
      record {
        signed = signed;
        payers_account = payers_account;
        own_account = own_account;
        signs = signs;
        created = created;
        creates = creates;
        kept = bridged_amount-IsKept bank kind c a.amount;
        some_tokens = ground arith;
        chain_set = ground arith;
        other_chain = ground arith;
        recipient_set = ground arith;
        foreign = foreign;
        registered = initialized-found _ _ reads;
        deposited = deposited;
        deposit = deposit;
        approved = approved;
        approval = approval;
        bridged = bridged;
        ordered = ordered;
        decoded = decoded_by_contract a.recipient_address long;
        closes = closes;
      }

  accounts_checked : {w w' : W} → Bridged bank kind s c a w w' → check_accounts bank c ≡ ok tt
  unfolding check_accounts
  accounts_checked b =
      rw
        (
          b.signed,
          b.payers_account,
          b.own_account,
          b.signs,
          text_eq_refl (bank.associated_token_address c.payer c.mint),
          text_eq_refl (bank.tmp_address c.mint),
          text_eq_refl bank.authority_signer,
        )
        refl

  Bridged-sends :
      (w w' : W) → Bridged bank kind s c a w w' → send_tokens_with_payload bank kind s c a w ≡ ok w'
  unfolding send_tokens_with_payload order_of
  Bridged-sends w w' b =
      let some_tokens : ltb 0 (bridged_amount bank kind c a.amount) ≡ true =
        ground (arith, b.some_tokens) in
      let chain_set : ltb 0 a.recipient_chain ≡ true = ground (arith, b.chain_set) in
      rw
        (
          b.registered,
          accounts_checked b,
          b.creates,
          some_tokens,
          chain_set,
          b.other_chain,
          b.recipient_set,
          b.deposit,
          b.approval,
          b.ordered,
        )
        b.closes

  -- A transfer of the Solana program to a recipient of 32 bytes succeeds with a state exactly where
  -- the contract of the target chain is registered, the payer signs and sends from the payer's
  -- associated token account of the mint, the temporary account is the program's for the mint and
  -- can be created, the bridge's signer is the configured one, the amount that is bridged and the target chain
  -- are above zero, the chain is another one, the recipient is not zero, and the deposit, the
  -- approval, the order for exactly what was deposited, to the target chain and the address of
  -- its registered contract, and the closing of the temporary account lead to that state; the
  -- contract of an EVM chain decodes the order's payload to the recipient.
  pub Bridged-send_tokens_with_payload :
      (w w' : W)
      → length a.recipient_address ≡ 32
      → (send_tokens_with_payload bank kind s c a w ≡ ok w') ↔ Bridged bank kind s c a w w'
  Bridged-send_tokens_with_payload w w' long =
      (send_tokens_with_payload-Bridged w w' long, Bridged-sends w w')
