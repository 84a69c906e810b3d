-- ===== src/Program/Tests.antt =====
-- The program's theorems at concrete accounts.
use nimble_xchain_contracts.Prelude.{
  ℕ, ◌+◌, ◌*◌, ◌/◌, ◌≡◌, ◌↔◌, refl, arith, ◌∷◌, none, some, true, false, ◌==◌, if◌then◌else◌,
}
use nimble_xchain_contracts.Js.{text, text_eq, text_eq_sound, ok, throws, error}
use nimble_xchain_contracts.Xchain.{Bytes, zeros}
use nimble_xchain_contracts.Xchain.Fees.{compute_relayer_amount}
use nimble_xchain_contracts.Xchain.Transfers.Settled.{amount_if}
use nimble_xchain_contracts.Xchain.Transfers.Ledger.{Ledger, paid_to, move, move_lem}
use nimble_xchain_contracts.Program.{
  AccountInfo, ForeignContract, Accounts, initialize, register_foreign_contract,
}
use nimble_xchain_contracts.Program.Signatures.{Unsigned, with_fee, FeeChanged, Unsigned-iff}
use nimble_xchain_contracts.Program.Reachable.{creates, registers, AreSound, Reach-AreSound}
use nimble_xchain_contracts.Program.Redeem.{
  Vaa, verify, Named, redeem_with, native, wrapped, Bank, check_accounts, pay_relayer, pay_both,
  pay_out, redeem_transfer_with_payload,
}
use nimble_xchain_contracts.Program.Send
use nimble_xchain_contracts.Program.Send.{Arguments}
use nimble_xchain_contracts.Program.Send.Bridged.{Bridged, Bridged-send_tokens_with_payload}
use nimble_xchain_contracts.Program.Redeem.Payment.{Moves}
use nimble_xchain_contracts.Program.Redeem.Settled.{
  ClaimsBy, Redemption, redeem_transfer_with_payload_settled,
}

-- A key from its first byte.
abbrev key : ℕ → Bytes
key n = n ∷ zeros 31

abbrev creator : AccountInfo
creator = record { key = key 1; is_signer = true }

abbrev fresh : Accounts
fresh = record {
  sender_owner = key 1;
  redeemer_config = record { owner = key 1; relayer_fee = 5; relayer_fee_precision = 1000 };
  foreign_contracts = λ chain. none;
}

abbrev avalanche : ForeignContract
avalanche = record { chain = 6; address = key 2; token_bridge_foreign_endpoint = key 3 }

abbrev registered : Accounts
registered = record fresh { foreign_contracts = λ c. if c == 6 then some avalanche else none }

Reach-AreSound_example : AreSound 1 creator registered
unfolding initialize register_foreign_contract text_eq
Reach-AreSound_example =
    Reach-AreSound 1 creator (registers creator 6 (key 2) (key 3) (creates 5 1000 refl) refl)

-- Someone else names the owner, and takes all but a thousandth.
Unsigned-iff_example :
    Unsigned 1 (key 1) fresh (with_fee 999 1000 fresh) ↔ FeeChanged fresh (with_fee 999 1000 fresh)
Unsigned-iff_example = Unsigned-iff 1 fresh

abbrev vaa : Vaa
vaa = record {
  emitter_chain = 6;
  emitter_address = key 11;
  sequence = 1;
  from_address = key 2;
  to = key 9;
  to_chain = 1;
  token_chain = 6;
  token_address = key 8;
  amount = 2000;
  recipient = key 4;
}

-- The bridge's claim account of a message.
abbrev claim_address : Vaa → Bytes
claim_address v = v.sequence ∷ v.emitter_chain ∷ v.emitter_address

-- A relayer redeems for another wallet; the associated account of a wallet is its own key here.
abbrev named : Named
named = record {
  program_id = key 9;
  payer = key 5;
  payer_is_signer = true;
  payer_token_account = key 5;
  config_key = key 7;
  mint = key 8;
  decimals = 8;
  recipient = key 4;
  recipient_token_account = key 4;
  tmp_token_account = key 6;
  token_bridge_claim = claim_address vaa;
  vaa = vaa;
}

abbrev bank : Bank Ledger
bank = record {
  claimed = λ l account. false;
  has_account = λ l account. true;
  mint_of = λ kind v. v.token_address;
  associated_token_address = λ owner mint. owner;
  tmp_address = λ mint. key 6;
  create_token_account = λ account mint l. ok l;
  complete_transfer = λ kind c l.
      if text_eq c.named.token_bridge_claim (claim_address c.named.vaa)
      then ok (λ who. l who + amount_if (text_eq who (key 6)) 2000)
      else throws (error (text "InvalidClaimAccount"));
  transfer = λ from to n l. move from to n l;
  close_account = λ account destination l. ok l;
  denormalize_amount = λ amount decimals. amount;
  chain_id_solana = 1;
}

moves : Moves bank (λ l. l)
moves from to n l l' gives who = move_lem from to n l l' gives who

abbrev empty : Ledger
empty who = 0

abbrev redeemed : Ledger
redeemed =
    paid_to (key 6) (key 4) 1990
      (paid_to (key 6) (key 5) 10 (λ who. empty who + amount_if (text_eq who (key 6)) 2000))

redeems : redeem_transfer_with_payload bank wrapped registered named empty ≡ ok redeemed
unfolding redeem_transfer_with_payload redeem_with check_accounts verify pay_out pay_both
    pay_relayer compute_relayer_amount text_eq
redeems = refl

claims : ClaimsBy bank claim_address
claims kind c l l' h =
    text_eq_sound c.named.token_bridge_claim (claim_address c.named.vaa) (ground (arith, h))

redeem_wrapped_settled_example :
    (foreign : ForeignContract) × (registered.foreign_contracts 6 ≡ some foreign)
    × Redemption bank claim_address
        (λ l. l)
        wrapped
        (record { named = named; config = registered.redeemer_config; foreign_contract = foreign })
        empty
        redeemed
redeem_wrapped_settled_example =
    redeem_transfer_with_payload_settled bank (λ l. l) moves claim_address claims wrapped registered
      named empty redeemed redeems

abbrev sender_context : Send.Context
sender_context = record {
  payer = key 5;
  payer_is_signer = true;
  mint = key 8;
  from_token_account = key 5;
  tmp_token_account = key 6;
  token_bridge_authority_signer = key 7;
  decimals = 9;
}

abbrev arguments : Arguments
arguments = record { batch_id = 0; amount = 2005; recipient_address = key 4; recipient_chain = 6 }

abbrev sender_bank : Send.Bank Ledger
sender_bank = record {
  truncate_amount = λ amount decimals. amount / 10 * 10;
  associated_token_address = λ owner mint. owner;
  tmp_address = λ mint. key 6;
  authority_signer = key 7;
  create_token_account = λ account mint l. ok l;
  transfer = λ from to n l. move from to n l;
  approve = λ account delegate n l. ok l;
  transfer_with_payload = λ kind o l. move (key 6) (key 10) o.amount l;
  close_account = λ account destination l. ok l;
  chain_id_solana = 1;
}

abbrev rich : Ledger
rich who = if text_eq who (key 5) then 5000 else 0

abbrev bridged : Ledger
bridged = paid_to (key 6) (key 10) 2000 (paid_to (key 5) (key 6) 2000 rich)

sends :
    Send.send_tokens_with_payload sender_bank native registered sender_context arguments rich
    ≡ ok bridged
unfolding Send.send_tokens_with_payload Send.check_accounts Send.order_of text_eq
sends = refl

Bridged-send_tokens_with_payload_example :
    (Send.send_tokens_with_payload sender_bank native registered sender_context arguments rich
      ≡ ok bridged)
    ↔ Bridged sender_bank native registered sender_context arguments rich bridged
Bridged-send_tokens_with_payload_example =
    Bridged-send_tokens_with_payload sender_bank native registered sender_context arguments rich
      bridged refl

-- The same bank, where only an empty account is closed.
abbrev closing_bank : Bank Ledger
closing_bank = record bank {
  close_account = λ account destination l.
      if l account == 0 then ok l else throws (error (text "NonNativeHasBalance"));
}
