-- ===== src/Program/Redeem/Redeemable.antt =====
-- When a redemption on Solana goes through.
use nimble_xchain_contracts.Prelude.{ℕ, ◌≤◌, ◌≡◌, true, false, ◌||◌}
use nimble_xchain_contracts.Js.{text_eq, ok}
use nimble_xchain_contracts.Xchain.{Bytes}
use nimble_xchain_contracts.Program.Redeem.{Context, Kind, Bank, amount_of}
use nimble_xchain_contracts.Program.Redeem.Payment.{part_of}
use nimble_xchain_contracts.Program.Redeem.Settled.{InDecimals}
use nimble_xchain_contracts.Program.Redeem.Admitted.{Admitted}

-- What a redemption needs of the message, the accounts, the bridge and the fee.
pub record Ready {W : Type 0} (bank : Bank W) (ledger : W → Bytes → ℕ) (kind : Kind) (c : Context)
    (w : W) : Type 0 where
  pub admitted : Admitted bank kind c
  pub addressed : c.named.recipient ≡ c.named.vaa.recipient
  pub recipient_was : bank.has_account w c.named.recipient_token_account ≡ true
  pub created : W
  pub creates : bank.create_token_account c.named.tmp_token_account c.named.mint w ≡ ok created
  pub not_claimed : bank.claimed created c.named.token_bridge_claim ≡ false
  pub completed : W
  pub completes : bank.complete_transfer kind c created ≡ ok completed
  pub in_decimals : InDecimals bank kind c (amount_of bank kind c)
  pub received : ledger completed c.named.tmp_token_account ≡ amount_of bank kind c
  pub recipient_exists : bank.has_account completed c.named.recipient_token_account ≡ true
  pub relayer_exists :
      (text_eq c.named.payer c.named.recipient
        || bank.has_account completed c.named.payer_token_account)
      ≡ true
  pub part : ℕ
  pub computed : part_of c (amount_of bank kind c) ≡ ok part
  pub within : part ≤ amount_of bank kind c
