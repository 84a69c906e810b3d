-- ===== src/App/Senders/Sent.antt =====
-- What the scripts that end have sent.
use nimble_xchain_contracts.Prelude.{ℕ, zero, suc, ◌-◌, ◌≡◌, ◌∷◌, some}
use nimble_xchain_contracts.Js.{Text, Outcome, ok, throws}
use nimble_xchain_contracts.Sdk
use nimble_xchain_contracts.App.Senders.{
  Bytes, SolTransfer, World, transfer_native_sol, send_and_confirm, get_transaction, get_signed_vaa,
  wormhole_guardian_rpc, sol_send_native_fee, Services, Sender, transfer_of, load_sender, airdrop,
}

module _ (s : Services) where
  -- The same transfer, built and sent `n` times, one after the other.
  abbrev pub Repeated : Bytes → SolTransfer → ℕ → World → World → Type 0
  Repeated payer transfer zero w w' = w' ≡ w
  Repeated payer transfer (suc n) w w' =
      (transaction : Bytes) × (s.transfers w (transfer_native_sol transfer) ≡ ok transaction)
      × Repeated payer transfer n
          (send_and_confirm payer transaction ∷ transfer_native_sol transfer ∷ w) w'

  -- The guardians are asked for the message with the sequence number, if there is an emitter.
  abbrev pub asked_for : Outcome Text → Text → World → World
  asked_for (ok emitter) sequence w = get_signed_vaa wormhole_guardian_rpc emitter sequence ∷ w
  asked_for (throws e) sequence w = w

  -- What the script has done for the number `n`.
  pub record Series (n : ℕ) (w w' : World) : Type 0 where
    pub sender : Sender
    pub loads : load_sender s Sdk.avax ≡ ok sender
    pub transfer : SolTransfer
    pub built_for : transfer_of s sender 6 ≡ ok transfer
    pub amount : transfer.amount ≡ sol_send_native_fee
    pub target : transfer.target_chain ≡ sender.target.chain_id
    pub transaction : Bytes
    pub signature : Text
    pub log : Text
    pub sequence : Text
    pub built : s.transfers (airdrop sender ∷ w) (transfer_native_sol transfer) ≡ ok transaction
    pub confirmed :
        s.confirms
          (transfer_native_sol transfer ∷ airdrop sender ∷ w)
          (send_and_confirm sender.payer transaction)
        ≡ ok signature
    pub logged :
        s.logs
          (send_and_confirm sender.payer transaction
            ∷ transfer_native_sol transfer
            ∷ airdrop sender
            ∷ w)
          (get_transaction signature)
        ≡ ok (some log)
    pub numbered : s.parse_sequence_from_log_solana log ≡ ok sequence
    pub last : World
    pub repeated :
        Repeated sender.payer transfer
          (n - 1)
          (get_transaction signature
            ∷ send_and_confirm sender.payer transaction
            ∷ transfer_native_sol transfer
            ∷ airdrop sender
            ∷ w)
          last
    pub fetched :
        w' ≡ asked_for (s.emitter_address_solana transfer.token_bridge_address) sequence last
