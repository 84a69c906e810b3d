-- ===== src/App/Senders/Delivered.antt =====
-- What the script for Polygon has done when it does not fail.
use nimble_xchain_contracts.Prelude.{ℕ, ◌≡◌, ap, sym, ◌∙◌, arith, ◌∷◌, some}
use nimble_xchain_contracts.Js.{Text, ok}
use nimble_xchain_contracts.Sdk
use nimble_xchain_contracts.Exec.{lift}
use nimble_xchain_contracts.Exec.Rules.{bind_returned}
use nimble_xchain_contracts.Plugin.{nnull}
use nimble_xchain_contracts.App.Senders.{
  Bytes, World, transfer_native_sol, send_and_confirm, get_transaction, get_signed_vaa, Services,
  Sender, SolTransfer, transfer_of, build, send_confirmed, ask, fetch, load_sender, send_to_polygon,
  wormhole_guardian_rpc,
}

module _ (s : Services) (x : Sender) where
  pub send_confirmed_returned :
      (chain : ℕ) (w w' : World) (sequence : Text)
      → send_confirmed s x chain w ≡ (ok sequence, w')
      → (transfer : SolTransfer) × (transaction : Bytes) × (signature : Text) × (log : Text)
        × (transfer_of s x chain ≡ ok transfer)
        × (s.transfers w (transfer_native_sol transfer) ≡ ok transaction)
        × (s.confirms (transfer_native_sol transfer ∷ w) (send_and_confirm x.payer transaction)
            ≡ ok signature)
        × (s.logs
              (send_and_confirm x.payer transaction ∷ transfer_native_sol transfer ∷ w)
              (get_transaction signature)
            ≡ ok (some log))
        × (s.parse_sequence_from_log_solana log ≡ ok sequence)
        × (w'
            ≡ get_transaction signature
              ∷ send_and_confirm x.payer transaction
              ∷ transfer_native_sol transfer
              ∷ w)
  unfolding send_confirmed build ask nnull
  send_confirmed_returned chain w w' sequence h =
      let (tx, w1, h1, e1) = bind_returned _ (build s x chain) w h in
      let (transfer, w0, h0, e0) = bind_returned _ (lift (transfer_of s x chain)) w e1 in
      let (signature, w2, h2, e2) =
        bind_returned _ (ask s.confirms (send_and_confirm x.payer tx)) w1 h1 in
      let (found, w3, h3, e3) = bind_returned _ (ask s.logs (get_transaction signature)) w2 h2 in
      let (log, w4, h4, e4) = bind_returned _ (lift (nnull found)) w3 h3 in
      (
        transfer,
        tx,
        signature,
        log,
        ground (arith, e0),
        ground (arith, ap (λ r. r.0) h0, ap (λ r. r.1) e0),
        ground (arith, ap (λ r. r.0) e2, ap (λ r. r.1) e0, ap (λ r. r.1) h0),
        ground (
          arith,
          ap (λ r. r.0) e4,
          ap (λ r. r.0) e3,
          ap (λ r. r.1) e2,
          ap (λ r. r.1) h0,
          ap (λ r. r.1) e0,
        ),
        ground (arith, h4),
        ground (
          arith,
          ap (λ r. r.1) e0,
          ap (λ r. r.1) h0,
          ap (λ r. r.1) e2,
          ap (λ r. r.1) e3,
          ap (λ r. r.1) e4,
          ap (λ r. r.1) h4,
        ),
      )

  fetch_returned :
      (sequence : Text) (w w' : World) (vaa : Bytes)
      → fetch s x sequence w ≡ (ok vaa, w')
      → (emitter : Text) × (w' ≡ get_signed_vaa wormhole_guardian_rpc emitter sequence ∷ w)
  unfolding fetch ask
  fetch_returned sequence w w' vaa h =
      let (bridge, w1, h1, e1) = bind_returned _ (lift (nnull x.solana.token_bridge_address)) w h in
      let (emitter, w2, h2, e2) = bind_returned _ (lift (s.emitter_address_solana bridge)) w1 h1 in
      (emitter, ground (arith, ap (λ r. r.1) e1, ap (λ r. r.1) e2, ap (λ r. r.1) h2))

-- A transfer to Polygon that was sent, found and fetched.
pub record Delivery (s : Services) (w w' : World) : Type 0 where
  pub sender : Sender
  pub transfer : SolTransfer
  pub transaction : Bytes
  pub signature : Text
  pub log : Text
  pub sequence : Text
  pub emitter : Text
  pub loads : load_sender s Sdk.polygon ≡ ok sender
  pub transfers_it : transfer_of s sender (s.chain_id Sdk.polygon) ≡ ok transfer
  pub sequences : s.parse_sequence_from_log_solana log ≡ ok sequence
  pub calls :
      w'
      ≡ get_signed_vaa wormhole_guardian_rpc emitter sequence
        ∷ get_transaction signature
        ∷ send_and_confirm sender.payer transaction
        ∷ transfer_native_sol transfer
        ∷ w

module _ (s : Services) where
  -- `sendSolanaNativeToPolygon.ts`, if it does not fail, has made four calls: it has had one transfer
  -- of the configured fee's amount to Polygon built, sent it, found its log, and asked the guardians
  -- for the message with the sequence number of that log.
  pub send_to_polygon-Delivery :
      (w w' : World) → send_to_polygon s w ≡ (ok tt, w') → Delivery s w w'
  unfolding send_to_polygon
  send_to_polygon-Delivery w w' h =
      let (x, w1, h1, e1) = bind_returned _ (lift (load_sender s Sdk.polygon)) w h in
      let (sequence, w2, h2, e2) =
        bind_returned _ (send_confirmed s x (s.chain_id Sdk.polygon)) w1 h1 in
      let (vaa, w3, h3, e3) = bind_returned _ (fetch s x sequence) w2 h2 in
      let (transfer, tx, signature, log, is_transfer, _, _, _, is_sequence, sends) =
        send_confirmed_returned s x (s.chain_id Sdk.polygon) w1 w2 sequence e2 in
      let (emitter, fetches) = fetch_returned s x sequence w2 w3 vaa e3 in
      let begins : w ≡ w1 = ap (λ r. r.1) e1 in
      let ends : w3 ≡ w' = ap (λ r. r.1) h3 in
      record {
        sender = x;
        transfer = transfer;
        transaction = tx;
        signature = signature;
        log = log;
        sequence = sequence;
        emitter = emitter;
        loads = ap (λ r. r.0) e1;
        transfers_it = is_transfer;
        sequences = is_sequence;
        calls =
            sym ends
            ∙ fetches
            ∙ ap (λ v. get_signed_vaa wormhole_guardian_rpc emitter sequence ∷ v)
                (sends
                  ∙ ap
                      (λ v.
                        get_transaction signature
                        ∷ send_and_confirm x.payer tx
                        ∷ transfer_native_sol transfer
                        ∷ v)
                      (sym begins));
      }
