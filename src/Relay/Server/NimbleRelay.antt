-- ===== src/Relay/Server/NimbleRelay.antt =====
-- What the `/nimbleRelay` handler submits and how it answers.
use nimble_xchain_contracts.Prelude.{◌∷◌, ◌≡◌, arith, if◌then◌else◌}
use nimble_xchain_contracts.Prelude.{true}
use nimble_xchain_contracts.Js.{text, object, truthy, type_error, Outcome, ok, throws}
use nimble_xchain_contracts.Relay.Server.{
  Bytes, Receipt, Call, redeem_transfer_with_payload, Reply, receipt_body, failure, World, Request,
  Services, respond, submit, nimble_redeem, nimble_relay,
}

-- A chain's error reaches the caller as the TypeError of reading a null receipt.
abbrev pub nimble_answer : Outcome Receipt → Reply
nimble_answer (ok receipt) = record { status = 200; body = receipt_body receipt }
nimble_answer (throws e) = record { status = 500; body = failure type_error }

abbrev pub nimble_call : Request → Bytes → Call
nimble_call request bytes =
    redeem_transfer_with_payload (request (text "nimbleContractAddress"))
      (request (text "destNodeURL")) (request (text "relayerWalletPrivateKey")) bytes
      (if truthy (request (text "override"))
        then request (text "override")
        else object (text "[object Object]"))

-- Every field that the handler asks for is given, both keys make wallets, and the VAA is hexadecimal.
pub record IsReady (s : Services) (request : Request) (bytes : Bytes) : Type 0 where
  pub node_url : truthy (request (text "destNodeURL")) ≡ true
  pub user_key : truthy (request (text "userWalletPrivateKey")) ≡ true
  pub relayer_key : truthy (request (text "relayerWalletPrivateKey")) ≡ true
  pub contract : truthy (request (text "nimbleContractAddress")) ≡ true
  pub signed_vaa : truthy (request (text "signedVAA")) ≡ true
  pub user_wallet : s.wallet (request (text "userWalletPrivateKey")) ≡ ok tt
  pub relayer_wallet : s.wallet (request (text "relayerWalletPrivateKey")) ≡ ok tt
  pub decoded : s.hex_to_uint8_array (request (text "signedVAA")) ≡ ok bytes

module _ (s : Services) (request : Request) (w : World) where
  abbrev pub NimbleSubmitted : World → Call → Type 0
  NimbleSubmitted w' call =
      (w'.calls ≡ call ∷ w.calls) × (w'.replies ≡ nimble_answer (s.submit call) ∷ w.replies)

  nimble_redeem-submits :
      (bytes : Bytes)
      → s.hex_to_uint8_array (request (text "signedVAA")) ≡ ok bytes
      → NimbleSubmitted (nimble_redeem s request w).1 (nimble_call request bytes)
  unfolding nimble_redeem submit respond
  nimble_redeem-submits bytes decoded = ground arith

  -- A ready request submits exactly one redemption with the given contract, node, relayer key,
  -- VAA and override; a receipt is answered with status 200, and an error of the chain, whatever
  -- it is, with status 500 and a TypeError.
  pub nimble_relay-submits :
      (bytes : Bytes)
      → IsReady s request bytes
      → NimbleSubmitted (nimble_relay s request w).1 (nimble_call request bytes)
  unfolding nimble_relay
  nimble_relay-submits bytes r =
      rw
        (
          r.node_url, r.user_key, r.relayer_key, r.contract, r.signed_vaa, r.user_wallet,
          r.relayer_wallet,
        )
        (nimble_redeem-submits bytes r.decoded)
