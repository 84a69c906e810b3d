-- ===== src/Relay/Server/Redeeming.antt =====
-- Which transactions the relay submits, and what a response of status 200 means.
use nimble_xchain_contracts.Prelude.{
  ℕ, suc, List, [], ◌∷◌, ◌≡◌, ◌≢◌, ◌↔◌, sym, ◌∙◌, Bool-cases, false, refl, arith, Option, none,
  some,
}
use nimble_xchain_contracts.Prelude.{true, not, ◌⊎◌, inl, inr, if◌then◌else◌, ◌==◌}
use nimble_xchain_contracts.Js.{text, truthy, Error, Outcome, ok, throws, str}
use nimble_xchain_contracts.Exec.{continue}
use nimble_xchain_contracts.Exec.Rules.{bind-lift, branch}
use nimble_xchain_contracts.Relay.Thresholds.{Thresholds}
use nimble_xchain_contracts.Relay.Config.{ChainConfigInfo}
use nimble_xchain_contracts.Relay.Policy.{VaaInfo, ShouldRelayResult, should_relay_vaa}
use nimble_xchain_contracts.Relay.Server.{
  Bytes, Receipt, Call, redeem_on_eth, Reply, receipt_body, failure, World, Request, Services,
  Validated, validated_of, respond, find_chain, check_policy, check_vaa, check_signed, check_chain,
  submit, validate_request, relay_evm, relay_validated, relay,
}

pub successes : List Reply → ℕ
successes [] = 0
successes (r ∷ rs) = if r.status == 200 then suc (successes rs) else successes rs

-- The response to a chain's answer.
abbrev pub answer : Outcome Receipt → Reply
answer (ok receipt) = record { status = 200; body = receipt_body receipt }
answer (throws e) = record { status = 500; body = failure e }

abbrev pub redeem_call : ChainConfigInfo → Bytes → Call
redeem_call config bytes =
    redeem_on_eth config.token_bridge_address config.substrate_node_url config.wallet_private_key
      bytes

-- Nothing was submitted, and no response of status 200 was sent.
abbrev pub Untouched : World → World → Type 0
Untouched w w' = (w'.calls ≡ w.calls) × (successes w'.replies ≡ successes w.replies)

-- One transaction was submitted, and its answer is the response.
abbrev pub Submitted : Services → World → World → Call → Type 0
Submitted s w w' call =
    (w'.calls ≡ call ∷ w.calls) × (w'.replies ≡ answer (s.submit call) ∷ w.replies)

module _ (s : Services) (chains : List ChainConfigInfo) (supported : Thresholds)
    (request : Request) where
  -- The request names a configured chain, and the policy accepts the transfer of its VAA.
  pub record Cleared (config : ChainConfigInfo) (bytes : Bytes) : Type 0 where
    pub vaa : VaaInfo
    pub result : ShouldRelayResult
    pub configured : find_chain chains (request (text "targetChain")) ≡ some config
    pub decoded : s.hex_to_uint8_array (request (text "signedVAA")) ≡ ok bytes
    pub parsed : s.parse_vaa bytes ≡ ok vaa
    pub judged :
        should_relay_vaa s.prototype s.chain_id s.hex_to_native_string supported vaa ≡ ok result
    pub accepted : result.should_relay ≡ true

  module _ (w : World) where
    abbrev Valid : Outcome (Option Validated) × World → Type 0
    Valid (ok none, w') = Untouched w w'
    Valid (ok (some v), w') =
        (bytes : Bytes) × Cleared v.config bytes
        × (v.signed_vaa ≡ request (text "signedVAA"))
        × (w' ≡ w)
    Valid (throws e, w') = w' ≡ w

    module _ (config : ChainConfigInfo)
        (configured : find_chain chains (request (text "targetChain")) ≡ some config) where
      abbrev found : Validated
      found = validated_of request config

      check_policy-Valid :
          (bytes : Bytes) (vaa : VaaInfo) (result : ShouldRelayResult)
          → s.hex_to_uint8_array (request (text "signedVAA")) ≡ ok bytes
          → s.parse_vaa bytes ≡ ok vaa
          → should_relay_vaa s.prototype s.chain_id s.hex_to_native_string supported vaa ≡ ok result
          → Valid (check_policy s found vaa result w)
      unfolding check_policy respond successes
      check_policy-Valid bytes vaa result decoded parsed judged =
          branch Valid result.should_relay _ _ w
            (λ accepted. (
              bytes,
              record {
                vaa = vaa;
                result = result;
                configured = configured;
                decoded = decoded;
                parsed = parsed;
                judged = judged;
                accepted = accepted;
              },
              refl,
              refl,
            ))
            (λ _. (refl, refl))

      check_vaa-Valid : Valid (check_vaa s supported found w)
      unfolding check_vaa
      check_vaa-Valid =
          bind-lift Valid (s.hex_to_uint8_array (request (text "signedVAA"))) _ w
            (λ bytes decoded.
              bind-lift Valid (s.parse_vaa bytes) _ w
                (λ vaa parsed.
                  bind-lift Valid
                    (should_relay_vaa s.prototype s.chain_id s.hex_to_native_string supported vaa) _
                    w (λ result judged. check_policy-Valid bytes vaa result decoded parsed judged)
                    (λ e _. refl))
                (λ e _. refl))
            (λ e _. refl)

      check_signed-Valid : Valid (check_signed s supported found w)
      unfolding check_signed respond successes
      check_signed-Valid =
          branch Valid (not (truthy (request (text "signedVAA")))) _ _ w (λ _. (refl, refl))
            (λ _. check_vaa-Valid)

    check_chain-Valid :
        (o : Option ChainConfigInfo)
        → find_chain chains (request (text "targetChain")) ≡ o
        → Valid (check_chain s supported request o w)
    unfolding check_chain respond successes
    check_chain-Valid none e = (refl, refl)
    check_chain-Valid (some config) e = check_signed-Valid config e

    validate_request-Valid : Valid (validate_request s chains supported request w)
    unfolding validate_request
    validate_request-Valid =
        check_chain-Valid (find_chain chains (request (text "targetChain"))) refl

    relay_validated-calls :
        (v : Validated) (bytes : Bytes)
        → s.hex_to_uint8_array v.signed_vaa ≡ ok bytes
        → Untouched w (relay_validated s (some v) w).1
          ⊎ Submitted s w (relay_validated s (some v) w).1 (redeem_call v.config bytes)
    unfolding relay_validated relay_evm submit respond successes
    relay_validated-calls v bytes decoded = ground arith

    relay_bound :
        (r : Outcome (Option Validated) × World)
        → Valid r
        → Untouched w (continue r (relay_validated s)).1
          ⊎ ((config : ChainConfigInfo) × (bytes : Bytes) × Cleared config bytes
              × Submitted s w (continue r (relay_validated s)).1 (redeem_call config bytes))
    relay_bound (ok none, w') h = unfold relay_validated in inl h
    relay_bound (throws e, w') h = inl (rw h (refl, refl))
    relay_bound (ok (some v), w') (bytes, cleared, same, h) =
        rw h (submitted (relay_validated-calls v bytes (rw same cleared.decoded)))
      where
        submitted :
            Untouched w (relay_validated s (some v) w).1
              ⊎ Submitted s w (relay_validated s (some v) w).1 (redeem_call v.config bytes)
            → Untouched w (relay_validated s (some v) w).1
              ⊎ ((config : ChainConfigInfo) × (bytes : Bytes) × Cleared config bytes
                  × Submitted s w (relay_validated s (some v) w).1 (redeem_call config bytes))
        submitted (inl untouched) = inl untouched
        submitted (inr call) = inr (v.config, bytes, cleared, call)

    -- The relay submits at most one transaction, and only for a request that names a configured
    -- chain and whose VAA the policy accepts; it is then the redemption of the request's VAA on
    -- that chain, and its answer decides between the statuses 200 and 500. Without a transaction
    -- no response of status 200 is sent.
    pub relay_redeems :
        Untouched w (relay s chains supported request w).1
        ⊎ ((config : ChainConfigInfo) × (bytes : Bytes) × Cleared config bytes
            × Submitted s w (relay s chains supported request w).1 (redeem_call config bytes))
    unfolding relay
    relay_redeems =
        relay_bound (validate_request s chains supported request w) validate_request-Valid

    goes_through :
        (config : ChainConfigInfo) (bytes : Bytes)
        → Cleared config bytes
        → truthy (request (text "signedVAA")) ≡ true
        → s.wallet (str config.wallet_private_key) ≡ ok tt
        → Submitted s w (relay s chains supported request w).1 (redeem_call config bytes)
    unfolding relay validate_request check_chain check_policy relay_validated relay_evm submit
        respond
    goes_through config bytes cleared some_vaa wallet =
        rw
          (
            cleared.configured, check_chain, some_vaa, cleared.decoded, cleared.parsed,
            cleared.judged, cleared.accepted, relay_validated, wallet, cleared.decoded,
          )
          (ground arith)

    -- Without a VAA nothing is submitted.
    missing_vaa :
        (config : ChainConfigInfo) (bytes : Bytes)
        → Cleared config bytes
        → truthy (request (text "signedVAA")) ≡ false
        → (relay s chains supported request w).1.calls ≡ w.calls
    unfolding relay validate_request check_chain check_signed relay_validated respond
    missing_vaa config bytes cleared no_vaa =
        rw (cleared.configured, check_chain, no_vaa) (ground arith)

    -- Without a wallet nothing is submitted.
    missing_wallet :
        (config : ChainConfigInfo) (bytes : Bytes) (e : Error)
        → Cleared config bytes
        → truthy (request (text "signedVAA")) ≡ true
        → s.wallet (str config.wallet_private_key) ≡ throws e
        → (relay s chains supported request w).1.calls ≡ w.calls
    unfolding relay validate_request check_chain check_policy relay_validated relay_evm submit
        respond
    missing_wallet config bytes e cleared some_vaa wallet =
        rw
          (
            cleared.configured, check_chain, some_vaa, cleared.decoded, cleared.parsed,
            cleared.judged, cleared.accepted, relay_validated, wallet,
          )
          refl

    longer : (call : Call) (calls : List Call) → calls ≢ call ∷ calls
    longer call [] h = cc
    longer call (c ∷ calls) h = longer c calls (ground (arith, h))

    -- What a request needs for its VAA to be submitted, and the call that this is.
    abbrev pub Warrants : Call → Type 0
    Warrants call =
        (config : ChainConfigInfo) × (bytes : Bytes) × Cleared config bytes
        × (truthy (request (text "signedVAA")) ≡ true)
        × (s.wallet (str config.wallet_private_key) ≡ ok tt)
        × (call ≡ redeem_call config bytes)

    Warrants-relay :
        (call : Call)
        → Warrants call
        → (relay s chains supported request w).1.calls ≡ call ∷ w.calls
    Warrants-relay call (config, bytes, cleared, some_vaa, wallet, is_call) =
        rw is_call ((goes_through config bytes cleared some_vaa wallet).0)

    with_wallet :
        (call : Call) (config : ChainConfigInfo) (bytes : Bytes) (answer : Outcome (Unit {0}))
        → Cleared config bytes
        → truthy (request (text "signedVAA")) ≡ true
        → s.wallet (str config.wallet_private_key) ≡ answer
        → call ≡ redeem_call config bytes
        → (relay s chains supported request w).1.calls ≡ call ∷ w.calls
        → Warrants call
    with_wallet call config bytes (ok u) cleared some_vaa wallet is_call h =
        (config, bytes, cleared, some_vaa, wallet, is_call)
    with_wallet call config bytes (throws e) cleared some_vaa wallet is_call h =
        absurd
          (longer call w.calls (sym (missing_wallet config bytes e cleared some_vaa wallet) ∙ h))

    relay-Warrants :
        (call : Call)
        → (relay s chains supported request w).1.calls ≡ call ∷ w.calls
        → Warrants call
    relay-Warrants call h = elim relay_redeems [
      | inl untouched ↦ absurd (longer call w.calls (sym untouched.0 ∙ h))
      | inr (config, bytes, cleared, submitted) ↦
          let is_call : call ≡ redeem_call config bytes = ground (arith, sym h ∙ submitted.0) in
          elim (Bool-cases (truthy (request (text "signedVAA")))) [
            | inl some_vaa ↦
                with_wallet call config bytes (s.wallet (str config.wallet_private_key)) cleared
                  some_vaa refl is_call h
            | inr no_vaa ↦
                absurd (longer call w.calls (sym (missing_vaa config bytes cleared no_vaa) ∙ h))
          ]
    ]

    -- A request's answer submits a call exactly where the request is cleared, it has a VAA, and the
    -- configured key makes a wallet; the call is then the redemption of the request's VAA at the
    -- chain that the request names, whatever target chain the VAA itself has.
    pub relay_submits :
        (call : Call)
        → ((relay s chains supported request w).1.calls ≡ call ∷ w.calls) ↔ Warrants call
    relay_submits call = (relay-Warrants call, Warrants-relay call)
