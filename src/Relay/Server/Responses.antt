-- ===== src/Relay/Server/Responses.antt =====
-- Every request gets one response, or none where validation itself throws.
use nimble_xchain_contracts.Prelude.{List, ◌≡◌, refl, arith, Option, none, some}
use nimble_xchain_contracts.Prelude.{not, suc, length, drop}
use nimble_xchain_contracts.Js.{text, truthy, Outcome, ok, throws}
use nimble_xchain_contracts.Exec.{continue}
use nimble_xchain_contracts.Exec.Rules.{bind-lift, branch}
use nimble_xchain_contracts.Relay.Thresholds.{Thresholds}
use nimble_xchain_contracts.Relay.Config.{ChainConfigInfo}
use nimble_xchain_contracts.Relay.Policy.{VaaInfo, ShouldRelayResult, should_relay_vaa}
use nimble_xchain_contracts.Relay.Server.{
  World, Request, Services, Validated, validated_of, respond, find_chain, check_policy, check_vaa,
  check_signed, check_chain, validate_request, submit, relay_evm, relay_validated, relay,
  nimble_redeem, nimble_relay, check_should_relay, get_version, Route, post_relay,
  post_nimble_relay, get_should_relay, get_the_version, serve,
}

-- One response more than before, and those before it as they were.
abbrev pub OneMore : World → World → Type 0
OneMore w w' = (length w'.replies ≡ suc (length w.replies)) × (drop 1 w'.replies ≡ w.replies)

-- One response where the handler returns; nothing sent and nothing submitted where it throws.
abbrev pub AnsweredOnce : World → Outcome (Unit {0}) × World → Type 0
AnsweredOnce w (ok _, w') = OneMore w w'
AnsweredOnce w (throws e, w') = w' ≡ w

-- Validation answers, or hands on what it found, or throws.
abbrev Checked : World → Outcome (Option Validated) × World → Type 0
Checked w (ok none, w') = OneMore w w'
Checked w (ok (some v), w') = w' ≡ w
Checked w (throws e, w') = w' ≡ w

module _ (s : Services) (w : World) where
  check_policy-Checked :
      (v : Validated) (vaa : VaaInfo) (result : ShouldRelayResult)
      → Checked w (check_policy s v vaa result w)
  unfolding check_policy respond
  check_policy-Checked v vaa result =
      branch (Checked w) result.should_relay _ _ w (λ yes_case. refl) (λ no_case. (refl, refl))

  check_vaa-Checked :
      (supported : Thresholds) (v : Validated) → Checked w (check_vaa s supported v w)
  unfolding check_vaa
  check_vaa-Checked supported v =
      bind-lift (Checked w) (s.hex_to_uint8_array v.signed_vaa) _ w
        (λ bytes _.
          bind-lift (Checked w) (s.parse_vaa bytes) _ w
            (λ vaa _.
              bind-lift (Checked w)
                (should_relay_vaa s.prototype s.chain_id s.hex_to_native_string supported vaa) _ w
                (λ result _. check_policy-Checked v vaa result) (λ e _. refl))
            (λ e _. refl))
        (λ e _. refl)

  check_signed-Checked :
      (supported : Thresholds) (v : Validated) → Checked w (check_signed s supported v w)
  unfolding check_signed respond
  check_signed-Checked supported v =
      branch (Checked w) (not (truthy v.signed_vaa)) _ _ w (λ unset. (refl, refl))
        (λ given. check_vaa-Checked supported v)

  check_chain-Checked :
      (supported : Thresholds) (request : Request) (o : Option ChainConfigInfo)
      → Checked w (check_chain s supported request o w)
  unfolding check_chain respond
  check_chain-Checked supported request none = (refl, refl)
  check_chain-Checked supported request (some config) =
      check_signed-Checked supported (validated_of request config)

  validate_request-Checked :
      (chains : List ChainConfigInfo) (supported : Thresholds) (request : Request)
      → Checked w (validate_request s chains supported request w)
  unfolding validate_request
  validate_request-Checked chains supported request =
      check_chain-Checked supported request (find_chain chains (request (text "targetChain")))

module _ (s : Services) (w : World) where
  relay_validated-AnsweredOnce : (v : Validated) → AnsweredOnce w (relay_validated s (some v) w)
  unfolding relay_validated relay_evm submit respond
  relay_validated-AnsweredOnce v = ground arith

  relay-AnsweredOnce :
      (chains : List ChainConfigInfo) (supported : Thresholds) (request : Request)
      → AnsweredOnce w (relay s chains supported request w)
  unfolding relay
  relay-AnsweredOnce chains supported request =
      bound (validate_request s chains supported request w)
        (validate_request-Checked s w chains supported request)
    where
      bound :
          (r : Outcome (Option Validated) × World)
          → Checked w r
          → AnsweredOnce w (continue r (relay_validated s))
      bound (ok none, w') h = unfold relay_validated in h
      bound (ok (some v), w') h = rw h (relay_validated-AnsweredOnce v)
      bound (throws e, w') h = h

  nimble_redeem-AnsweredOnce : (request : Request) → AnsweredOnce w (nimble_redeem s request w)
  unfolding nimble_redeem submit respond
  nimble_redeem-AnsweredOnce request = ground arith

  nimble_relay-AnsweredOnce : (request : Request) → AnsweredOnce w (nimble_relay s request w)
  unfolding nimble_relay respond
  nimble_relay-AnsweredOnce request = ground (arith, nimble_redeem-AnsweredOnce request)

  check_should_relay-AnsweredOnce :
      (supported : Thresholds) (request : Request)
      → AnsweredOnce w (check_should_relay s supported request w)
  unfolding check_should_relay respond
  check_should_relay-AnsweredOnce supported request = ground arith

  -- Whatever the route, the request and the services do: a handler that returns has sent exactly
  -- one response and left the earlier ones as they were, and one that throws has sent nothing and
  -- submitted nothing.
  pub serve-AnsweredOnce :
      (chains : List ChainConfigInfo) (supported : Thresholds) (route : Route) (request : Request)
      → AnsweredOnce w (serve s chains supported route request w)
  unfolding serve get_version respond
  serve-AnsweredOnce chains supported post_relay request =
      relay-AnsweredOnce chains supported request
  serve-AnsweredOnce chains supported post_nimble_relay request = nimble_relay-AnsweredOnce request
  serve-AnsweredOnce chains supported get_should_relay request =
      check_should_relay-AnsweredOnce supported request
  serve-AnsweredOnce chains supported get_the_version request = (refl, refl)
