-- ===== src/Relay/Server.antt =====
-- lib/relayer-engine/src/relay/main.ts and `relayEVM` of relay/utils.ts: the REST handlers that
-- listener/restEventSource.ts mounts. A handler acts on a world that keeps the responses it sent
-- and the transactions it asked for.
pub mod Responses
pub mod Redeeming
pub mod NimbleRelay
use nimble_xchain_contracts.Prelude.{ℕ, String, List, [], ◌∷◌, if◌then◌else◌, Option, none, some}
use nimble_xchain_contracts.Prelude.{Bool, true, false, not, ◌==◌}
use nimble_xchain_contracts.Js.{Text, text, Value, num, str, object, truthy, Error, type_error}
use nimble_xchain_contracts.Js.{Outcome, ok, throws}
use nimble_xchain_contracts.Js.Object.{Member}
use nimble_xchain_contracts.Exec.{Exec, pure, fail, lift, catch, ◌>>=◌, ◌>>◌}
use nimble_xchain_contracts.Sdk.{SdkChain}
use nimble_xchain_contracts.Relay.Thresholds.{Thresholds, version}
use nimble_xchain_contracts.Relay.Config.{ChainConfigInfo}
use nimble_xchain_contracts.Relay.Policy.{
  VaaInfo, ShouldRelayResult, Query, should_relay, should_relay_vaa,
}

abbrev pub Bytes : Type 0
Bytes = List ℕ

pub record Receipt : Type 0 where
  pub transaction_hash : Text

-- A transaction that is asked of a chain.
pub data Call : Type 0 where
  redeem_on_eth : (bridge node_url key : Text) → Bytes → Call
  redeem_transfer_with_payload : (contract node_url relayer_key : Value) → Bytes → Value → Call

-- The bodies of the responses, as JSON.
pub data Body : Type 0 where
  unsupported_chain : Value → Body
  message : Text → Body
  refused : Text → VaaInfo → Body
  receipt_body : Receipt → Body
  failure : Error → Body
  policy : ShouldRelayResult → Body
  version_body : Text → Body

pub record Reply : Type 0 where
  pub status : ℕ
  pub body : Body

-- The newest reply and the newest call stand first.
pub record World : Type 0 where
  pub replies : List Reply
  pub calls : List Call

-- The field of a request's body or query; `undefined` where there is none, or no body.
abbrev pub Request : Type 0
Request = Text → Value

-- What the handlers use of the SDKs and of the chains.
pub record Services : Type 0 where
  pub hex_to_uint8_array : Value → Outcome Bytes
  pub parse_vaa : Bytes → Outcome VaaInfo
  pub hex_to_native_string : Text → ℕ → Outcome Value
  -- `new ethers.Wallet(key, provider)`
  pub wallet : Value → Outcome (Unit {0})
  -- what a chain answers to a transaction
  pub submit : Call → Outcome Receipt
  pub prototype : Text → Option Member
  pub chain_id : SdkChain → ℕ

unfoldable pub respond : ℕ → Body → Exec World (Unit {0})
respond status body w =
    (ok tt, record w { replies = record { status = status; body = body } ∷ w.replies })

-- `chainId === x.chainId`
abbrev pub strict_eq : ℕ → Value → Bool
strict_eq n (num m) = n == m
strict_eq n _ = false

unfoldable pub find_chain : List ChainConfigInfo → Value → Option ChainConfigInfo
find_chain [] v = none
find_chain (c ∷ cs) v =
    let rest = find_chain cs v in if strict_eq c.chain_id v then some c else rest

pub record Validated : Type 0 where
  pub config : ChainConfigInfo
  pub chain : Value
  pub signed_vaa : Value

abbrev pub validated_of : Request → ChainConfigInfo → Validated
validated_of request config = record {
  config = config;
  chain = request (text "targetChain");
  signed_vaa = request (text "signedVAA");
}

abbrev non_null : Option Receipt → Outcome Receipt
non_null none = throws type_error
non_null (some r) = ok r

module _ (s : Services) where
  unfoldable pub submit : Call → Exec World Receipt
  submit call w = (s.submit call, record w { calls = call ∷ w.calls })

  -- The part of `validateRequest` after the policy's answer.
  unfoldable pub check_policy :
      Validated → VaaInfo → ShouldRelayResult → Exec World (Option Validated)
  check_policy v vaa result =
      if result.should_relay
      then pure (some v)
      else (do respond 400 (refused result.msg vaa); pure none)

  unfoldable pub check_vaa : Thresholds → Validated → Exec World (Option Validated)
  unfolding check_policy
  check_vaa supported v = do
    bytes ← lift (s.hex_to_uint8_array v.signed_vaa)
    vaa ← lift (s.parse_vaa bytes)
    result ← lift (should_relay_vaa s.prototype s.chain_id s.hex_to_native_string supported vaa)
    check_policy v vaa result

  unfoldable pub check_signed : Thresholds → Validated → Exec World (Option Validated)
  unfolding check_vaa
  check_signed supported v =
      if not (truthy v.signed_vaa)
      then (do respond 400 (message (text "signedVAA is required")); pure none)
      else check_vaa supported v

  -- `none` stands for the response object that the source returns once it has answered.
  unfoldable pub check_chain :
      Thresholds → Request → Option ChainConfigInfo → Exec World (Option Validated)
  unfolding check_signed
  check_chain supported request none = do
    respond 400 (unsupported_chain (request (text "targetChain")))
    pure none
  check_chain supported request (some config) = check_signed supported (validated_of request config)

  unfoldable pub validate_request :
      List ChainConfigInfo → Thresholds → Request → Exec World (Option Validated)
  validate_request chains supported request =
      check_chain supported request (find_chain chains (request (text "targetChain")))

  unfoldable pub relay_evm : ChainConfigInfo → Value → Exec World Receipt
  unfolding submit
  relay_evm config signed_vaa = do
    lift (s.wallet (str config.wallet_private_key))
    bytes ← lift (s.hex_to_uint8_array signed_vaa)
    submit (
        redeem_on_eth config.token_bridge_address config.substrate_node_url
          config.wallet_private_key bytes)

  -- The `try` of `relay`.
  unfoldable pub relay_validated : Option Validated → Exec World (Unit {0})
  unfolding relay_evm
  relay_validated none = pure tt
  relay_validated (some v) =
      catch (do receipt ← relay_evm v.config v.signed_vaa; respond 200 (receipt_body receipt))
        (λ e. respond 500 (failure e))

  unfoldable pub relay : List ChainConfigInfo → Thresholds → Request → Exec World (Unit {0})
  relay chains supported request = do
    validated ← validate_request chains supported request
    relay_validated validated

  -- The `try` of `nimbleRelay`; the inner `catch` gives null, which `receipt!` then reads.
  unfoldable pub nimble_redeem : Request → Exec World (Unit {0})
  unfolding submit
  nimble_redeem request =
      let override = request (text "override") in
      catch
        (do
          bytes ← lift (s.hex_to_uint8_array (request (text "signedVAA")))
          answer ←
              catch
                (do
                  receipt ← submit (
                      redeem_transfer_with_payload (request (text "nimbleContractAddress"))
                        (request (text "destNodeURL")) (request (text "relayerWalletPrivateKey"))
                        bytes
                        (if truthy override then override else object (text "[object Object]")))
                  pure (some receipt))
                (λ e. pure none)
          receipt ← lift (non_null answer)
          respond 200 (receipt_body receipt))
        (λ e. respond 500 (failure e))

  unfoldable pub nimble_relay : Request → Exec World (Unit {0})
  nimble_relay request =
      if not (truthy (request (text "destNodeURL")))
      then respond 400 (message (text "Destination Node URL is required"))
      else if not (truthy (request (text "userWalletPrivateKey")))
      then respond 400 (message (text "User Wallet Private Key is required"))
      else if not (truthy (request (text "relayerWalletPrivateKey")))
      then respond 400 (message (text "Relayer Wallet Private Key iis required"))
      else if not (truthy (request (text "nimbleContractAddress")))
      then respond 400 (message (text "nimble ContractAddress is required"))
      else if not (truthy (request (text "signedVAA")))
      then respond 400 (message (text "signedVAA is required"))
      else (do
        lift (s.wallet (request (text "userWalletPrivateKey")))
        lift (s.wallet (request (text "relayerWalletPrivateKey")))
        nimble_redeem request)

  unfoldable pub check_should_relay : Thresholds → Request → Exec World (Unit {0})
  check_should_relay supported request = do
    result ← lift (
        should_relay s.prototype supported (record {
          target_chain = request (text "targetChain");
          origin_asset = request (text "originAsset");
          amount = request (text "amount");
        }))
    respond 200 (policy result)

unfoldable pub get_version : Exec World (Unit {0})
get_version = respond 200 (version_body version)

-- The routes that `runRestListener` mounts; `none` for any other.
pub data Route : Type 0 where
  post_relay post_nimble_relay get_should_relay get_the_version : Route

unfoldable pub serve :
    Services → List ChainConfigInfo → Thresholds → Route → Request → Exec World (Unit {0})
serve s chains supported post_relay request = relay s chains supported request
serve s chains supported post_nimble_relay request = nimble_relay s request
serve s chains supported get_should_relay request = check_should_relay s supported request
serve s chains supported get_the_version request = get_version
