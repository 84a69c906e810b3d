-- ===== src/Wasm/Instantiated.antt =====
-- The contract of Injective from its instantiation on.
use nimble_xchain_contracts.Prelude.{
  ◌<◌, ◌≡◌, refl, sym, ltb, List, Option, none, some, true, false, arith, All,
}
use nimble_xchain_contracts.Js.{Text, text_eq, ok, ok_injective, returned}
use nimble_xchain_contracts.Xchain.{Bytes, all_zero, require, State, Deployment, deployed}
use nimble_xchain_contracts.Xchain.Governance.{construct}
use nimble_xchain_contracts.Wasm.{StateInfo, Storage, InstantiateMsg, unwrap, instantiate}
use nimble_xchain_contracts.Wasm.SameState.{
  Call, IsSized, on_injective, on_evm, runs, Same, runs-Same,
}

abbrev pub empty : Storage
empty = record { state_info = none; registered_emitters = λ c. none }

-- The same parameters for an EVM chain, with Wormhole's addresses there.
abbrev pub deployment_of : (wormhole token_bridge : Bytes) → InstantiateMsg → Deployment
deployment_of wormhole token_bridge msg = record {
  wormhole = wormhole;
  token_bridge = token_bridge;
  chain_id = msg.chain_id;
  wormhole_finality = msg.wormhole_finality;
  fee_precision = msg.fee_precision;
  relayer_fee_percentage = msg.relayer_fee_percentage;
}

abbrev info_of : Text → InstantiateMsg → StateInfo
info_of sender msg = record {
  owner = sender;
  wormhole = msg.wormhole;
  token_bridge = msg.token_bridge;
  chain_id = msg.chain_id;
  wormhole_finality = msg.wormhole_finality;
  fee_precision = msg.fee_precision;
  relayer_fee_percentage = msg.relayer_fee_percentage;
}

module _ (addr_validate : Text → Option Text) (sender : Text) (msg : InstantiateMsg) (s : Storage)
    (gives : instantiate addr_validate sender msg empty ≡ ok s) where
  instantiate_steps :
      (0 < msg.chain_id)
      × (0 < msg.wormhole_finality)
      × (0 < msg.fee_precision)
      × (record { state_info = some (info_of sender msg); registered_emitters = λ c. none } ≡ s)
  unfolding instantiate
  instantiate_steps =
      let (w, h1, _) = returned _ s (unwrap (addr_validate msg.wormhole)) gives in
      let (_, h2, _) = returned _ s (require (text_eq w msg.wormhole) _) h1 in
      let (b, h3, _) = returned _ s (unwrap (addr_validate msg.token_bridge)) h2 in
      let (_, h4, _) = returned _ s (require (text_eq b msg.token_bridge) _) h3 in
      let (_, h5, chain) = returned _ s (require (ltb 0 msg.chain_id) _) h4 in
      let (_, h6, finality) = returned _ s (require (ltb 0 msg.wormhole_finality) _) h5 in
      let (_, last, precision) = returned _ s (require (ltb 0 msg.fee_precision) _) h6 in
      (ground arith, ground arith, ground arith, ok_injective last)

  -- A contract that is instantiated on Injective with an empty storage could be deployed on an
  -- EVM chain with the same parameters and addresses of Wormhole that are not zero; any calls of
  -- the owner's functions, by anyone and with emitters of 32 bytes, then succeed and fail on
  -- both alike, and leave the same state.
  pub instantiate-Same :
      (wormhole token_bridge : Bytes) (cs : List Call)
      → all_zero wormhole ≡ false
      → all_zero token_bridge ≡ false
      → All IsSized cs
      → (t : State) × (construct sender (deployment_of wormhole token_bridge msg) ≡ ok t)
        × ((runs on_injective s cs).0 ≡ (runs on_evm t cs).0)
        × Same wormhole token_bridge ((runs on_injective s cs).1) ((runs on_evm t cs).1)
  unfolding construct
  instantiate-Same wormhole token_bridge cs wormhole_set bridge_set sized =
      let (chain, finality, precision, is_s) = instantiate_steps in
      let t : State = deployed sender (deployment_of wormhole token_bridge msg) in
      let (verdicts, last) = runs-Same wormhole token_bridge cs s t sized (record {
        info = info_of sender msg;
        emitters = λ c. none;
        storage = sym is_s;
        state = refl;
      }) in
      let c1 : ltb 0 msg.chain_id ≡ true = ground arith in
      let c2 : ltb 0 msg.wormhole_finality ≡ true = ground arith in
      let c3 : ltb 0 msg.fee_precision ≡ true = ground arith in
      (t, rw (wormhole_set, bridge_set, c1, c2, c3) refl, verdicts, last)
