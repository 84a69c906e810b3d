-- ===== src/Xchain/Governance.antt =====
-- nimbleXChain's constructor and nimbleXChainGovernance: who may change the state, and to what.
pub mod Reachable
use nimble_xchain_contracts.Prelude.{
  ℕ, ◌+◌, ◌==◌, ltb, List, [], ◌∷◌, Bool, true, false, ◌&&◌, not, if◌then◌else◌,
}
use nimble_xchain_contracts.Js.{Text, text, text_eq, Outcome, ok, throws, ◌>>=◌}
use nimble_xchain_contracts.Xchain.{
  Bytes, zeros, all_zero, require, State, set_emitter, Deployment, deployed,
}

infixl 5 ◌>>◌
abbrev pub ◌>>◌ {ℓ} : {B : Type ℓ} → Outcome (Unit {0}) → Outcome B → Outcome B
m >> k = m >>= λ _. k

-- `constructor`
unfoldable pub construct : Bytes → Deployment → Outcome State
construct sender d = do
  require (not (all_zero d.wormhole)) (text "invalid Wormhole address")
  require (not (all_zero d.token_bridge)) (text "invalid TokenBridge address")
  require (ltb 0 d.chain_id) (text "invalid chainId")
  require (ltb 0 d.wormhole_finality) (text "invalid wormholeFinality")
  require (ltb 0 d.fee_precision) (text "invalid fee precision")
  ok (deployed sender d)

-- `onlyOwner`
unfoldable pub only_owner : Bytes → State → Outcome (Unit {0})
only_owner sender st = require (text_eq st.owner sender) (text "caller not the owner")

unfoldable pub register_emitter : Bytes → ℕ → Bytes → State → Outcome State
unfolding only_owner
register_emitter sender emitter_chain_id emitter_address st = do
  only_owner sender st
  require (not (emitter_chain_id == 0) && not (emitter_chain_id == st.chain_id))
      (text "emitterChainId cannot equal 0 or this chainId")
  require (not (all_zero emitter_address)) (text "emitterAddress cannot equal bytes32(0)")
  ok (set_emitter emitter_chain_id emitter_address st)

-- The event that is emitted only tells the old and the new fee.
unfoldable pub update_relayer_fee : Bytes → ℕ → ℕ → State → Outcome State
unfolding only_owner
update_relayer_fee sender updated_percentage updated_precision st = do
  only_owner sender st
  require (ltb 0 updated_precision) (text "precision must be > 0")
  require (ltb updated_percentage updated_precision)
      (text "relayer fee percentage must be < precision")
  ok (record st { relayer_fee_percentage = updated_percentage; fee_precision = updated_precision })
