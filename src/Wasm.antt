-- ===== src/Wasm.antt =====
-- injective/contracts: the contract of Injective, its storage (src/state.rs), and from
-- src/xchain.rs the functions that write it. A panic, which undoes a transaction, is a thrown
-- error. Addresses are the texts that the chain has for them, `[u8; 32]` is 32 bytes.
pub mod Payload
pub mod Transfers
pub mod SameState
pub mod SameFee
pub mod SamePayload
pub mod SameToken
pub mod Instantiated
mod Tests
use nimble_xchain_contracts.Prelude.{
  ℕ, ◌==◌, ltb, List, [], ◌∷◌, Option, none, some, Bool, true, false, ◌&&◌, not, if◌then◌else◌,
}
use nimble_xchain_contracts.Js.{Text, text, text_eq, Outcome, ok, throws, error, ◌>>=◌}
use nimble_xchain_contracts.Xchain.{Bytes, zeros, require}
use nimble_xchain_contracts.Xchain.Governance.{◌>>◌}

pub record StateInfo : Type 0 where
  pub owner : Text
  pub wormhole : Text
  pub token_bridge : Text
  pub chain_id : ℕ
  pub wormhole_finality : ℕ
  pub fee_precision : ℕ
  pub relayer_fee_percentage : ℕ

-- The singleton under `state`, and the bucket under `registeredEmitters`, whose keys are chains.
pub record Storage : Type 0 where
  pub state_info : Option StateInfo
  pub registered_emitters : ℕ → Option Bytes

pub record InstantiateMsg : Type 0 where
  pub owner : Text
  pub wormhole : Text
  pub token_bridge : Text
  pub chain_id : ℕ
  pub wormhole_finality : ℕ
  pub fee_precision : ℕ
  pub relayer_fee_percentage : ℕ

-- `unwrap`
abbrev pub unwrap : {A : Type 0} → Option A → Outcome A
unwrap none = throws (error (text "called `unwrap()` on an error"))
unwrap (some a) = ok a

-- The message's `owner` is not read.
unfoldable pub instantiate :
    (addr_validate : Text → Option Text) (sender : Text)
    → InstantiateMsg
    → Storage
    → Outcome Storage
instantiate addr_validate sender msg s = do
  wormhole ← unwrap (addr_validate msg.wormhole)
  require (text_eq wormhole msg.wormhole) (text "invalid Wormhole address")
  token_bridge ← unwrap (addr_validate msg.token_bridge)
  require (text_eq token_bridge msg.token_bridge) (text "invalid TokenBridge address")
  require (ltb 0 msg.chain_id) (text "invalid chainId")
  require (ltb 0 msg.wormhole_finality) (text "invalid wormholeFinality")
  require (ltb 0 msg.fee_precision) (text "invalid fee precision")
  ok (record s {
    state_info = some (record {
      owner = sender;
      wormhole = msg.wormhole;
      token_bridge = msg.token_bridge;
      chain_id = msg.chain_id;
      wormhole_finality = msg.wormhole_finality;
      fee_precision = msg.fee_precision;
      relayer_fee_percentage = msg.relayer_fee_percentage;
    });
  })

-- `is_owner`
abbrev pub is_owner : (owner sender : Text) → Bool
is_owner owner sender = text_eq owner sender

unfoldable pub register_emitter : (sender : Text) → ℕ → Bytes → Storage → Outcome Storage
register_emitter sender emitter_chain_id emitter_address s = do
  info ← unwrap s.state_info
  require (is_owner info.owner sender) (text "not the owner, permission denied")
  require (not (emitter_chain_id == 0) && not (emitter_chain_id == info.chain_id))
      (text "emitterChainId cannot equal 0 or this chainId")
  require (not (text_eq emitter_address (zeros 32))) (text "emitterAddress cannot equal 0")
  ok (record s {
    registered_emitters =
        λ c. if c == emitter_chain_id then some emitter_address else s.registered_emitters c;
  })

unfoldable pub update_relayer_fee : (sender : Text) → ℕ → ℕ → Storage → Outcome Storage
update_relayer_fee sender updated_percentage updated_precision s = do
  info ← unwrap s.state_info
  require (is_owner info.owner sender) (text "not the owner, permission denied")
  require (ltb 0 updated_precision) (text "precision must be > 0")
  require (ltb updated_percentage updated_precision)
      (text "relayer fee percentage must be < precision")
  ok (record s {
    state_info = some (record info {
      relayer_fee_percentage = updated_percentage;
      fee_precision = updated_precision;
    });
  })
