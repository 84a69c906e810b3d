-- ===== src/Xchain.antt =====
-- evm/contracts/deltafi-xchain: the contract nimbleXChain that the EVM clients call. Addresses are 20
-- bytes, bytes32 values are 32, and a revert is a thrown error.
pub mod Governance
pub mod Messages
pub mod Fees
pub mod Transfers
pub mod Tests
use nimble_xchain_contracts.Prelude.{
  ℕ, zero, suc, ◌+◌, ◌==◌, List, [], ◌∷◌, Bool, true, false, ◌&&◌, not, ◌≡◌, refl, arith,
  if◌then◌else◌,
}
use nimble_xchain_contracts.Js.{Text, text, text_eq, Outcome, ok, throws, error}

abbrev pub Bytes : Type 0
Bytes = List ℕ

abbrev pub zeros : ℕ → Bytes
zeros zero = []
zeros (suc n) = 0 ∷ zeros n

abbrev pub all_zero : Bytes → Bool
all_zero [] = true
all_zero (b ∷ bs) = b == 0 && all_zero bs

-- `require`
abbrev pub require : Bool → Text → Outcome (Unit {0})
require true message = ok tt
require false message = throws (error message)

pub required : (b : Bool) (message : Text) {u : Unit {0}} → require b message ≡ ok u → b ≡ true
required true message h = refl
required false message h = ground arith

-- `nimbleXChainStorage.State`; a mapping gives zero where nothing was set.
pub record State : Type 0 where
  pub owner : Bytes
  pub wormhole : Bytes
  pub token_bridge : Bytes
  pub chain_id : ℕ
  pub wormhole_finality : ℕ
  pub fee_precision : ℕ
  pub relayer_fee_percentage : ℕ
  pub registered_emitters : ℕ → Bytes

-- `setEmitter`
unfoldable pub set_emitter : ℕ → Bytes → State → State
set_emitter chain_id emitter st = record st {
  registered_emitters = λ c. if c == chain_id then emitter else st.registered_emitters c;
}

-- What the deployer passes to the constructor.
pub record Deployment : Type 0 where
  pub wormhole : Bytes
  pub token_bridge : Bytes
  pub chain_id : ℕ
  pub wormhole_finality : ℕ
  pub fee_precision : ℕ
  pub relayer_fee_percentage : ℕ

abbrev pub deployed : Bytes → Deployment → State
deployed sender d = record {
  owner = sender;
  wormhole = d.wormhole;
  token_bridge = d.token_bridge;
  chain_id = d.chain_id;
  wormhole_finality = d.wormhole_finality;
  fee_precision = d.fee_precision;
  relayer_fee_percentage = d.relayer_fee_percentage;
  registered_emitters = λ c. zeros 32;
}
