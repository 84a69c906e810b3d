-- ===== src/Xchain/Governance/Reachable.antt =====
-- What holds of the contract's state from its deployment on.
use nimble_xchain_contracts.Prelude.{ℕ, ◌<◌, ◌≡◌, sym, arith, false, ◌⊎◌, inl, inr}
use nimble_xchain_contracts.Js.{text_eq_sound, ok}
use nimble_xchain_contracts.Xchain.{Bytes, zeros, all_zero, State, set_emitter, Deployment}
use nimble_xchain_contracts.Xchain.Governance.{construct, register_emitter, update_relayer_fee}

-- A transaction that succeeds changes the state in one of these ways; anyone may try.
pub data Step : State → State → Type 0 where
  registers :
      {s t : State} (sender : Bytes) (chain : ℕ) (emitter : Bytes)
      → register_emitter sender chain emitter s ≡ ok t
      → Step s t
  updates :
      {s t : State} (sender : Bytes) (percentage precision : ℕ)
      → update_relayer_fee sender percentage precision s ≡ ok t
      → Step s t

-- The states from a deployment on.
pub data Reach (sender : Bytes) (d : Deployment) : State → Type 0 where
  starts : {s : State} → construct sender d ≡ ok s → Reach sender d s
  steps : {s t : State} → Reach sender d s → Step s t → Reach sender d t

-- The state is well formed: the bridge's addresses, the chain and the fee's precision are not zero,
-- nothing is registered for the contract's own chain nor for chain 0, and what the deployer set once
-- and for all is as it was.
pub record IsSound (sender : Bytes) (d : Deployment) (s : State) : Type 0 where
  pub owner : s.owner ≡ sender
  pub chain : s.chain_id ≡ d.chain_id
  pub bridge : s.token_bridge ≡ d.token_bridge
  pub bridge_set : all_zero s.token_bridge ≡ false
  pub chain_set : 0 < s.chain_id
  pub precision_set : 0 < s.fee_precision
  pub own_chain : s.registered_emitters s.chain_id ≡ zeros 32
  pub no_chain : s.registered_emitters 0 ≡ zeros 32

construct-IsSound :
    (sender : Bytes) (d : Deployment) (s : State) → construct sender d ≡ ok s → IsSound sender d s
unfolding construct
construct-IsSound sender d s h = ground arith

register_emitter-IsSound :
    (owner caller : Bytes) (d : Deployment) (chain : ℕ) (emitter : Bytes) (s t : State)
    → register_emitter caller chain emitter s ≡ ok t
    → IsSound owner d s
    → IsSound owner d t
unfolding register_emitter set_emitter
register_emitter-IsSound owner caller d chain emitter s t h v = ground arith

update_relayer_fee-IsSound :
    (owner caller : Bytes) (d : Deployment) (percentage precision : ℕ) (s t : State)
    → update_relayer_fee caller percentage precision s ≡ ok t
    → IsSound owner d s
    → IsSound owner d t
unfolding update_relayer_fee
update_relayer_fee-IsSound owner caller d percentage precision s t h v = ground arith

Step-IsSound :
    {s t : State} (owner : Bytes) (d : Deployment)
    → Step s t
    → IsSound owner d s
    → IsSound owner d t
Step-IsSound {s} {t} owner d (registers sender chain emitter h) v =
    register_emitter-IsSound owner sender d chain emitter s t h v
Step-IsSound {s} {t} owner d (updates sender percentage precision h) v =
    update_relayer_fee-IsSound owner sender d percentage precision s t h v

-- Every state that a deployed contract reaches is sound, whoever calls it.
pub Reach-IsSound :
    (sender : Bytes) (d : Deployment) {s : State} → Reach sender d s → IsSound sender d s
Reach-IsSound sender d {s} (starts h) = construct-IsSound sender d s h
Reach-IsSound sender d (steps r st) = Step-IsSound sender d st (Reach-IsSound sender d r)

-- What a change of the state keeps: it is the owner's, a registered emitter stays registered, perhaps
-- with another address, and a new fee is less than the whole.
pub record Changed (sender : Bytes) (s t : State) : Type 0 where
  pub by_owner : sender ≡ s.owner
  pub keeps_registered :
      (c : ℕ)
      → all_zero (s.registered_emitters c) ≡ false
      → all_zero (t.registered_emitters c) ≡ false
  pub fee_below :
      ((t.relayer_fee_percentage ≡ s.relayer_fee_percentage) × (t.fee_precision ≡ s.fee_precision))
      ⊎ (t.relayer_fee_percentage < t.fee_precision)

abbrev pub sender_of : {s t : State} → Step s t → Bytes
sender_of (registers sender chain emitter h) = sender
sender_of (updates sender percentage precision h) = sender

register_emitter-Changed :
    (sender : Bytes) (chain : ℕ) (emitter : Bytes) (s t : State)
    → register_emitter sender chain emitter s ≡ ok t
    → Changed sender s t
unfolding register_emitter set_emitter
register_emitter-Changed sender chain emitter s t h = record {
  by_owner = sym (text_eq_sound s.owner sender (ground arith));
  keeps_registered = λ c was. ground arith;
  fee_below = inl (ground arith, ground arith);
}

update_relayer_fee-Changed :
    (sender : Bytes) (percentage precision : ℕ) (s t : State)
    → update_relayer_fee sender percentage precision s ≡ ok t
    → Changed sender s t
unfolding update_relayer_fee
update_relayer_fee-Changed sender percentage precision s t h = record {
  by_owner = sym (text_eq_sound s.owner sender (ground arith));
  keeps_registered = λ c was. ground arith;
  fee_below = inr (ground arith);
}

-- Only the owner changes the state, no registration is taken back, and the fee percentage is below the
-- precision after each change of it.
pub Step-Changed : {s t : State} (st : Step s t) → Changed (sender_of st) s t
Step-Changed {s} {t} (registers sender chain emitter h) =
    register_emitter-Changed sender chain emitter s t h
Step-Changed {s} {t} (updates sender percentage precision h) =
    update_relayer_fee-Changed sender percentage precision s t h
