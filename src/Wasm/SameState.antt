-- ===== src/Wasm/SameState.antt =====
-- The owner's functions do on Injective what they do on the EVM chains.
use nimble_xchain_contracts.Prelude.{
  ℕ, zero, suc, ◌==◌, ◌≡◌, refl, ap, ltb, List, [], ◌∷◌, length, Option, none, some, Bool, true,
  false, ◌&&◌, not, arith, All, if◌then◌else◌,
}
use mathlib.Core.Path.{fun_ext}
use nimble_xchain_contracts.Js.{Text, text_eq, Outcome, ok, throws}
use nimble_xchain_contracts.Xchain.{Bytes, zeros, all_zero, require, State, set_emitter}
use nimble_xchain_contracts.Xchain.Governance as Evm
use nimble_xchain_contracts.Xchain.Governance.{◌>>◌}
use nimble_xchain_contracts.Wasm.{StateInfo, Storage, register_emitter, update_relayer_fee}

-- A call of one of the owner's functions.
pub data Call : Type 0 where
  registers : (sender : Text) (chain : ℕ) (emitter : Bytes) → Call
  updates : (sender : Text) (percentage precision : ℕ) → Call

-- `[u8; 32]`
abbrev pub IsSized : Call → Type 0
IsSized (registers sender chain emitter) = length emitter ≡ 32
IsSized (updates sender percentage precision) = Unit

unfoldable pub on_injective : Call → Storage → Outcome Storage
on_injective (registers sender chain emitter) s = register_emitter sender chain emitter s
on_injective (updates sender percentage precision) s =
    update_relayer_fee sender percentage precision s

unfoldable pub on_evm : Call → State → Outcome State
on_evm (registers sender chain emitter) s = Evm.register_emitter sender chain emitter s
on_evm (updates sender percentage precision) s =
    Evm.update_relayer_fee sender percentage precision s

abbrev pub succeeded : {A : Type 0} → Outcome A → Bool
succeeded (ok a) = true
succeeded (throws e) = false

-- A call that fails leaves the state.
abbrev pub after : {A : Type 0} → A → Outcome A → A
after a (ok b) = b
after a (throws e) = a

-- Which calls succeeded, and the last state.
unfoldable pub runs : {A : Type 0} → (Call → A → Outcome A) → A → List Call → List Bool × A
runs call a [] = ([], a)
runs call a (c ∷ cs) =
    let rest = runs call (after a (call c a)) cs in (succeeded (call c a) ∷ rest.0, rest.1)

abbrev pub or_zeros : Option Bytes → Bytes
or_zeros none = zeros 32
or_zeros (some emitter) = emitter

-- The storage once the contract is instantiated, and the state that the EVM contract has for it; it
-- keeps the addresses of Wormhole in its own chain's form.
abbrev pub stored : StateInfo → (ℕ → Option Bytes) → Storage
stored info emitters = record { state_info = some info; registered_emitters = emitters }

abbrev pub seen : (wormhole token_bridge : Bytes) → StateInfo → (ℕ → Option Bytes) → State
seen wormhole token_bridge info emitters = record {
  owner = info.owner;
  wormhole = wormhole;
  token_bridge = token_bridge;
  chain_id = info.chain_id;
  wormhole_finality = info.wormhole_finality;
  fee_precision = info.fee_precision;
  relayer_fee_percentage = info.relayer_fee_percentage;
  registered_emitters = λ c. or_zeros (emitters c);
}

-- The storage has what the EVM contract's state has.
pub record Same (wormhole token_bridge : Bytes) (s : Storage) (t : State) : Type 0 where
  pub info : StateInfo
  pub emitters : ℕ → Option Bytes
  pub storage : s ≡ stored info emitters
  pub state : t ≡ seen wormhole token_bridge info emitters

zeros_eq : (n : ℕ) (bs : Bytes) → length bs ≡ n → text_eq bs (zeros n) ≡ all_zero bs
unfolding text_eq
zeros_eq zero [] h = refl
zeros_eq (suc n) [] h = absurd (omega arith)
zeros_eq zero (b ∷ bs) h = absurd (omega arith)
zeros_eq (suc n) (b ∷ bs) h = rw (zeros_eq n bs (omega arith)) refl

-- Three tests in a row, and then `a`.
abbrev tested : {A : Type 0} → (Bool × Text) → (Bool × Text) → (Bool × Text) → A → Outcome A
tested (b1, m1) (b2, m2) (b3, m3) a = do require b1 m1; require b2 m2; require b3 m3; ok a

module _ (wormhole token_bridge : Bytes) where
  -- Both succeed with the same state, or both fail.
  record Agree (s : Storage) (t : State) (a : Outcome Storage) (b : Outcome State) : Type 0 where
    verdict : succeeded a ≡ succeeded b
    left : Same wormhole token_bridge (after s a) (after t b)

  tests-Agree :
      (b1 b2 b3 : Bool) (m1 m2 m3 n1 n2 n3 : Text) (s s' : Storage) (t t' : State)
      → Same wormhole token_bridge s t
      → Same wormhole token_bridge s' t'
      → Agree s t (tested (b1, m1) (b2, m2) (b3, m3) s') (tested (b1, n1) (b2, n2) (b3, n3) t')
  tests-Agree true true true m1 m2 m3 n1 n2 n3 s s' t t' before later = record {
    verdict = refl;
    left = later;
  }
  tests-Agree true true false m1 m2 m3 n1 n2 n3 s s' t t' before later = record {
    verdict = refl;
    left = before;
  }
  tests-Agree true false b3 m1 m2 m3 n1 n2 n3 s s' t t' before later = record {
    verdict = refl;
    left = before;
  }
  tests-Agree false b2 b3 m1 m2 m3 n1 n2 n3 s s' t t' before later = record {
    verdict = refl;
    left = before;
  }

  module _ (info : StateInfo) (emitters : ℕ → Option Bytes) where
    stored-Same :
        Same wormhole token_bridge (stored info emitters) (seen wormhole token_bridge info emitters)
    stored-Same = record { info = info; emitters = emitters; storage = refl; state = refl }

    register_emitter-Agree :
        (sender : Text) (chain : ℕ) (emitter : Bytes)
        → length emitter ≡ 32
        → Agree
            (stored info emitters)
            (seen wormhole token_bridge info emitters)
            (register_emitter sender chain emitter (stored info emitters))
            (Evm.register_emitter sender chain emitter (seen wormhole token_bridge info emitters))
    unfolding register_emitter Evm.register_emitter set_emitter
    register_emitter-Agree sender chain emitter long = rw (zeros_eq 32 emitter long) (
        tests-Agree (text_eq info.owner sender) (not (chain == 0) && not (chain == info.chain_id))
          (not (all_zero emitter)) _ _ _ _ _ _ (stored info emitters)
          (stored info (λ c. if c == chain then some emitter else emitters c))
          (seen wormhole token_bridge info emitters)
          (set_emitter chain emitter (seen wormhole token_bridge info emitters)) stored-Same
          (record {
            info = info;
            emitters = λ c. if c == chain then some emitter else emitters c;
            storage = refl;
            state =
                ap
                  (λ f. record (seen wormhole token_bridge info emitters) {
                    registered_emitters = f;
                  })
                  (fun_ext (λ c. ground arith));
          }))

    update_relayer_fee-Agree :
        (sender : Text) (percentage precision : ℕ)
        → Agree
            (stored info emitters)
            (seen wormhole token_bridge info emitters)
            (update_relayer_fee sender percentage precision (stored info emitters))
            (Evm.update_relayer_fee sender percentage precision
              (seen wormhole token_bridge info emitters))
    unfolding update_relayer_fee Evm.update_relayer_fee
    update_relayer_fee-Agree sender percentage precision =
        tests-Agree (text_eq info.owner sender) (ltb 0 precision) (ltb percentage precision) _ _ _ _
          _ _ (stored info emitters)
          (stored (record info { relayer_fee_percentage = percentage; fee_precision = precision })
            emitters)
          (seen wormhole token_bridge info emitters) _ stored-Same
          (record {
            info = record info { relayer_fee_percentage = percentage; fee_precision = precision };
            emitters = emitters;
            storage = refl;
            state = refl;
          })

  call-Agree :
      (c : Call) (s : Storage) (t : State)
      → IsSized c
      → Same wormhole token_bridge s t
      → Agree s t (on_injective c s) (on_evm c t)
  unfolding on_injective on_evm
  call-Agree (registers sender chain emitter) s t long v =
      rw (v.storage, v.state) (register_emitter-Agree v.info v.emitters sender chain emitter long)
  call-Agree (updates sender percentage precision) s t long v =
      rw (v.storage, v.state)
        (update_relayer_fee-Agree v.info v.emitters sender percentage precision)

  -- From the same state on, any calls of the owner's functions, by anyone, succeed and fail on
  -- Injective as they do on an EVM chain, and leave the same state, where the emitters have 32
  -- bytes.
  pub runs-Same :
      (cs : List Call) (s : Storage) (t : State)
      → All IsSized cs
      → Same wormhole token_bridge s t
      → ((runs on_injective s cs).0 ≡ (runs on_evm t cs).0)
        × Same wormhole token_bridge ((runs on_injective s cs).1) ((runs on_evm t cs).1)
  unfolding runs
  runs-Same [] s t sized v = (refl, v)
  runs-Same (c ∷ cs) s t (one, more) v =
      let a = call-Agree c s t one v in
      let (verdicts, last) =
        runs-Same cs (after s (on_injective c s)) (after t (on_evm c t)) more a.left in
      (rw (a.verdict, verdicts) refl, last)
