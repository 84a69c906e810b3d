-- ===== src/Evm/Relay.antt =====
-- evm/ts/api/relayer: redeeming a VAA, again and again until it succeeds.
pub mod Retries
use nimble_xchain_contracts.Prelude.{ℕ, zero, suc, List, [], ◌∷◌, ◌≡◌, Option, none, some}
use nimble_xchain_contracts.Prelude.{Bool, true, false, if◌then◌else◌}
use nimble_xchain_contracts.Js.{Text, Error, Outcome, ok, throws}
use nimble_xchain_contracts.Exec.{Exec, pure, catch, continue, ◌>>=◌}
use nimble_xchain_contracts.Evm.Networks.{Wallet, Contract}

abbrev pub Bytes : Type 0
Bytes = List ℕ

pub record Receipt : Type 0 where
  pub transaction_hash : Text
  pub logs : List Text

-- `ethers.Overrides`; the source gives both fees or none.
pub record Fees : Type 0 where
  pub max_fee_per_gas : ℕ
  pub max_priority_fee_per_gas : ℕ

abbrev pub Override : Type 0
Override = Option Fees

pub data Call : Type 0 where
  decimals : (token : Text) → Call
  send_tokens :
      (contract : Contract) (token : Text) (amount target_chain batch : ℕ) (recipient : Text)
      → Override
      → Call
  base_fee : (provider : Text) → Call
  signed_vaa : (chain : ℕ) (emitter sequence : Text) → Call
  redeem : (address : Text) (signer : Wallet) → Bytes → Override → Call
  fee_precision : (contract : Contract) → Call
  fee_percentage : (contract : Contract) → Override → Call

abbrev pub World : Type 0
World = List Call

-- The answer to a call, after the calls of the world.
unfoldable pub ask {ℓ} : {A : Type ℓ} → (World → Call → Outcome A) → Call → Exec World A
ask answers call w = (answers w call, call ∷ w)

pub record RelayerInfo : Type 0 where
  pub target_nimble_xchain : Contract
  pub target_relayer_wallet : Wallet
  pub vaa_bytes : Bytes
  pub override : Override

abbrev pub Attempt : Type 0
Attempt = Exec World (Option Receipt)

abbrev pub is_some {ℓ} : {A : Type ℓ} → Option A → Bool
is_some none = false
is_some (some a) = true

-- What a try gives: the end, or one more try.
abbrev pub retried :
    (Option Receipt → Bool)
    → Exec World (Option Receipt)
    → Outcome (Option Receipt) × World
    → Outcome (Option Receipt) × World
retried until again (ok a, w) = if until a then (ok a, w) else again w
retried until again (throws e, w) = again w

abbrev pub last_try :
    Error
    → (Option Receipt → Bool)
    → Outcome (Option Receipt) × World
    → Outcome (Option Receipt) × World
last_try too_many until (ok a, w) = if until a then (ok a, w) else (throws too_many, w)
last_try too_many until (throws e, w) = (throws e, w)

-- `retryAsync` of ts-retry, as documented: it calls the function until its result passes the test,
-- `max_try` times at most; what the last try throws is thrown on, and a last result that does not
-- pass is an error.
pub record Retry : Type 0 where
  pub retry_async : ℕ → (Option Receipt → Bool) → Attempt → Attempt
  pub too_many_tries : Error
  pub one_try :
      (until : Option Receipt → Bool) (f : Attempt) (w : World)
      → retry_async 1 until f w ≡ last_try too_many_tries until (f w)
  pub more_tries :
      (n : ℕ) (until : Option Receipt → Bool) (f : Attempt) (w : World)
      → retry_async (suc (suc n)) until f w ≡ retried until (retry_async (suc n) until f) (f w)

abbrev pub redeem_call : RelayerInfo → Call
redeem_call info =
    redeem info.target_nimble_xchain.address info.target_relayer_wallet info.vaa_bytes info.override

module _ (r : Retry) (redeems : World → Call → Outcome Receipt) where
  -- One try: `.catch` gives null, and a null receipt is not returned.
  unfoldable pub try_redeem : RelayerInfo → Attempt
  unfolding ask
  try_redeem info =
      catch (do receipt ← ask redeems (redeem_call info); pure (some receipt)) (λ e. pure none)

  unfoldable pub nimble_relay : RelayerInfo → Attempt
  nimble_relay info = r.retry_async 20 is_some (try_redeem info)
