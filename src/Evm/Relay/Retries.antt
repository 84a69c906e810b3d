-- ===== src/Evm/Relay/Retries.antt =====
-- How often a redemption is tried.
use nimble_xchain_contracts.Prelude.{ℕ, zero, suc, ◌<◌, ◌∷◌, ◌≡◌, refl, ◌∙◌, ap, arith}
use nimble_xchain_contracts.Prelude.{Option, none, some, ◌⊎◌, inl, inr}
use nimble_xchain_contracts.Js.{Error, Outcome, ok, throws}
use nimble_xchain_contracts.Evm.Relay.{
  Receipt, Call, World, RelayerInfo, Attempt, Retry, retried, last_try, redeem_call, try_redeem,
  nimble_relay, is_some,
}

module _ (redeems : World → Call → Outcome Receipt) (call : Call) where
  -- So many tries in a row failed, from one world to another.
  pub data Failed : ℕ → World → World → Type 0 where
    no_try : {w : World} → Failed zero w w
    failed :
        {n : ℕ} {w w' : World} {e : Error}
        → redeems w call ≡ throws e
        → Failed n (call ∷ w) w'
        → Failed (suc n) w w'

-- The first success after fewer than `most` failures, or an error after `most` failures.
abbrev pub Retried :
    (World → Call → Outcome Receipt) → Call → ℕ → World → Outcome (Option Receipt) × World → Type 0
Retried redeems call most w result =
    ((tries : ℕ) × (w' : World) × (receipt : Receipt) × (tries < most)
      × Failed redeems call tries w w'
      × (redeems w' call ≡ ok receipt)
      × (result ≡ (ok (some receipt), call ∷ w')))
    ⊎ ((w' : World) × (e : Error) × Failed redeems call most w w' × (result ≡ (throws e, w')))

module _ (r : Retry) (redeems : World → Call → Outcome Receipt) (info : RelayerInfo) where
  abbrev call : Call
  call = redeem_call info

  try_ok :
      (w : World) (receipt : Receipt)
      → redeems w call ≡ ok receipt
      → try_redeem r redeems info w ≡ (ok (some receipt), call ∷ w)
  unfolding try_redeem
  try_ok w receipt h = rw h

  try_failed :
      (w : World) (e : Error)
      → redeems w call ≡ throws e
      → try_redeem r redeems info w ≡ (ok none, call ∷ w)
  unfolding try_redeem
  try_failed w e h = rw h

  later :
      {most : ℕ} {w : World} {e : Error} {result : Outcome (Option Receipt) × World}
      → redeems w call ≡ throws e
      → Retried redeems call most (call ∷ w) result
      → Retried redeems call (suc most) w result
  later h (inl (tries, w', receipt, few, before, success, is)) =
      inl (suc tries, w', receipt, omega arith, failed h before, success, is)
  later h (inr (w', e', before, is)) = inr (w', e', failed h before, is)

  abbrev tries : ℕ → Attempt
  tries n = r.retry_async n is_some (try_redeem r redeems info)

  retry_async-Retried : (n : ℕ) (w : World) → Retried redeems call (suc n) w (tries (suc n) w)
  retry_async-Retried zero w = answered (redeems w call) refl
    where
      answered : (o : Outcome Receipt) → redeems w call ≡ o → Retried redeems call 1 w (tries 1 w)
      answered (ok receipt) h = inl (
        0,
        w,
        receipt,
        omega arith,
        no_try,
        h,
        r.one_try is_some _ w ∙ ap (last_try r.too_many_tries is_some) (try_ok w receipt h),
      )
      answered (throws e) h = inr (
        call ∷ w,
        r.too_many_tries,
        failed h no_try,
        r.one_try is_some _ w ∙ ap (last_try r.too_many_tries is_some) (try_failed w e h),
      )
  retry_async-Retried (suc n) w = answered (redeems w call) refl (retry_async-Retried n (call ∷ w))
    where
      answered :
          (o : Outcome Receipt)
          → redeems w call ≡ o
          → Retried redeems call (suc n) (call ∷ w) (tries (suc n) (call ∷ w))
          → Retried redeems call (suc (suc n)) w (tries (suc (suc n)) w)
      answered (ok receipt) h ih = inl (
        0,
        w,
        receipt,
        omega arith,
        no_try,
        h,
        r.more_tries n is_some _ w ∙ ap (retried is_some (tries (suc n))) (try_ok w receipt h),
      )
      answered (throws e) h ih =
          let is : tries (suc (suc n)) w ≡ tries (suc n) (call ∷ w) =
            r.more_tries n is_some _ w ∙ ap (retried is_some (tries (suc n))) (try_failed w e h) in
          rw is (later h ih)

  -- A redemption is submitted at most 20 times, always the same transaction: the client stops at the
  -- first success with its receipt, or throws after 20 failures; it never returns null.
  pub nimble_relay-Retried : (w : World) → Retried redeems call 20 w (nimble_relay r redeems info w)
  unfolding nimble_relay
  nimble_relay-Retried w = retry_async-Retried 19 w
