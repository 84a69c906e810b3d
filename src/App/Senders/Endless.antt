-- ===== src/App/Senders/Endless.antt =====
-- The endless loop of sendSolanaNative.ts.
use nimble_xchain_contracts.Prelude.{ℕ, zero, suc, ◌+◌, ◌*◌, ◌≤◌, ◌≡◌, refl, arith, length}
use nimble_xchain_contracts.Js.{ok}
use nimble_xchain_contracts.App.Senders.{
  World, Services, Sender, build, send_unconfirmed, loop_round, loop_rounds, start, ask,
}

module _ (s : Services) (x : Sender) where
  -- A round never fails, and makes three calls at most: the transfer, its sending and an airdrop.
  loop_round_returned :
      (w : World)
      → ((loop_round s x w).0 ≡ ok tt)
        × (length w ≤ length (loop_round s x w).1)
        × (length (loop_round s x w).1 ≤ length w + 3)
  unfolding loop_round send_unconfirmed build start ask
  loop_round_returned w = ground arith

  -- Whatever the chain answers, every round of the loop is reached: no failure ends the script. So
  -- many rounds make three times as many calls at most.
  loop_rounds_returned :
      (n : ℕ) (w : World)
      → ((loop_rounds s x n w).0 ≡ ok tt) × (length (loop_rounds s x n w).1 ≤ length w + 3 * n)
  unfolding loop_rounds
  loop_rounds_returned zero w = (refl, omega arith)
  loop_rounds_returned (suc n) w =
      ground (arith, loop_round_returned w, loop_rounds_returned n (loop_round s x w).1)
