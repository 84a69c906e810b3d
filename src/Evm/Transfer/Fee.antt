-- ===== src/Evm/Transfer/Fee.antt =====
-- The fees that a call on Polygon and Avalanche sets.
use nimble_xchain_contracts.Prelude.{ℕ, ◌*◌, ◌^◌, ◌≤◌, ◌<◌, ◌≡◌, ◌↔◌, arith, some}
use nimble_xchain_contracts.Js.{ok}
use nimble_xchain_contracts.Evm.Relay.{Fees}
use nimble_xchain_contracts.Evm.Transfer.{fees_of}

-- An override has twice the block's base fee as its maximum, below 2^53, and the maximum reaches
-- the priority fee of 31 gwei, which a chain requires, exactly if the base fee is 15.5 gwei or more.
fees_of_bounds :
    (base : ℕ) (fees : Fees)
    → fees_of base ≡ ok (some fees)
    → (fees.max_fee_per_gas ≡ base * 2)
      × (fees.max_fee_per_gas < 2 ^ 53)
      × ((fees.max_priority_fee_per_gas ≤ fees.max_fee_per_gas) ↔ (15_500_000_000 ≤ base))
unfolding fees_of
fees_of_bounds base fees h = (ground arith, ground arith, (λ p. ground arith, λ p. ground arith))
