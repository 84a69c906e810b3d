-- ===== src/Relay/Policy/Verdicts.antt =====
-- What the rows of the two tables mean, row by row.
use nimble_xchain_contracts.Prelude.{ℕ, String, ◌≡◌}
use nimble_xchain_contracts.Prelude.{Option, List, [], ◌∷◌}
use nimble_xchain_contracts.Js.{Text, text, str, pos, ok, to_lower_case}
use nimble_xchain_contracts.Js.Decimal.{decimal}
use nimble_xchain_contracts.Js.Object.{Member}
use nimble_xchain_contracts.Sdk.{SdkChain, karura, acala, avax, bsc, IsDistinct}
use nimble_xchain_contracts.Relay.Thresholds.{Thresholds, chain_key}
use nimble_xchain_contracts.Relay.Policy.{should_relay}
use nimble_xchain_contracts.Relay.Policy.Amounts.{verdict}
use nimble_xchain_contracts.Relay.Policy.LetterCase.{query}

-- A row: the target chain, the token's address in lower case, and the least amount.
abbrev pub Row : Type 0
Row = SdkChain × String × ℕ

abbrev pub dev_table : List Row
dev_table =
    (karura, "0x337610d27c682e347c9cd60bd4b3b107c9d34ddd", 1_000_000)
    ∷ (karura, "0xd66c6b4f0be8ce5b39d52e0fd1344c389929b378", 2_000_000)
    ∷ (karura, "0x07865c6e87b9f70255377e024ace6630c1eaa37f", 50_000)
    ∷ (acala, "0x337610d27c682e347c9cd60bd4b3b107c9d34ddd", 1_000_000)
    ∷ (acala, "0xd66c6b4f0be8ce5b39d52e0fd1344c389929b378", 2_000_000)
    ∷ (acala, "0x07865c6e87b9f70255377e024ace6630c1eaa37f", 50_000)
    ∷ (avax, "0x337610d27c682e347c9cd60bd4b3b107c9d34ddd", 1_000_000)
    ∷ (avax, "0xd66c6b4f0be8ce5b39d52e0fd1344c389929b378", 2_000_000)
    ∷ (avax, "0x07865c6e87b9f70255377e024ace6630c1eaa37f", 50_000)
    ∷ (bsc, "0x8ac76a51cc950d9822d68b83fe1ad97b32cd580d", 1_000_000)
    ∷ (bsc, "0x337610d27c682e347c9cd60bd4b3b107c9d34ddd", 10_000_000)
    ∷ (bsc, "0xd66c6b4f0be8ce5b39d52e0fd1344c389929b378", 2_000_000)
    ∷ (bsc, "0x07865c6e87b9f70255377e024ace6630c1eaa37f", 50_000)
    ∷ []

abbrev pub prod_table : List Row
prod_table =
    (karura, "0xa0b86991c6218b36c1d19d4a2e9eb0ce3606eb48", 10_000_000)
    ∷ (karura, "0x6b175474e89094c44da98b954eedeac495271d0f", 1_000_000_000)
    ∷ (karura, "0x0000000000000000000100000000000000000001", 100_000_000)
    ∷ (acala, "0xa0b86991c6218b36c1d19d4a2e9eb0ce3606eb48", 10_000_000)
    ∷ (acala, "0x6b175474e89094c44da98b954eedeac495271d0f", 1_000_000_000)
    ∷ (acala, "0x0000000000000000000100000000000000000001", 100_000_000)
    ∷ []

-- Any spelling of the token with any amount gets the verdict of the row.
abbrev pub Decides : (SdkChain → ℕ) → Thresholds → Row → Type 0
Decides chain_id supported (c, token, least) =
    (prototype : Text → Option Member) (asset : Text) (n : ℕ)
    → to_lower_case asset ≡ text token
    → should_relay prototype supported (query (str (chain_key chain_id c)) asset (str (decimal n)))
      ≡ ok (verdict (pos n) least)

module _ (chain_id : SdkChain → ℕ) (distinct : IsDistinct chain_id) where
  abbrev key : SdkChain → Text
  key = chain_key chain_id
