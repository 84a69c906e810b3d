-- ===== src/Relay/ChainIds.antt =====
-- `numberToChainID` of lib/relayer-engine/src/utils/utils.ts.
pub mod Known
use nimble_xchain_contracts.Prelude.{ℕ, List, [], ◌∷◌, if◌then◌else◌, ◌==◌, Option, none, some}
use nimble_xchain_contracts.Sdk.{
  SdkChain, unset, solana, eth, terra, bsc, polygon, avax, oasis, algorand, aurora, fantom, karura,
  acala, klaytn, celo, near, moonbeam, neon, terra2, injective, osmosis, sui, aptos, arbitrum,
  optimism, gnosis, pythnet, xpla, btc, wormchain,
}

unfoldable pub chain_id_map : List (ℕ × SdkChain)
chain_id_map =
    (0, unset)
    ∷ (1, solana)
    ∷ (2, eth)
    ∷ (3, terra)
    ∷ (4, bsc)
    ∷ (5, polygon)
    ∷ (6, avax)
    ∷ (7, oasis)
    ∷ (8, algorand)
    ∷ (9, aurora)
    ∷ (10, fantom)
    ∷ (11, karura)
    ∷ (12, acala)
    ∷ (13, klaytn)
    ∷ (14, celo)
    ∷ (15, near)
    ∷ (16, moonbeam)
    ∷ (17, neon)
    ∷ (18, terra2)
    ∷ (19, injective)
    ∷ (20, osmosis)
    ∷ (21, sui)
    ∷ (22, aptos)
    ∷ (23, arbitrum)
    ∷ (24, optimism)
    ∷ (25, gnosis)
    ∷ (26, pythnet)
    ∷ (28, xpla)
    ∷ (29, btc)
    ∷ (3104, wormchain)
    ∷ []

-- `get` of a `Map` with number keys.
unfoldable pub map_get : ℕ → List (ℕ × SdkChain) → Option SdkChain
map_get n [] = none
map_get n ((k, c) ∷ m) = let rest = map_get n m in if k == n then some c else rest

abbrev or_unset : Option SdkChain → SdkChain
or_unset none = unset
or_unset (some c) = c

unfoldable pub number_to_chain_id : (SdkChain → ℕ) → ℕ → ℕ
unfolding map_get chain_id_map
number_to_chain_id chain_id n = chain_id (or_unset (map_get n chain_id_map))
