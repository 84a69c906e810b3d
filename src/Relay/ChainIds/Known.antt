-- ===== src/Relay/ChainIds/Known.antt =====
-- `numberToChainID` under the numbers that Wormhole documents.
use nimble_xchain_contracts.Prelude.{
  ℕ, ◌≡◌, ◌≢◌, refl, sym, ◌∙◌, none, some, arith, List, [], ◌∷◌, All,
}
use nimble_xchain_contracts.Prelude.{Option-cases, Bool-cases, ◌==◌, ==_iff, inl, inr, ◌⊎◌}
use nimble_xchain_contracts.Sdk.{
  SdkChain, unset, solana, eth, terra, bsc, polygon, avax, oasis, algorand, aurora, fantom, karura,
  acala, klaytn, celo, near, moonbeam, neon, terra2, injective, osmosis, sui, aptos, arbitrum,
  optimism, gnosis, pythnet, xpla, btc, wormchain, documented, IsDistinct,
}
use nimble_xchain_contracts.Relay.ChainIds.{chain_id_map, map_get, number_to_chain_id}

map_get-documented : (c : SdkChain) → map_get (documented c) chain_id_map ≡ some c
unfolding map_get chain_id_map
map_get-documented unset = refl
map_get-documented solana = refl
map_get-documented eth = refl
map_get-documented terra = refl
map_get-documented bsc = refl
map_get-documented polygon = refl
map_get-documented avax = refl
map_get-documented oasis = refl
map_get-documented algorand = refl
map_get-documented aurora = refl
map_get-documented fantom = refl
map_get-documented karura = refl
map_get-documented acala = refl
map_get-documented klaytn = refl
map_get-documented celo = refl
map_get-documented near = refl
map_get-documented moonbeam = refl
map_get-documented neon = refl
map_get-documented terra2 = refl
map_get-documented injective = refl
map_get-documented osmosis = refl
map_get-documented sui = refl
map_get-documented aptos = refl
map_get-documented arbitrum = refl
map_get-documented optimism = refl
map_get-documented gnosis = refl
map_get-documented pythnet = refl
map_get-documented xpla = refl
map_get-documented btc = refl
map_get-documented wormchain = refl

pub documented-IsDistinct : IsDistinct documented
documented-IsDistinct = record {
  same = λ a b h. cc (map_get-documented a, map_get-documented b, h);
}

map_get_sound :
    (n : ℕ) (m : List (ℕ × SdkChain)) (c : SdkChain)
    → All (λ e. documented e.1 ≡ e.0) m
    → map_get n m ≡ some c
    → documented c ≡ n
unfolding map_get
map_get_sound n [] c agree h = ground arith
map_get_sound n ((k, d) ∷ m) c (here, agree) h = elim (Bool-cases (k == n)) [
  | inl same ↦
      let is_d : some d ≡ some c = rw (same, map_get) at h in cc (is_d, here, (==_iff k n).0 same)
  | inr other ↦ map_get_sound n m c agree (rw (other, map_get) at h)
]

chain_id_map-agrees : All (λ e. documented e.1 ≡ e.0) chain_id_map
unfolding chain_id_map
chain_id_map-agrees = omega arith

map_get-unknown : (n : ℕ) → ((c : SdkChain) → documented c ≢ n) → map_get n chain_id_map ≡ none
map_get-unknown n unknown = elim (Option-cases (map_get n chain_id_map)) [
  | inl absent ↦ absent
  | inr (c, found) ↦ absurd (unknown c (map_get_sound n chain_id_map c chain_id_map-agrees found))
]

missing_ne : {n : ℕ} → map_get n chain_id_map ≡ none → (c : SdkChain) → documented c ≢ n
missing_ne absent c e = cc (absent, map_get-documented c, e)

module _ (chain_id : SdkChain → ℕ) (agrees : (c : SdkChain) → chain_id c ≡ documented c) where
  number_to_chain_id-known : (c : SdkChain) → number_to_chain_id chain_id (chain_id c) ≡ chain_id c
  unfolding number_to_chain_id
  number_to_chain_id-known c = rw (agrees c) (rw (map_get-documented c) (agrees c))

  number_to_chain_id-unknown :
      (n : ℕ) → ((c : SdkChain) → chain_id c ≢ n) → number_to_chain_id chain_id n ≡ chain_id unset
  unfolding number_to_chain_id
  number_to_chain_id-unknown n unknown = rw (map_get-unknown n (λ c e. unknown c (agrees c ∙ e)))

-- Where the SDK has its documented numbers, `numberToChainID` leaves the number of every chain
-- that the SDK names as it is, and takes every other number to CHAIN_ID_UNSET.
number_to_chain_id_lem :
    (chain_id : SdkChain → ℕ) (agrees : (c : SdkChain) → chain_id c ≡ documented c) (n : ℕ)
    → ((c : SdkChain) × (chain_id c ≡ n) × (number_to_chain_id chain_id n ≡ n))
      ⊎ (((c : SdkChain) → chain_id c ≢ n) × (number_to_chain_id chain_id n ≡ chain_id unset))
number_to_chain_id_lem chain_id agrees n = elim (Option-cases (map_get n chain_id_map)) [
  | inr (c, found) ↦
      let same = agrees c ∙ map_get_sound n chain_id_map c chain_id_map-agrees found in
      inl (c, same, rw same at (number_to_chain_id-known chain_id agrees c))
  | inl absent ↦
      let none_of =
        λ (c : SdkChain) (e : chain_id c ≡ n). missing_ne absent c (sym (agrees c) ∙ e) in
      inr (none_of, number_to_chain_id-unknown chain_id agrees n none_of)
]
