-- ===== src/Evm/Supported.antt =====
-- The client's chains and the administrator's are the same.
use nimble_xchain_contracts.Prelude.{
  ℕ, ◌≡◌, refl, sym, ap, ◌∙◌, ◌↔◌, Bool, true, false, arith, List, [], ◌∷◌, map, Option, some, none,
}
use nimble_xchain_contracts.Js.{Text, text_eq, ok}
use nimble_xchain_contracts.Js.Object.{own, object_of, define_all, define}
use nimble_xchain_contracts.Sdk
use nimble_xchain_contracts.Sdk.{SdkChain}
use nimble_xchain_contracts.Constants.{
  Network, arbitrum, avalanche, binance, ethereum, injective, optimism, polygon, ConfigJson,
  MainConfig,
}
use nimble_xchain_contracts.Evm.Networks.{Info, get_info, info_named, info_of, or_type_error}
use nimble_xchain_contracts.Cli.{name_of, check_chains, includes, supported_chains}

module _ {ℓ} {A : Type ℓ} (f : Network → A) where
  -- A table by name, and the entry of a name.
  abbrev entries : List Network → List (Text × A)
  entries = map (λ n. (name_of n, f n))

  found :
      (name : Text) (ns : List Network)
      → includes name ns ≡ true
      → (a : A) × (own name (entries ns) ≡ some a)
  unfolding includes own
  found name [] h = ground arith
  found name (n ∷ ns) h = branch (text_eq (name_of n) name) refl (found name ns)
    where
      branch :
          (b : Bool)
          → text_eq (name_of n) name ≡ b
          → (includes name ns ≡ true → (a : A) × (own name (entries ns) ≡ some a))
          → (a : A) × (own name (entries (n ∷ ns)) ≡ some a)
      branch true is rest = (f n, rw is refl)
      branch false is rest = let (a, at) = rest (ground (arith, is)) in (a, rw is at)

  included :
      (name : Text) (ns : List Network) (a : A)
      → own name (entries ns) ≡ some a
      → includes name ns ≡ true
  unfolding includes own
  included name [] a h = ground arith
  included name (n ∷ ns) a h = ground (arith, included name ns a)

module _ (config : ConfigJson) (main_config : MainConfig) (chain_id : SdkChain → ℕ)
    (contract_address : ℕ → Text) where
  entry : Network → Info
  entry arbitrum = info_of config main_config chain_id contract_address arbitrum Sdk.arbitrum
  entry avalanche = info_of config main_config chain_id contract_address avalanche Sdk.avax
  entry binance = info_of config main_config chain_id contract_address binance Sdk.bsc
  entry ethereum = info_of config main_config chain_id contract_address ethereum Sdk.eth
  entry injective = info_of config main_config chain_id contract_address injective Sdk.injective
  entry optimism = info_of config main_config chain_id contract_address optimism Sdk.optimism
  entry polygon = info_of config main_config chain_id contract_address polygon Sdk.polygon

  get_info-entries :
      get_info config main_config chain_id contract_address ≡ entries entry supported_chains
  unfolding entry get_info object_of define_all define text_eq
  get_info-entries = refl

  -- The names of chains that the administrator's commands support are exactly those that the client
  -- has an entry for.
  check_chains_iff :
      (name : Text)
      → check_chains name ≡ true ↔ (
          (i : Info) × (info_named (get_info config main_config chain_id contract_address) name
            ≡ ok i))
  unfolding check_chains info_named
  check_chains_iff name = (supported, known)
    where
      supported :
          check_chains name ≡ true
          → (i : Info) × (info_named (get_info config main_config chain_id contract_address) name
              ≡ ok i)
      supported h =
          let (i, at) = found entry name supported_chains h in
          (i, ap (λ t. or_type_error (own name t)) get_info-entries ∙ ap or_type_error at)

      owned :
          (o : Option Info)
          → own name (entries entry supported_chains) ≡ o
          → (i : Info) → or_type_error o ≡ ok i
          → check_chains name ≡ true
      owned none at i h = ground arith
      owned (some j) at i h = included entry name supported_chains j at

      known :
          ((i : Info) × (info_named (get_info config main_config chain_id contract_address) name
              ≡ ok i))
          → check_chains name ≡ true
      known (i, h) =
          owned _ refl i (ap (λ t. or_type_error (own name t)) (sym get_info-entries) ∙ h)
