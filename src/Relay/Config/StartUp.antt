-- ===== src/Relay/Config/StartUp.antt =====
-- When the relay starts, and with which chains.
use nimble_xchain_contracts.Prelude.{
  ℕ, List, [], ◌∷◌, map, ◌≡◌, refl, Bool-cases, Option, none, some,
}
use nimble_xchain_contracts.Prelude.{inl, inr, false, if◌then◌else◌}
use nimble_xchain_contracts.Js.{Text, text, is_empty}
use nimble_xchain_contracts.Sdk.{SdkChain, karura, acala, avax}
use nimble_xchain_contracts.Relay.Config.{
  ChainConfigInfo, Env, Boot, started, exits, value_or_empty, missing, required, Environment,
  config_karura, config_acala, config_avax, validate_environment,
}

-- The first of some variables that is unset or empty.
pub first_missing : Env → List Text → Option Text
first_missing env [] = none
first_missing env (name ∷ names) =
    let rest = first_missing env names in
    if is_empty (value_or_empty (env name)) then some name else rest

abbrev pub karura_names : List Text
karura_names =
    text "KARURA_ETH_RPC_URL"
    ∷ text "KARURA_SUBSTRATE_NODE_URL"
    ∷ text "KARURA_PRIVATE_KEY"
    ∷ text "KARURA_TOKEN_BRIDGE_ADDRESS"
    ∷ []

abbrev pub IsComplete : ChainConfigInfo → Type 0
IsComplete c =
    (is_empty c.node_url ≡ false)
    × (is_empty c.substrate_node_url ≡ false)
    × (is_empty c.wallet_private_key ≡ false)
    × (is_empty c.token_bridge_address ≡ false)

-- The start-up that a missing variable, or none, calls for.
abbrev pub Starts : (SdkChain → ℕ) → Boot Environment → Option Text → Type 0
Starts chain_id boot (some name) = boot ≡ exits 1 (missing name)
Starts chain_id boot none =
    (e : Environment) × (first : ChainConfigInfo) × (rest : List ChainConfigInfo) × (boot
      ≡ started e)
    × (e.supported_chains ≡ first ∷ rest)
    × (map (λ c. c.chain_id) e.supported_chains
        ≡ chain_id karura ∷ chain_id acala ∷ chain_id avax ∷ [])
    × IsComplete first

module _ (chain_id : SdkChain → ℕ) (env : Env) where
  -- Without one of Karura's four variables the process ends with status 1, naming the first that is
  -- missing; with all four it starts with Karura, Acala and Avalanche, in this order, and the
  -- four fields of Karura's are not empty.
  pub start_up :
      Starts chain_id (validate_environment chain_id env) (first_missing env karura_names)
  unfolding validate_environment config_karura required first_missing config_acala config_avax
  start_up = elim (Bool-cases (is_empty (value_or_empty (env (text "KARURA_ETH_RPC_URL"))))) [
    | inl unset ↦ rw unset refl
    | inr url ↦
        rw url
          (elim (Bool-cases (is_empty (value_or_empty (env (text "KARURA_SUBSTRATE_NODE_URL"))))) [
            | inl unset ↦ rw unset refl
            | inr node ↦
                rw node
                  (elim (Bool-cases (is_empty (value_or_empty (env (text "KARURA_PRIVATE_KEY"))))) [
                    | inl unset ↦ rw unset refl
                    | inr key ↦
                        rw key
                          (elim (Bool-cases (
                            is_empty (value_or_empty (env (text "KARURA_TOKEN_BRIDGE_ADDRESS"))))) [
                              | inl unset ↦ rw unset refl
                              | inr bridge ↦
                                  rw bridge (_, _, _, refl, refl, refl, (url, node, key, bridge))
                            ])
                  ])
          ])
  ]
