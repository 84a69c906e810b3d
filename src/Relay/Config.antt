-- ===== src/Relay/Config.antt =====
-- lib/relayer-engine/src/configureEnv.ts: the chains that the relay is configured for.
pub mod StartUp
use nimble_xchain_contracts.Prelude.{
  ℕ, String, List, [], ◌∷◌, ◌++◌, if◌then◌else◌, Option, none, some,
}
use nimble_xchain_contracts.Prelude.{◌≡◌, refl, arith}
use nimble_xchain_contracts.Js.{Text, text, is_empty}
use nimble_xchain_contracts.Sdk.{SdkChain, karura, acala, avax}

pub record ChainConfigInfo : Type 0 where
  pub chain_id : ℕ
  pub node_url : Text
  pub substrate_node_url : Text
  pub token_bridge_address : Text
  pub wallet_private_key : Text

-- `process.env`.
abbrev pub Env : Type 0
Env = Text → Option Text

-- Start-up goes on, or ends the process with a status after a last message on standard error.
pub data Boot {ℓ} (A : Type ℓ) : Type ℓ where
  started : A → Boot A
  exits : ℕ → Text → Boot A

infixl 5 ◌>>=◌
abbrev ◌>>=◌ {ℓ κ} : {A : Type ℓ} {B : Type κ} → Boot A → (A → Boot B) → Boot B
started a >>= f = f a
exits status message >>= f = exits status message

-- `process.env.X || ''`: an unset variable and an empty one give the empty string.
unfoldable pub value_or_empty : Option Text → Text
value_or_empty none = []
value_or_empty (some s) = s

abbrev pub missing : Text → Text
missing name = text "Missing environment variable " ++ name

unfoldable pub required : Env → Text → Boot Text
required env name =
    let value = value_or_empty (env name) in
    if is_empty value then exits 1 (missing name) else started value

-- The warning for a variable that is not set, if it is not.
abbrev warning : Env → Text → List Text
warning env name = if is_empty (value_or_empty (env name)) then missing name ∷ [] else []

pub record Environment : Type 0 where
  pub warnings : List Text
  pub supported_chains : List ChainConfigInfo

module _ (chain_id : SdkChain → ℕ) (env : Env) where
  unfoldable pub config_karura : Boot ChainConfigInfo
  config_karura = do
    node_url ← required env (text "KARURA_ETH_RPC_URL")
    substrate_node_url ← required env (text "KARURA_SUBSTRATE_NODE_URL")
    key ← required env (text "KARURA_PRIVATE_KEY")
    bridge ← required env (text "KARURA_TOKEN_BRIDGE_ADDRESS")
    started (record {
      chain_id = chain_id karura;
      node_url = node_url;
      substrate_node_url = substrate_node_url;
      token_bridge_address = bridge;
      wallet_private_key = key;
    })

  unfoldable pub acala_warnings : List Text
  acala_warnings =
      warning env (text "ACALA_ETH_RPC_URL")
      ++ (warning env (text "ACALA_SUBSTRATE_NODE_URL")
          ++ (warning env (text "ACALA_PRIVATE_KEY")
              ++ warning env (text "ACALA_TOKEN_BRIDGE_ADDRESS")))

  unfoldable pub config_acala : ChainConfigInfo
  config_acala = record {
    chain_id = chain_id acala;
    node_url = value_or_empty (env (text "ACALA_ETH_RPC_URL"));
    substrate_node_url = value_or_empty (env (text "ACALA_SUBSTRATE_NODE_URL"));
    token_bridge_address = value_or_empty (env (text "ACALA_TOKEN_BRIDGE_ADDRESS"));
    wallet_private_key = value_or_empty (env (text "ACALA_PRIVATE_KEY"));
  }

  unfoldable pub config_avax : ChainConfigInfo
  config_avax = record {
    chain_id = chain_id avax;
    node_url = value_or_empty (env (text "AVAX_ETH_RPC_URL"));
    substrate_node_url = value_or_empty (env (text "AVAX_SUBSTRATE_NODE_URL"));
    token_bridge_address = value_or_empty (env (text "AVAX_TOKEN_BRIDGE_ADDRESS"));
    wallet_private_key = value_or_empty (env (text "AVAX_PRIVATE_KEY"));
  }

  unfoldable pub validate_environment : Boot Environment
  validate_environment = do
    karura_chain ← config_karura
    started (record {
      warnings = acala_warnings;
      supported_chains = karura_chain ∷ config_acala ∷ config_avax ∷ [];
    })
