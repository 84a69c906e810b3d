-- ===== src/Plugin.antt =====
-- app/plugins/dummy_plugin/src: the plugin that the relayer engine runs.
pub mod Counted
pub mod Handled
pub mod Made
mod Tests
use nimble_xchain_contracts.Prelude.{
  ◌≡◌, ℕ, ◌+◌, ◌==◌, List, [], ◌∷◌, ◌++◌, Option, none, some, Bool, true, false, not, if◌then◌else◌,
}
use nimble_xchain_contracts.Js.{
  Text, text, is_empty, Error, error, field_error, Outcome, ok, throws, ◌>>=◌,
}
use nimble_xchain_contracts.Sdk.{SdkChain, polygon}

-- A value of a plugin's configuration. The elements of an array are not looked at; a number is
-- whole or not.
pub data Raw (A : Type 0) : Type 0 where
  undefined null : Raw A
  bool : Bool → Raw A
  num : ℕ → Raw A
  fraction str object : Text → Raw A
  array : List A → Raw A

-- The error of an assertion: its message, with the value that was found, and its `fieldName`.
abbrev pub expected : Text → Text → Text → Error
expected kind found field_name =
    field_error (text "Expected field to be " ++ kind ++ text ", found " ++ found) field_name

-- `show` is the string conversion of a value.
module _ {A : Type 0} (show : Raw A → Text) where
  unfoldable pub assert_int : Raw A → Text → Outcome ℕ
  assert_int (num n) field_name = ok n
  assert_int raw field_name = throws (expected (text "integer") (show raw) field_name)

  unfoldable pub assert_array : Raw A → Text → Outcome (List A)
  assert_array (array xs) field_name = ok xs
  assert_array raw field_name = throws (expected (text "array") (show raw) field_name)

  unfoldable pub assert_bool : Raw A → Text → Outcome Bool
  assert_bool (bool b) field_name = ok b
  assert_bool raw field_name = throws (expected (text "boolean") (show raw) field_name)

abbrev pub is_truthy : {A : Type 0} → Raw A → Bool
is_truthy undefined = false
is_truthy null = false
is_truthy (bool b) = b
is_truthy (num n) = not (n == 0)
is_truthy (str t) = not (is_empty t)
is_truthy _ = true

-- `nnull`
unfoldable pub nnull {ℓ} : {A : Type ℓ} → Option A → Outcome A
nnull none = throws (error (text "Found unexpected undefined or null."))
nnull (some a) = ok a

pub record RawConfig (A : Type 0) : Type 0 where
  pub spy_service_filters : Raw A
  pub should_rest : Raw A
  pub should_spy : Raw A

-- The filters are what `raw && assertArray(raw)` gives: a falsy value is kept as it is.
pub record PluginConfig (A : Type 0) : Type 0 where
  pub spy_service_filters : Raw A
  pub should_rest : Bool
  pub should_spy : Bool

module _ {A : Type 0} (show : Raw A → Text) where
  unfoldable pub filters_of : Raw A → Outcome (Raw A)
  filters_of raw =
      if is_truthy raw
      then (do filters ← assert_array show raw (text "spyServiceFilters"); ok (array filters))
      else ok raw

  unfoldable pub validate_config : RawConfig A → Outcome (PluginConfig A)
  unfolding filters_of assert_bool assert_array
  validate_config raw = do
    filters ← filters_of raw.spy_service_filters
    rest ← assert_bool show raw.should_rest (text "shouldRest")
    spy ← assert_bool show raw.should_spy (text "shouldSpy")
    ok (record { spy_service_filters = filters; should_rest = rest; should_spy = spy })

abbrev pub Bytes : Type 0
Bytes = List ℕ

pub record WorkflowPayload : Type 0 where
  pub vaa : Text
  pub count : ℕ

-- The staging area of the engine: `withKey` reads a key, stores what the function gives for it and
-- returns the function's value, while no other process does.
pub record StagingArea : Type 1 where
  pub State : Type 0
  pub counter : State → Option ℕ
  pub with_key : (Option ℕ → ℕ × ℕ) → State → ℕ × State
  pub returns : (f : Option ℕ → ℕ × ℕ) (s : State) → (with_key f s).0 ≡ (f (counter s)).1
  pub stores :
      (f : Option ℕ → ℕ × ℕ) (s : State) → counter (with_key f s).1 ≡ some (f (counter s)).0

-- `counter ? counter : 0`
abbrev pub or_zero : Option ℕ → ℕ
or_zero none = 0
or_zero (some n) = n

-- The new counter, as the new value of the key and as the result.
unfoldable pub increment : Option ℕ → ℕ × ℕ
increment counter = (or_zero counter + 1, or_zero counter + 1)

-- Node's base64, and the parser of the SDK.
pub record Codec (Vaa : Type 0) : Type 0 where
  pub to_base64 : Bytes → Text
  pub from_base64 : Text → Bytes
  pub parse_vaa : Bytes → Outcome Vaa
  pub decodes : (bs : Bytes) → from_base64 (to_base64 bs) ≡ bs

module _ {Vaa : Type 0} (c : Codec Vaa) (area : StagingArea) where
  abbrev payload_of : Bytes → ℕ × area.State → WorkflowPayload × area.State
  payload_of vaa_bytes (count, s) = (record { vaa = c.to_base64 vaa_bytes; count = count }, s)

  unfoldable pub consume_event : Bytes → area.State → WorkflowPayload × area.State
  consume_event vaa_bytes s = payload_of vaa_bytes (area.with_key increment s)

  -- The events of a run, one after the other.
  unfoldable pub consume_events : List Bytes → area.State → List WorkflowPayload × area.State
  consume_events [] s = ([], s)
  consume_events (vaa ∷ vaas) s =
      let (payload, s') = consume_event vaa s in
      let (payloads, s'') = consume_events vaas s' in (payload ∷ payloads, s'')

-- A parsed VAA with its bytes, and the count.
pub record Deserialized (Vaa : Type 0) : Type 0 where
  pub vaa : Vaa
  pub vaa_bytes : Bytes
  pub count : ℕ

pub record ChainConfig : Type 0 where
  pub chain_id : ℕ
  pub token_bridge_address : Option Text

-- What the engine and the chain answer to a workflow: the wallet that runs an action on a chain, the
-- configured chains, whether the transfer is completed, and whether the simulation fails.
pub record Engine : Type 0 where
  pub on_evm : ℕ → Outcome Text
  pub supported_chains : Outcome (List ChainConfig)
  pub is_transfer_completed : (bridge wallet : Text) → Bytes → Outcome Bool
  pub simulates_failure : Bool

unfoldable pub find_chain : ℕ → List ChainConfig → Option ChainConfig
find_chain id [] = none
find_chain id (c ∷ cs) = let rest = find_chain id cs in if c.chain_id == id then some c else rest

-- `catch (error) { console.error(…) }`, where `complete` is still false.
abbrev pub or_false : Outcome Bool → Bool
or_false (ok b) = b
or_false (throws e) = false

-- `if (Math.random() < PROBABILITY_OF_FAILURE)`
abbrev pub finished : Bool → Outcome (Unit {0})
finished fails = if fails then throws (error (text "Simulating workflow failure")) else ok tt

module _ {Vaa : Type 0} (c : Codec Vaa) where
  unfoldable pub parse_workflow_payload : WorkflowPayload → Outcome (Deserialized Vaa)
  parse_workflow_payload payload = do
    vaa ← c.parse_vaa (c.from_base64 payload.vaa)
    ok (record { vaa = vaa; vaa_bytes = c.from_base64 payload.vaa; count = payload.count })

module _ {Vaa : Type 0} (c : Codec Vaa) (chain_id : SdkChain → ℕ) (engine : Engine) where
  -- The second action, on chain 5.
  unfoldable pub check_complete : Bytes → Outcome Bool
  check_complete vaa_bytes = do
    wallet ← engine.on_evm 5
    chains ← engine.supported_chains
    config ← nnull (find_chain (chain_id polygon) chains)
    ok (
        or_false (do
          bridge ← nnull config.token_bridge_address
          engine.is_transfer_completed bridge wallet vaa_bytes))

  unfoldable pub handle_workflow : WorkflowPayload → Outcome (Unit {0})
  handle_workflow payload = do
    workflow ← parse_workflow_payload c payload
    pubkey ← engine.on_evm 6
    complete ← check_complete workflow.vaa_bytes
    finished engine.simulates_failure

-- The plugin object; the engine's environment and the logger are not looked at.
pub record DummyPlugin (A : Type 0) : Type 0 where
  pub plugin_config : PluginConfig A
  pub should_rest : Bool
  pub should_spy : Bool

-- `DummyPlugin.pluginName`
abbrev pub plugin_name : Text
plugin_name = text "DummyPlugin"

-- A validated configuration, as the constructor is given it.
abbrev pub raw_of : {A : Type 0} → PluginConfig A → RawConfig A
raw_of config = record {
  spy_service_filters = config.spy_service_filters;
  should_rest = bool config.should_rest;
  should_spy = bool config.should_spy;
}

abbrev pub plugin_of : {A : Type 0} → PluginConfig A → DummyPlugin A
plugin_of config = record {
  plugin_config = config;
  should_rest = config.should_rest;
  should_spy = config.should_spy;
}

module _ {A : Type 0} (show : Raw A → Text) where
  -- The constructor.
  unfoldable pub new_plugin : RawConfig A → Outcome (DummyPlugin A)
  new_plugin raw = do config ← validate_config show raw; ok (plugin_of config)

  -- `init` of the definition: the function that the engine calls to make the plugin.
  unfoldable pub init : RawConfig A → Outcome (Unit {0} → Outcome (DummyPlugin A))
  init raw = do config ← validate_config show raw; ok (λ _. new_plugin (raw_of config))

abbrev pub get_filters : {A : Type 0} → DummyPlugin A → Raw A
get_filters plugin = plugin.plugin_config.spy_service_filters
