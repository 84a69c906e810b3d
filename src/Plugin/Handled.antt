-- ===== src/Plugin/Handled.antt =====
-- What makes a workflow fail, and what a configuration must be.
use nimble_xchain_contracts.Prelude.{
  ℕ, ◌≡◌, ◌↔◌, refl, sym, ap, ◌∙◌, arith, Bool, true, false, List, Option, none, some, not,
}
use nimble_xchain_contracts.Js.{Text, text, ok, ok_injective, returned}
use nimble_xchain_contracts.Sdk.{SdkChain, polygon}
use nimble_xchain_contracts.Plugin.{
  Raw, bool, array, RawConfig, PluginConfig, is_truthy, assert_array, assert_bool, filters_of,
  validate_config, WorkflowPayload, Codec, Engine, ChainConfig, nnull, find_chain, finished,
  parse_workflow_payload, check_complete, handle_workflow,
}

finished_sound : (fails : Bool) → finished fails ≡ ok tt → fails ≡ false
finished_sound fails h = ground arith

module _ {Vaa : Type 0} (c : Codec Vaa) (chain_id : SdkChain → ℕ) (engine : Engine) where
  -- What a workflow needs: a VAA that is parsed, wallets for chains 6 and 5, a configuration of the
  -- chains that has Polygon, and no simulated failure.
  pub record Runs (payload : WorkflowPayload) : Type 0 where
    pub vaa : Vaa
    pub parses : c.parse_vaa (c.from_base64 payload.vaa) ≡ ok vaa
    pub pubkey : Text
    pub runs_6 : engine.on_evm 6 ≡ ok pubkey
    pub wallet : Text
    pub runs_5 : engine.on_evm 5 ≡ ok wallet
    pub chains : List ChainConfig
    pub configured : engine.supported_chains ≡ ok chains
    pub config : ChainConfig
    pub found : find_chain (chain_id polygon) chains ≡ some config
    pub calm : engine.simulates_failure ≡ false

  found_chain :
      (o : Option ChainConfig) (config : ChainConfig) → nnull o ≡ ok config → o ≡ some config
  unfolding nnull
  found_chain none config h = ground arith
  found_chain (some x) config h = ground arith

  handled-Runs :
      (payload : WorkflowPayload) → handle_workflow c chain_id engine payload ≡ ok tt → Runs payload
  unfolding handle_workflow parse_workflow_payload check_complete
  handled-Runs payload h =
      let (workflow, h1, e1) = returned _ tt (parse_workflow_payload c payload) h in
      let (vaa, _, parses) = returned _ workflow (c.parse_vaa (c.from_base64 payload.vaa)) e1 in
      let (pubkey, h2, runs_6) = returned _ tt (engine.on_evm 6) h1 in
      let (complete, h3, e3) =
        returned _ tt (check_complete c chain_id engine workflow.vaa_bytes) h2 in
      let (wallet, h4, runs_5) = returned _ complete (engine.on_evm 5) e3 in
      let (chains, h5, configured) = returned _ complete engine.supported_chains h4 in
      let (config, _, found) =
        returned _ complete (nnull (find_chain (chain_id polygon) chains)) h5 in
      record {
        vaa = vaa;
        parses = parses;
        pubkey = pubkey;
        runs_6 = runs_6;
        wallet = wallet;
        runs_5 = runs_5;
        chains = chains;
        configured = configured;
        config = config;
        found = found_chain _ config found;
        calm = finished_sound engine.simulates_failure h3;
      }

  Runs-handled :
      (payload : WorkflowPayload) → Runs payload → handle_workflow c chain_id engine payload ≡ ok tt
  unfolding handle_workflow parse_workflow_payload check_complete nnull
  Runs-handled payload r = rw (r.parses, r.runs_6, r.runs_5, r.configured, r.found, r.calm) refl

  -- A workflow succeeds exactly where its VAA is parsed, the engine has wallets for chains 6 and 5
  -- and a configuration of the chains that has Polygon, and the failure is not simulated: whether
  -- Polygon has a token bridge and what the completion check answers, an error too, does not matter.
  pub handle_workflow_iff :
      (payload : WorkflowPayload)
      → (handle_workflow c chain_id engine payload ≡ ok tt) ↔ Runs payload
  handle_workflow_iff payload = (handled-Runs payload, Runs-handled payload)

-- An array, or a falsy value.
abbrev pub is_filters : {A : Type 0} → Raw A → Bool
is_filters (array xs) = true
is_filters raw = not (is_truthy raw)

filters_of_sound :
    {A : Type 0} (show : Raw A → Text) (raw out : Raw A)
    → filters_of show raw ≡ ok out
    → (out ≡ raw) × (is_filters raw ≡ true)
unfolding filters_of assert_array
filters_of_sound show raw out h = ground arith

filters_of_complete :
    {A : Type 0} (show : Raw A → Text) (raw : Raw A)
    → is_filters raw ≡ true
    → filters_of show raw ≡ ok raw
unfolding filters_of assert_array
filters_of_complete show raw h = ground arith

assert_bool_sound :
    {A : Type 0} (show : Raw A → Text) (raw : Raw A) (name : Text) (b : Bool)
    → assert_bool show raw name ≡ ok b
    → raw ≡ bool b
unfolding assert_bool
assert_bool_sound show raw name b h = ground arith

assert_bool_complete :
    {A : Type 0} (show : Raw A → Text) (raw : Raw A) (name : Text) (b : Bool)
    → raw ≡ bool b
    → assert_bool show raw name ≡ ok b
unfolding assert_bool
assert_bool_complete show raw name b h = rw h refl

-- A configuration is accepted exactly if both switches are Booleans and the filters are an array or
-- falsy, and then every value is kept.
pub validate_config_iff :
    {A : Type 0} (show : Raw A → Text) (raw : RawConfig A) (config : PluginConfig A)
    → (validate_config show raw ≡ ok config) ↔ (
        (raw.should_rest ≡ bool config.should_rest)
        × (raw.should_spy ≡ bool config.should_spy)
        × (config.spy_service_filters ≡ raw.spy_service_filters)
        × (is_filters raw.spy_service_filters ≡ true))
unfolding validate_config
validate_config_iff show raw config = (sound, complete)
  where
    sound :
        validate_config show raw ≡ ok config
        → (raw.should_rest ≡ bool config.should_rest)
          × (raw.should_spy ≡ bool config.should_spy)
          × (config.spy_service_filters ≡ raw.spy_service_filters)
          × (is_filters raw.spy_service_filters ≡ true)
    sound h =
        let (filters, h1, e1) = returned _ config (filters_of show raw.spy_service_filters) h in
        let (rest, h2, e2) =
          returned _ config (assert_bool show raw.should_rest (text "shouldRest")) h1 in
        let (spy, h3, e3) =
          returned _ config (assert_bool show raw.should_spy (text "shouldSpy")) h2 in
        let same = ok_injective h3 in
        let (kept, allowed) = filters_of_sound show raw.spy_service_filters filters e1 in
        (
          assert_bool_sound show raw.should_rest _ rest e2 ∙ ap (λ c. bool c.should_rest) same,
          assert_bool_sound show raw.should_spy _ spy e3 ∙ ap (λ c. bool c.should_spy) same,
          sym (ap (λ c. c.spy_service_filters) same) ∙ kept,
          allowed,
        )

    complete :
        (raw.should_rest ≡ bool config.should_rest)
          × (raw.should_spy ≡ bool config.should_spy)
          × (config.spy_service_filters ≡ raw.spy_service_filters)
          × (is_filters raw.spy_service_filters ≡ true)
        → validate_config show raw ≡ ok config
    complete (rest, spy, kept, allowed) =
        rw
          (
            filters_of_complete show raw.spy_service_filters allowed,
            assert_bool_complete show raw.should_rest (text "shouldRest") config.should_rest rest,
            assert_bool_complete show raw.should_spy (text "shouldSpy") config.should_spy spy,
            sym kept,
          )
          refl
