-- ===== src/Plugin/Made.antt =====
-- How the engine makes the plugin.
use nimble_xchain_contracts.Prelude.{◌≡◌, refl, sym, ap, ◌∙◌}
use nimble_xchain_contracts.Js.{Text, Outcome, ok, ◌>>=◌, returned, ok_injective}
use nimble_xchain_contracts.Plugin.{
  Raw, RawConfig, PluginConfig, DummyPlugin, validate_config, new_plugin, raw_of, plugin_of, init,
  get_filters,
}
use nimble_xchain_contracts.Plugin.Handled.{validate_config_iff}

module _ {A : Type 0} (show : Raw A → Text) where
  -- A validated configuration passes again, unchanged.
  validate_config-raw_of :
      (raw : RawConfig A) (config : PluginConfig A)
      → validate_config show raw ≡ ok config
      → validate_config show (raw_of config) ≡ ok config
  validate_config-raw_of raw config h =
      let (rest, spy, kept, allowed) = (validate_config_iff show raw config).0 h in
      (validate_config_iff show (raw_of config) config).1 (refl, refl, refl, rw kept allowed)

  -- Where `init` accepts a configuration, the function that it gives the engine makes the plugin
  -- without an error, with the filters and the switches of that configuration.
  pub init-new_plugin :
      (raw : RawConfig A) (make : Unit {0} → Outcome (DummyPlugin A))
      → init show raw ≡ ok make
      → (plugin : DummyPlugin A) × (make tt ≡ ok plugin)
        × (get_filters plugin ≡ raw.spy_service_filters)
        × (raw.should_rest ≡ Raw.bool plugin.should_rest)
        × (raw.should_spy ≡ Raw.bool plugin.should_spy)
  unfolding init new_plugin
  init-new_plugin raw make h =
      let (config, h1, e1) = returned _ make (validate_config show raw) h in
      let (rest, spy, kept, allowed) = (validate_config_iff show raw config).0 e1 in
      let again = validate_config-raw_of raw config e1 in
      let made : new_plugin show (raw_of config) ≡ ok (plugin_of config) =
        ap (λ m. m >>= λ c. ok (plugin_of c)) again in
      (plugin_of config, ap (λ f. f tt) (sym (ok_injective h1)) ∙ made, kept, rest, spy)
