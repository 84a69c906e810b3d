-- ===== src/App/Start.antt =====
-- app/src/main.ts: starting the relayer engine with the plugin.
use nimble_xchain_contracts.Prelude.{ℕ, ◌-◌, ◌≡◌, map, Option, none, some, ◌&&◌, leb, if◌then◌else◌}
use nimble_xchain_contracts.Js.{Text, text, is_empty, Outcome, ok, ◌>>=◌, returned}
use nimble_xchain_contracts.Plugin.{Raw, RawConfig, DummyPlugin, plugin_name, init}
use nimble_xchain_contracts.Plugin.Made.{init-new_plugin}

-- `toUpperCase` on ASCII.
abbrev upper : ℕ → ℕ
upper c = if leb b'a' c && leb c b'z' then c - 32 else c

unfoldable pub to_upper_case : Text → Text
to_upper_case = map upper

-- `Mode.BOTH`
abbrev pub both : Text
both = text "BOTH"

-- `process.env.RELAYER_ENGINE_MODE?.toUpperCase() || Mode.BOTH`
unfoldable pub mode_of : Option Text → Text
mode_of none = both
mode_of (some value) = if is_empty (to_upper_case value) then both else to_upper_case value

-- The argument of `relayerEngine.run`: one plugin, by its name and the function that makes it.
pub record RunArgs (A : Type 0) : Type 0 where
  pub configs : Text
  pub make : Unit {0} → Outcome (DummyPlugin A)
  pub name : Text
  pub mode : Text

-- `./plugins/dummy_plugin/config/${EnvType.DEVNET.toLowerCase()}.json`
abbrev pub config_path : Text
config_path = text "./plugins/dummy_plugin/config/devnet.json"

-- Files that the engine loads, and its run.
pub record Engine (A : Type 0) : Type 0 where
  pub load_file : Text → Outcome (RawConfig A)
  pub run : RunArgs A → Outcome (Unit {0})

module _ {A : Type 0} (show : Raw A → Text) (engine : Engine A) (mode : Option Text) where
  abbrev pub run_args : (Unit {0} → Outcome (DummyPlugin A)) → RunArgs A
  run_args make = record {
    configs = text "./relayer-engine-config";
    make = make;
    name = plugin_name;
    mode = mode_of mode;
  }

  unfoldable pub main : Outcome (Unit {0})
  main = do raw ← engine.load_file config_path; make ← init show raw; engine.run (run_args make)

  -- A start that does not fail has run the engine, with the mode of the environment and the plugin:
  -- the function that the engine is given makes it without an error, from the file's configuration.
  main_returned :
      main ≡ ok tt
      → (raw : RawConfig A) × (make : Unit {0} → Outcome (DummyPlugin A)) × (plugin : DummyPlugin A)
        × (engine.load_file config_path ≡ ok raw)
        × (make tt ≡ ok plugin)
        × (raw.should_rest ≡ Raw.bool plugin.should_rest)
        × (raw.should_spy ≡ Raw.bool plugin.should_spy)
        × (engine.run (run_args make) ≡ ok tt)
  unfolding main
  main_returned h =
      let (raw, h1, loads) = returned _ tt (engine.load_file config_path) h in
      let (make, runs, inits) = returned _ tt (init show raw) h1 in
      let (plugin, makes, kept, rest, spy) = init-new_plugin show raw make inits in
      (raw, make, plugin, loads, makes, rest, spy, runs)
