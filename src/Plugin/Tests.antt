-- ===== src/Plugin/Tests.antt =====
-- The plugin with a staging area that is the counter itself.
use nimble_xchain_contracts.Prelude.{
  ℕ, ◌≡◌, ◌↔◌, refl, true, false, List, [], ◌∷◌, Option, none, some,
}
use nimble_xchain_contracts.Js.{text, ok}
use nimble_xchain_contracts.Sdk.{documented}
use nimble_xchain_contracts.Plugin.{
  Bytes, WorkflowPayload, StagingArea, increment, Codec, Engine, ChainConfig, find_chain,
  consume_event, consume_events, handle_workflow,
}
use nimble_xchain_contracts.Plugin.Handled.{Runs, handle_workflow_iff}

abbrev with_key : (Option ℕ → ℕ × ℕ) → Option ℕ → ℕ × Option ℕ
with_key f s = let (stored, result) = f s in (result, some stored)

abbrev area : StagingArea
area = record {
  State = Option ℕ;
  counter = λ s. s;
  with_key = with_key;
  returns = λ f s. refl;
  stores = λ f s. refl;
}

abbrev codec : Codec Bytes
codec = record {
  to_base64 = λ bs. bs;
  from_base64 = λ t. t;
  parse_vaa = λ bs. ok bs;
  decodes = λ bs. refl;
}

abbrev vaas : List Bytes
vaas = (1 ∷ []) ∷ (2 ∷ []) ∷ []

consume_events_test :
    (consume_events codec area vaas (some 6)).0
    ≡ record { vaa = 1 ∷ []; count = 7 } ∷ record { vaa = 2 ∷ []; count = 8 } ∷ []
unfolding consume_events consume_event increment
consume_events_test = refl

abbrev polygon_config : ChainConfig
polygon_config = record { chain_id = 5; token_bridge_address = none }

abbrev engine : Engine
engine = record {
  on_evm = λ chain. ok (text "wallet");
  supported_chains = ok (polygon_config ∷ []);
  is_transfer_completed = λ bridge wallet bs. ok true;
  simulates_failure = false;
}

find_chain_test : find_chain 5 (polygon_config ∷ []) ≡ some polygon_config
unfolding find_chain
find_chain_test = refl

abbrev payload : WorkflowPayload
payload = record { vaa = 5 ∷ []; count = 1 }

handle_workflow_example :
    (handle_workflow codec documented engine payload ≡ ok tt) ↔ Runs codec documented engine payload
handle_workflow_example = handle_workflow_iff codec documented engine payload
