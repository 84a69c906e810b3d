-- ===== src/App/Tests.antt =====
-- The scripts on a configuration of three chains.
use nimble_xchain_contracts.Prelude.{ℕ, ◌≡◌, refl, [], ◌∷◌, some}
use nimble_xchain_contracts.Js.{text, Outcome, ok}
use nimble_xchain_contracts.Sdk.{documented}
use nimble_xchain_contracts.Plugin.{nnull}
use nimble_xchain_contracts.App.Senders.{
  ChainConfigInfo, Services, World, find_chain, load_sender, transfer_of, build, send_confirmed,
  fetch, ask, send_to_polygon,
}

abbrev chain : ℕ → ChainConfigInfo
chain id = record {
  chain_id = id;
  node_url = text "rpc";
  bridge_address = some (text "core");
  token_bridge_address = some (text "bridge");
}

abbrev services : Services
services = record {
  load_config = ok (record {
    supported_chains = chain 1 ∷ chain 5 ∷ chain 6 ∷ [];
    private_key = some (text "[1]");
  });
  keypair = λ raw. ok (1 ∷ []);
  try_native_to_uint8_array = λ address id. ok address;
  emitter_address_solana = λ bridge. ok bridge;
  parse_sequence_from_log_solana = λ log. ok log;
  transfers = λ w call. ok (9 ∷ []);
  confirms = λ w call. ok (text "signature");
  logs = λ w call. ok (some (text "3"));
  vaas = λ w call. ok (7 ∷ []);
  parse_transfer = λ vaa. ok tt;
  chain_id = documented;
}

abbrev after : {A : Type 0} → (Outcome A × World) → World
after (r, w) = w

send_to_polygon_test : send_to_polygon services [] ≡ (ok tt, after (send_to_polygon services []))
unfolding send_to_polygon load_sender find_chain nnull send_confirmed build transfer_of fetch ask
send_to_polygon_test = refl
