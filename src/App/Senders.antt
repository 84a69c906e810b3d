-- ===== src/App/Senders.antt =====
-- app/cli: the scripts that send SOL to Avalanche or Polygon. What a script does is a list of calls,
-- the newest first, whose answers may depend on all calls before.
pub mod Sent
pub mod Delivered
pub mod Endless
use nimble_xchain_contracts.Prelude.{
  ℕ, zero, suc, ◌-◌, ◌==◌, List, [], ◌∷◌, Option, none, some, Bool, if◌then◌else◌,
}
use nimble_xchain_contracts.Js
use nimble_xchain_contracts.Js.{Text, text, text_eq, Error, Outcome, ok, throws}
use nimble_xchain_contracts.Exec.{Exec, pure, lift, catch, ◌>>=◌, ◌>>◌}
use nimble_xchain_contracts.Sdk
use nimble_xchain_contracts.Sdk.{SdkChain}
use nimble_xchain_contracts.Plugin.{nnull}

abbrev pub Bytes : Type 0
Bytes = List ℕ

-- SOL_SEND_NATIVE_FEE, and the amount that sendSolanaNative.ts writes out.
abbrev pub sol_send_native_fee : ℕ
sol_send_native_fee = 100_000_000

-- WORMHOLE_GUARDIAN_RPC
abbrev pub wormhole_guardian_rpc : List Text
wormhole_guardian_rpc = text "https://wormhole-v2-testnet-api.certus.one" ∷ []

pub record ChainConfigInfo : Type 0 where
  pub chain_id : ℕ
  pub node_url : Text
  pub bridge_address : Option Text
  pub token_bridge_address : Option Text

-- What the scripts read of the engine's configuration; `private_key` is the first key of chain 1.
pub record Configs : Type 0 where
  pub supported_chains : List ChainConfigInfo
  pub private_key : Option Text

-- The arguments of `transferNativeSol`.
pub record SolTransfer : Type 0 where
  pub node_url : Text
  pub bridge_address : Text
  pub token_bridge_address : Text
  pub payer : Bytes
  pub amount : ℕ
  pub target_address : Bytes
  pub target_chain : ℕ

pub data Call : Type 0 where
  request_airdrop : (node_url : Text) (payer : Bytes) (lamports : ℕ) → Call
  transfer_native_sol : SolTransfer → Call
  send_and_confirm : (payer transaction : Bytes) → Call
  get_transaction : (signature : Text) → Call
  get_signed_vaa : (rpc : List Text) (emitter sequence : Text) → Call

abbrev pub World : Type 0
World = List Call

-- A transaction that `conn.getTransaction` finds has its log.
pub record Services : Type 0 where
  pub load_config : Outcome Configs
  -- `Keypair.fromSecretKey(Buffer.from(JSON.parse(raw)))`
  pub keypair : Text → Outcome Bytes
  pub try_native_to_uint8_array : Text → ℕ → Outcome Bytes
  pub emitter_address_solana : Text → Outcome Text
  pub parse_sequence_from_log_solana : Text → Outcome Text
  pub transfers : World → Call → Outcome Bytes
  pub confirms : World → Call → Outcome Text
  pub logs : World → Call → Outcome (Option Text)
  pub vaas : World → Call → Outcome Bytes
  -- `parseTransferPayload(parseVaa(bytes).payload)`, which only decides whether the script fails
  pub parse_transfer : Bytes → Outcome (Unit {0})
  pub chain_id : SdkChain → ℕ

unfoldable pub ask {ℓ} : {A : Type ℓ} → (World → Call → Outcome A) → Call → Exec World A
ask answers call w = (answers w call, call ∷ w)

-- A call whose answer is not waited for, and whose failure does not matter.
unfoldable pub start : Call → Exec World (Unit {0})
start call w = (ok tt, call ∷ w)

unfoldable pub find_chain : ℕ → List ChainConfigInfo → Option ChainConfigInfo
find_chain id [] = none
find_chain id (c ∷ cs) = let rest = find_chain id cs in if c.chain_id == id then some c else rest

-- What a script knows once it has read the configuration.
pub record Sender : Type 0 where
  pub solana : ChainConfigInfo
  pub target : ChainConfigInfo
  pub payer : Bytes

abbrev pub airdrop : Sender → Call
airdrop x = request_airdrop x.solana.node_url x.payer 2_000_000_000

-- `Number(process.argv[2])`: no number, infinity, or a number by the least whole number that is not
-- below it; one of zero or less is `whole 0`.
pub data Count : Type 0 where
  nan infinity : Count
  whole : ℕ → Count

-- Whether `main` came to its end, or is still in a loop that does not end.
pub data Progress : Type 0 where
  ended running : Progress

-- The rounds of the `for` loop.
unfoldable pub rounds_of : Count → Option ℕ
rounds_of nan = some 0
rounds_of infinity = none
rounds_of (whole n) = some (n - 1)

module _ (s : Services) where
  -- The beginning of each `main`, for one target chain.
  unfoldable pub load_sender : SdkChain → Outcome Sender
  load_sender target_chain = Js.◌>>=◌ s.load_config λ configs.
      Js.◌>>=◌ (nnull (find_chain (s.chain_id Sdk.solana) configs.supported_chains)) λ solana.
        Js.◌>>=◌ (nnull (find_chain (s.chain_id target_chain) configs.supported_chains)) λ target.
          Js.◌>>=◌ (nnull configs.private_key) λ raw.
            Js.◌>>=◌ (s.keypair raw)
              λ payer. ok (record { solana = solana; target = target; payer = payer })

  -- `native_chain` is the chain whose form of address the target's bridge address has.
  unfoldable pub transfer_of : Sender → ℕ → Outcome SolTransfer
  transfer_of x native_chain = Js.◌>>=◌ (nnull x.solana.bridge_address) λ bridge.
      Js.◌>>=◌ (nnull x.solana.token_bridge_address) λ token_bridge.
        Js.◌>>=◌ (nnull x.target.bridge_address) λ target_bridge.
          Js.◌>>=◌ (s.try_native_to_uint8_array target_bridge native_chain) λ target_address.
            ok (record {
              node_url = x.solana.node_url;
              bridge_address = bridge;
              token_bridge_address = token_bridge;
              payer = x.payer;
              amount = sol_send_native_fee;
              target_address = target_address;
              target_chain = x.target.chain_id;
            })

  -- The transaction, which the payer then signs.
  unfoldable pub build : Sender → ℕ → Exec World Bytes
  unfolding ask
  build x native_chain = do
    transfer ← lift (transfer_of x native_chain)
    ask s.transfers (transfer_native_sol transfer)

  -- A transfer that is waited for, and its sequence number.
  unfoldable pub send_confirmed : Sender → ℕ → Exec World Text
  send_confirmed x native_chain = do
    tx ← build x native_chain
    signature ← ask s.confirms (send_and_confirm x.payer tx)
    found ← ask s.logs (get_transaction signature)
    log ← lift (nnull found)
    lift (s.parse_sequence_from_log_solana log)

  unfoldable pub send_unconfirmed : Sender → ℕ → Exec World (Unit {0})
  unfolding start
  send_unconfirmed x native_chain = do
    tx ← build x native_chain
    start (send_and_confirm x.payer tx)

  unfoldable pub fetch : Sender → Text → Exec World Bytes
  unfolding ask
  fetch x sequence = do
    token_bridge ← lift (nnull x.solana.token_bridge_address)
    emitter ← lift (s.emitter_address_solana token_bridge)
    ask s.vaas (get_signed_vaa wormhole_guardian_rpc emitter sequence)

  -- `try { await getSignedVAAWithRetry(…) } catch (e) { console.error(e) }`
  unfoldable pub try_fetch : Sender → Text → Exec World (Unit {0})
  try_fetch x sequence = catch (do vaa ← fetch x sequence; pure tt) (λ e. pure tt)

  -- `main` of sendSolanaNativeToAvax.ts.
  unfoldable pub send_to_avax : Exec World (Unit {0})
  send_to_avax = do
    x ← lift (load_sender Sdk.avax)
    start (airdrop x)
    sequence ← send_confirmed x 6
    try_fetch x sequence

  -- `main` and `Sol_Send_Native_to_Polygon` of sendSolanaNativeToPolygon.ts.
  unfoldable pub send_to_polygon : Exec World (Unit {0})
  send_to_polygon = do
    x ← lift (load_sender Sdk.polygon)
    sequence ← send_confirmed x (s.chain_id Sdk.polygon)
    vaa ← fetch x sequence
    lift (s.parse_transfer vaa)

  -- `for (let i = 1; i < times; i++)`, by the rounds that are left.
  unfoldable pub send_times : Sender → ℕ → Exec World (Unit {0})
  send_times x zero = pure tt
  send_times x (suc n) = do send_unconfirmed x 6; send_times x n

  -- A round of the endless loop.
  unfoldable pub loop_round : Sender → Exec World (Unit {0})
  loop_round x = catch (do send_unconfirmed x 6; start (airdrop x)) (λ e. pure tt)

  unfoldable pub loop_rounds : Sender → ℕ → Exec World (Unit {0})
  loop_rounds x zero = pure tt
  loop_rounds x (suc n) = do loop_round x; loop_rounds x n

  unfoldable pub send_rounds : Sender → Text → (seen : ℕ) → Option ℕ → Exec World Progress
  send_rounds x sequence seen none = do send_times x seen; pure running
  send_rounds x sequence seen (some n) = do send_times x n; try_fetch x sequence; pure ended

  unfoldable pub after_first : Sender → Text → Text → Count → ℕ → Exec World Progress
  after_first x sequence argument number seen =
      if text_eq argument (text "loop")
      then (do loop_rounds x seen; pure running)
      else send_rounds x sequence seen (rounds_of number)

  -- `main` of sendSolanaNative.ts with its argument, and the number of rounds of a loop without an
  -- end that are looked at.
  unfoldable pub send_native : (argument : Text) (number : Count) (seen : ℕ) → Exec World Progress
  send_native argument number seen = do
    x ← lift (load_sender Sdk.avax)
    start (airdrop x)
    sequence ← send_confirmed x 6
    after_first x sequence argument number seen

-- `main().catch(e => { console.error(e); process.exit(1) })`
unfoldable pub exit_code {ℓ} : {A : Type ℓ} → Outcome A × World → ℕ
exit_code (ok a, w) = 0
exit_code (throws e, w) = 1
