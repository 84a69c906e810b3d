-- ===== src/Wasm/Transfers.antt =====
-- The functions of src/xchain.rs that move tokens. cosmwasm-std, the token contracts and Wormhole
-- are a parameter `Querier` over the rest of the chain's state `W`. None of these functions writes
-- the storage; a `CosmosMsg` is only built: to have effect, a message stands in the `Response` of
-- an entry point.
use nimble_xchain_contracts.Prelude.{ℕ, ◌-◌, ◌/◌, ◌^◌, ltb, leb, ◌++◌, length, if◌then◌else◌}
use nimble_xchain_contracts.Js.{Text, text, Outcome, ok, throws, error, ◌>>=◌}
use nimble_xchain_contracts.Xchain.{Bytes, zeros}
use nimble_xchain_contracts.Wasm.{Storage, unwrap}
use nimble_xchain_contracts.Wasm.Payload.{PayloadInfo, serialize, get_u16, get_const_bytes}

abbrev pub uint128_mod : ℕ
uint128_mod = 2 ^ 128

-- What the contract asks of the chain and of cosmwasm-std: `multiply_ratio` of `Uint128`.
pub record Querier (W : Type 0) : Type 0 where
  pub multiply_ratio : (a numerator denominator : ℕ) → Outcome ℕ
  pub addr_canonicalize : Text → Outcome Bytes
  pub addr_humanize : Bytes → Outcome Text
  pub wrapped_registry : W → (wormhole : Text) → (chain : ℕ) → Bytes → Outcome Text
  pub balance : W → (contract holder : Text) → Outcome ℕ

-- `WormholeExecuteMsg::InitiateTransferWithPayload`, for the contract `contract_addr`.
pub record InitiateTransferWithPayload : Type 0 where
  pub contract_addr : Text
  pub denom : Text
  pub amount : ℕ
  pub recipient_chain : ℕ
  pub recipient : Bytes
  pub fee : ℕ
  pub payload : Bytes
  pub nonce : ℕ

-- `TokenMsg::TransferFrom`, for the contract `contract_addr`.
pub record TransferFrom : Type 0 where
  pub contract_addr : Text
  pub owner : Text
  pub recipient : Text
  pub amount : ℕ

-- The message that `send_token_with_payload` builds.
unfoldable pub transfer_built :
    (amount target_chain wormhole_fee : ℕ) (target_recipient : Bytes) (denom : Text)
    → Storage
    → Outcome InitiateTransferWithPayload
unfolding serialize
transfer_built amount target_chain wormhole_fee target_recipient denom s = do
  target_addr ← unwrap (s.registered_emitters target_chain)
  state ← unwrap s.state_info
  let payload : PayloadInfo = record { payload_id = 1; target_recipient = target_addr }
  ok (record {
    contract_addr = state.wormhole;
    denom = denom;
    amount = amount;
    recipient_chain = target_chain;
    recipient = target_addr;
    fee = wormhole_fee;
    payload = serialize payload;
    nonce = 0;
  })

-- It is dropped.
unfoldable pub send_token_with_payload :
    (amount target_chain wormhole_fee : ℕ) (target_recipient : Bytes) (denom : Text)
    → Storage
    → Outcome (Unit {0})
unfolding transfer_built
send_token_with_payload amount target_chain wormhole_fee target_recipient denom s = do
  message ← transfer_built amount target_chain wormhole_fee target_recipient denom s
  ok tt

-- `extend_address_to_32_array`: padded with zeros on the left; a longer address panics.
unfoldable pub extend_address_to_32_array : Bytes → Outcome Bytes
extend_address_to_32_array addr =
    if ltb 32 (length addr)
    then throws (error (text "attempt to subtract with overflow"))
    else ok (zeros (32 - length addr) ++ addr)

module _ {W : Type 0} (q : Querier W) where
  -- The holder is the token's own contract.
  unfoldable pub get_balance : W → (addr : Text) → Outcome ℕ
  get_balance w addr = q.balance w addr addr

  -- `new_balance - prev_balance`, which panics below zero.
  unfoldable pub custody_token : (contract sender token : Text) → ℕ → W → Outcome ℕ
  unfolding get_balance
  custody_token contract sender token amount w = do
    prev_balance ← get_balance w token
    let message : TransferFrom = record {
      contract_addr = token;
      owner = sender;
      recipient = contract;
      amount = amount;
    }
    new_balance ← get_balance w token
    (if ltb new_balance prev_balance
        then throws (error (text "attempt to subtract with overflow"))
        else ok (new_balance - prev_balance))

  unfoldable pub address_to_bytes32 : Text → Outcome Bytes
  unfolding extend_address_to_32_array
  address_to_bytes32 address = do
    canonical ← q.addr_canonicalize address
    extend_address_to_32_array canonical

  unfoldable pub bytes32_to_address : Bytes → Outcome Text
  bytes32_to_address address = q.addr_humanize address

  unfoldable pub fetch_local_addr_from_transfer_msg : Bytes → Storage → W → Outcome Text
  unfolding bytes32_to_address get_u16 get_const_bytes
  fetch_local_addr_from_transfer_msg payload s w = do
    source_addr ← get_const_bytes 32 payload 33
    token_chain ← get_u16 payload 65
    state ← unwrap s.state_info
    (if ltb state.chain_id token_chain
        then q.wrapped_registry w state.wormhole token_chain source_addr
        else bytes32_to_address source_addr)

  unfoldable pub calculate_relayer_fee : ℕ → Storage → Outcome ℕ
  calculate_relayer_fee amount s = do
    state ← unwrap s.state_info
    q.multiply_ratio amount state.relayer_fee_percentage state.fee_precision

-- The power is checked.
unfoldable pub normalize_amount : (amount decimals : ℕ) → Outcome ℕ
normalize_amount amount decimals =
    if ltb 8 decimals
    then if leb uint128_mod (10 ^ (decimals - 8))
      then throws (error (text "attempt to multiply with overflow"))
      else ok (amount / 10 ^ (decimals - 8))
    else ok (amount / 1)
