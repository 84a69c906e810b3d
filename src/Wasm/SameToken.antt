-- ===== src/Wasm/SameToken.antt =====
-- Which token a message names, on Injective and on the EVM chains.
use nimble_xchain_contracts.Prelude.{
  ℕ, zero, suc, ◌+◌, ◌*◌, ◌≤◌, ◌==◌, ◌≡◌, ◌≢◌, refl, ◌∙◌, arith, ltb, [], ◌∷◌, length, take, drop,
  Option, true, false, not, if◌then◌else◌, ◌↔◌, ◌⊎◌, inl, inr, Bool-cases,
}
use nimble_xchain_contracts.Js.{Text, Outcome, ok}
use nimble_xchain_contracts.Xchain.{Bytes}
use nimble_xchain_contracts.Xchain.Messages.{first_byte, to_bytes32, to_uint16}
use nimble_xchain_contracts.Xchain.Fees.{SafeMath}
use nimble_xchain_contracts.Xchain.Transfers as Evm
use nimble_xchain_contracts.Xchain.Transfers.{Chain, attested}
use nimble_xchain_contracts.Wasm.{StateInfo}
use nimble_xchain_contracts.Wasm.Payload.{slice, get_u16, get_const_bytes}
use nimble_xchain_contracts.Wasm.Transfers.{
  Querier, bytes32_to_address, fetch_local_addr_from_transfer_msg,
}
use nimble_xchain_contracts.Wasm.SameState.{stored, seen}

first_taken : (bs : Bytes) → first_byte (take 2 bs) ≡ first_byte bs
first_taken [] = refl
first_taken (b ∷ bs) = refl

second_taken : (bs : Bytes) → first_byte (drop 1 (take 2 bs)) ≡ first_byte (drop 1 bs)
second_taken [] = refl
second_taken (b ∷ []) = refl
second_taken (b ∷ c ∷ bs) = refl

drop_next : (n : ℕ) (bs : Bytes) → drop (suc n) bs ≡ drop 1 (drop n bs)
drop_next zero bs = refl
drop_next (suc n) [] = refl
drop_next (suc n) (b ∷ bs) = drop_next n bs

-- The token's address and chain in a message.
abbrev pub source_of : Bytes → Bytes
source_of payload = take 32 (drop 33 payload)

abbrev pub chain_of : Bytes → ℕ
chain_of payload = first_byte (drop 65 payload) * 256 + first_byte (drop 66 payload)

read_number : (payload : Bytes) → 67 ≤ length payload → get_u16 payload 65 ≡ ok (chain_of payload)
unfolding get_u16 slice
read_number payload long =
    let fits : ltb (length payload) 67 ≡ false = ground arith in
    rw (fits, first_taken (drop 65 payload), second_taken (drop 65 payload), drop_next 65 payload)
      refl

at_own : (a b : ℕ) → (a == b) ≡ true → (b ≤ a) × (ltb b a ≡ false)
at_own a b same = (ground arith, ground arith)

above_own : (a b : ℕ) → ltb b a ≡ true → b ≤ a
above_own a b above = ground arith

below_own : (a b : ℕ) → (a == b) ≡ false → ltb b a ≡ false → ¬ (b ≤ a)
below_own a b differs low h = ground arith

-- What a token's address is taken for: an address of the own chain, or of another one, whose wrapped
-- token the bridge is asked for.
pub data Origin : Type 0 where
  own : (address : Bytes) → Origin
  other : (chain : ℕ) (address : Bytes) → Origin

other_ne_own : (number : ℕ) (address : Bytes) → other number address ≢ own address
other_ne_own number address h = cc

module _ {V W : Type 0} (q : Querier V) (m : SafeMath) (chain : Chain W) (this sender : Bytes)
    (wormhole token_bridge : Bytes) (info : StateInfo) (emitters : ℕ → Option Bytes)
    (payload : Bytes) (long : 67 ≤ length payload) where
  on_evm_chain :
      (w : W)
      → Evm.fetch_local_address_from_transfer_message m chain this sender
          (seen wormhole token_bridge info emitters)
          w
          payload
        ≡ (if not (chain_of payload == info.chain_id)
            then attested m chain this sender
                (seen wormhole token_bridge info emitters)
                (chain.wrapped_asset w (chain_of payload) (source_of payload))
            else Evm.bytes32_to_address (source_of payload))
  unfolding Evm.fetch_local_address_from_transfer_message to_bytes32 to_uint16
  on_evm_chain w =
      let short : ltb (length payload) 65 ≡ false = ground (arith, long) in
      let fits : ltb (length payload) 67 ≡ false = ground (arith, long) in rw (short, fits) refl

  on_injective_chain :
      (v : V)
      → fetch_local_addr_from_transfer_msg q payload (stored info emitters) v ≡ (
          if ltb info.chain_id (chain_of payload)
          then q.wrapped_registry v info.wormhole (chain_of payload) (source_of payload)
          else bytes32_to_address q (source_of payload))
  unfolding fetch_local_addr_from_transfer_msg get_const_bytes slice
  on_injective_chain v =
      let short : ltb (length payload) 65 ≡ false = ground (arith, long) in
      rw (short, read_number payload long) refl

  -- How each contract finds a token of an origin.
  abbrev pub found_on_evm : W → Origin → Outcome Bytes
  found_on_evm w (own address) = Evm.bytes32_to_address address
  found_on_evm w (other number address) =
      attested m chain this sender (seen wormhole token_bridge info emitters)
        (chain.wrapped_asset w number address)

  abbrev pub found_on_injective : V → Origin → Outcome Text
  found_on_injective v (own address) = bytes32_to_address q address
  found_on_injective v (other number address) = q.wrapped_registry v info.wormhole number address

  -- What both contracts take a message's token for, and when this is the same.
  abbrev pub Compared : V → W → Type 0
  Compared v w =
      (on_evm : Origin) × (on_injective : Origin) × ((on_evm ≡ own (source_of payload))
        ⊎ (on_evm ≡ other (chain_of payload) (source_of payload)))
      × ((on_injective ≡ own (source_of payload))
          ⊎ (on_injective ≡ other (chain_of payload) (source_of payload)))
      × (Evm.fetch_local_address_from_transfer_message m chain this sender
            (seen wormhole token_bridge info emitters) w payload
          ≡ found_on_evm w on_evm)
      × (fetch_local_addr_from_transfer_msg q payload (stored info emitters) v
          ≡ found_on_injective v on_injective)
      × ((on_evm ≡ on_injective) ↔ (info.chain_id ≤ chain_of payload))

  -- Of a message of 67 bytes or more both contracts read the same address and chain of the token, and
  -- take it for a token of the own chain or of that other chain. They take it for the same exactly
  -- where the chain's number is not below the own one: of a chain with a lower number, the EVM
  -- contract asks its bridge for the wrapped token, and Injective's takes the address for its own.
  pub fetch_local_addr_from_transfer_msg-same : (v : V) (w : W) → Compared v w
  fetch_local_addr_from_transfer_msg-same v w =
      elim (Bool-cases (chain_of payload == info.chain_id)) [
        | inl same ↦
            let (reached, not_above) = at_own (chain_of payload) info.chain_id same in
            (
              own (source_of payload),
              own (source_of payload),
              inl refl,
              inl refl,
              on_evm_chain w ∙ rw same refl,
              on_injective_chain v ∙ rw not_above refl,
              (λ _. reached, λ _. refl),
            )
        | inr differs ↦ elim (Bool-cases (ltb info.chain_id (chain_of payload))) [
          | inl above ↦ (
            other (chain_of payload) (source_of payload),
            other (chain_of payload) (source_of payload),
            inr refl,
            inr refl,
            on_evm_chain w ∙ rw differs refl,
            on_injective_chain v ∙ rw above refl,
            (λ _. above_own (chain_of payload) info.chain_id above, λ _. refl),
          )
          | inr low ↦ (
            other (chain_of payload) (source_of payload),
            own (source_of payload),
            inr refl,
            inl refl,
            on_evm_chain w ∙ rw differs refl,
            on_injective_chain v ∙ rw low refl,
            (
              λ h. absurd (other_ne_own (chain_of payload) (source_of payload) h),
              λ h. absurd (below_own (chain_of payload) info.chain_id differs low h),
            ),
          )
        ]
      ]
