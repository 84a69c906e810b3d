-- ===== src/Network.antt =====
-- The contracts of several chains together: `sendTokensWithPayload` on one chain, the token
-- bridge's message, `redeemTransferWithPayload` on another. A step is a transaction on one chain,
-- or whatever else happens there; steps of the chains interleave in any order. Wormhole is not part
-- of the sources: what it promises is `Promised`, `Attested` and `Others`.
pub mod Posted
pub mod Linked
pub mod Asking
pub mod Reached
pub mod Owed
pub mod Delivered
mod Tests
use nimble_xchain_contracts.Prelude.{
  ℕ, ◌==◌, ◌≡◌, ◌≢◌, ◌⊎◌, ◌↔◌, Bool, true, false, ◌&&◌, List, [], ◌∷◌, length, if◌then◌else◌,
}
use mathlib.Core.List.{Memᴰ}
use nimble_xchain_contracts.Js.{Outcome, ok}
use nimble_xchain_contracts.Xchain.{Bytes, all_zero, State}
use nimble_xchain_contracts.Xchain.Governance.{register_emitter, update_relayer_fee}
use nimble_xchain_contracts.Xchain.Fees.{SafeMath}
use nimble_xchain_contracts.Xchain.Transfers.{
  Vm, TransferWithPayload, Order, Chain, send_tokens_with_payload, redeem_transfer_with_payload,
}

-- A transfer that the token bridge of a chain published: who ordered it, in 32 bytes, and its number.
pub record Message : Type 0 where
  pub from : Bytes
  pub sequence : ℕ
  pub order : Order

-- The chains with their contracts' addresses, also in 32 bytes, and what can be seen of the
-- token bridges: the published messages, the chains and numbers of completed ones, and what
-- an encoded message says, with the chain that it comes from.
pub record Wormhole (W : Type 0) : Type 1 where
  pub chains : ℕ → Chain W
  pub address : ℕ → Bytes
  pub emitter : ℕ → Bytes
  pub posted : W → Message → Type 0
  pub claimed : W → ℕ → ℕ → Bool
  pub said : Bytes → ℕ × Message

-- What the documentation of Wormhole's token bridge promises of the chain `c`.
pub record Promised {W : Type 0} (k : Wormhole W) (c : ℕ) : Type 1 where
  pub transfer_keeps :
      (token to : Bytes) (n : ℕ) (w w' : W)
      → (k.chains c).transfer token to n w ≡ ok w'
      → (k.posted w' ≡ k.posted w) × (k.claimed w' ≡ k.claimed w)
  pub transfer_from_keeps :
      (token from to : Bytes) (n : ℕ) (w w' : W)
      → (k.chains c).transfer_from token from to n w ≡ ok w'
      → (k.posted w' ≡ k.posted w) × (k.claimed w' ≡ k.claimed w)
  pub approve_keeps :
      (token spender : Bytes) (n : ℕ) (w w' : W)
      → (k.chains c).approve token spender n w ≡ ok w'
      → (k.posted w' ≡ k.posted w) × (k.claimed w' ≡ k.claimed w)
  -- an order is published under the contract's address and a number that was not used before
  pub posts :
      (o : Order) (w w' : W) (sequence : ℕ)
      → (k.chains c).transfer_tokens_with_payload o w ≡ ok (sequence, w')
      → (x : Message)
      → k.posted w' x
        ↔ ((x ≡ record { from = k.emitter c; sequence = sequence; order = o }) ⊎ k.posted w x)
  pub numbers :
      (o : Order) (w w' : W) (sequence : ℕ)
      → (k.chains c).transfer_tokens_with_payload o w ≡ ok (sequence, w')
      → (x : Message) → k.posted w x
      → x.sequence ≢ sequence
  pub posting_keeps :
      (o : Order) (w w' : W) (sequence : ℕ)
      → (k.chains c).transfer_tokens_with_payload o w ≡ ok (sequence, w')
      → k.claimed w' ≡ k.claimed w
  -- a message is read as it was published, and completed once, by the contract that it is for
  pub parses :
      (encoded : Bytes) (w : W) (vm : Vm)
      → (k.chains c).parse_vm w encoded ≡ ok vm
      → vm.emitter_chain_id ≡ (k.said encoded).0
  pub reads :
      (encoded : Bytes) (w : W) (p : Bytes × W) (t : TransferWithPayload)
      → (k.chains c).complete_transfer_with_payload encoded w ≡ ok p
      → (k.chains c).parse_transfer_with_payload (p.1) (p.0) ≡ ok t
      → (t.from_address ≡ ((k.said encoded).1).from)
        × (t.payload ≡ ((k.said encoded).1).order.payload)
  pub addressed :
      (encoded : Bytes) (w : W) (p : Bytes × W)
      → (k.chains c).complete_transfer_with_payload encoded w ≡ ok p
      → (((k.said encoded).1).order.target_chain ≡ c)
        × (k.claimed w ((k.said encoded).0) (((k.said encoded).1).sequence) ≡ false)
  pub completing_keeps :
      (encoded : Bytes) (w : W) (p : Bytes × W)
      → (k.chains c).complete_transfer_with_payload encoded w ≡ ok p
      → k.posted (p.1) ≡ k.posted w
  pub claims :
      (encoded : Bytes) (w : W) (p : Bytes × W)
      → (k.chains c).complete_transfer_with_payload encoded w ≡ ok p
      → (d s : ℕ)
      → k.claimed (p.1) d s ≡ (
          if d == (k.said encoded).0 && s == ((k.said encoded).1).sequence
          then true
          else k.claimed w d s)

-- What a user asked the contract of the chain `source` for, under the number that the bridge gave it.
pub record Asked : Type 0 where
  pub source : ℕ
  pub sequence : ℕ
  pub target_chain : ℕ
  pub recipient : Bytes

-- Each chain has a contract and the rest of its state; `asked` is what users have asked for.
pub record Network (W : Type 0) : Type 0 where
  pub contracts : ℕ → State
  pub worlds : ℕ → W
  pub asked : List Asked

abbrev pub set_at : {A : Type 0} → ℕ → A → (ℕ → A) → ℕ → A
set_at c a f d = if d == c then a else f d

pub data Event : Type 0 where
  sent : Asked → Event
  redeemed : (chain source sequence : ℕ) → Event
  silent : Event

module _ {W : Type 0} (k : Wormhole W) where
  -- The guardians sign only what a chain's bridge has published, and nobody has the address zero.
  pub record Attested (n : Network W) (encoded : Bytes) : Type 0 where
    pub published : k.posted (n.worlds ((k.said encoded).0)) ((k.said encoded).1)
    pub by_someone : all_zero ((k.said encoded).1).from ≡ false

  -- What the bridge of `c` publishes and completes from `n` on.
  pub record Grows (n : Network W) (c : ℕ) (w' : W) : Type 0 where
    pub kept : (x : Message) → k.posted (n.worlds c) x → k.posted w' x
    -- only the contract orders in its own name
    pub own : (x : Message) → k.posted w' x → x.from ≡ k.emitter c → k.posted (n.worlds c) x
    pub numbered : (x y : Message) → k.posted w' x → k.posted w' y → x.sequence ≡ y.sequence → x ≡ y
    -- only a published message is completed
    pub published :
        (d s : ℕ)
        → k.claimed w' d s ≡ true
        → (x : Message) × k.posted (n.worlds d) x × (x.sequence ≡ s)

  -- What others do on the chain `c`: they complete no message that is for the contract.
  pub record Others (n : Network W) (c : ℕ) (w' : W) : Type 0 where
    pub grows : Grows n c w'
    pub left :
        (d : ℕ) (x : Message)
        → k.posted (n.worlds d) x
        → x.order.target_contract ≡ k.emitter c
        → k.claimed w' d x.sequence ≡ k.claimed (n.worlds c) d x.sequence

  -- Newly deployed contracts, which have ordered nothing.
  pub record Initial (n : Network W) : Type 0 where
    pub none_asked : n.asked ≡ []
    pub none_registered : (c d : ℕ) → all_zero ((n.contracts c).registered_emitters d) ≡ true
    pub none_posted : (c : ℕ) (x : Message) → k.posted (n.worlds c) x → x.from ≢ k.emitter c
    pub numbered :
        (c : ℕ) (x y : Message)
        → k.posted (n.worlds c) x
        → k.posted (n.worlds c) y
        → x.sequence ≡ y.sequence
        → x ≡ y
    pub published :
        (c d s : ℕ)
        → k.claimed (n.worlds c) d s ≡ true
        → (x : Message) × k.posted (n.worlds d) x × (x.sequence ≡ s)

  -- Asked for and not yet redeemed.
  abbrev pub Owed : Network W → Asked → Type 0
  Owed n a = Memᴰ a n.asked × (k.claimed (n.worlds a.target_chain) a.source a.sequence ≡ false)

  -- The specification: what an event does to what is owed.
  abbrev pub Specified : Network W → Event → Network W → Type 0
  Specified n (sent a) n' = ¬ (Owed n a) × ((b : Asked) → Owed n' b ↔ ((b ≡ a) ⊎ Owed n b))
  Specified n (redeemed c source sequence) n' =
      (a : Asked) × Owed n a
      × (a.target_chain ≡ c)
      × (a.source ≡ source)
      × (a.sequence ≡ sequence)
      × ((b : Asked) → Owed n' b ↔ (Owed n b × (b ≢ a)))
  Specified n silent n' = (b : Asked) → Owed n' b ↔ Owed n b

module _ {W : Type 0} (m : SafeMath) (k : Wormhole W) where
  -- The owners register only the contracts of the other chains.
  pub data Step (n : Network W) : Event → Network W → Type 0 where
    sends :
        (c : ℕ) (sender token : Bytes) (amount target_chain batch_id : ℕ) (recipient : Bytes)
        (value sequence : ℕ) (w' : W)
        → length recipient ≡ 32
        → send_tokens_with_payload m
            (k.chains c)
            (k.address c)
            sender
            (n.contracts c)
            token
            amount
            target_chain
            batch_id
            recipient
            value
            (n.worlds c)
          ≡ ok (sequence, w')
        → Step n
            (sent (record {
              source = c;
              sequence = sequence;
              target_chain = target_chain;
              recipient = recipient;
            }))
            (record n {
              worlds = set_at c w' n.worlds;
              asked =
                  record {
                    source = c;
                    sequence = sequence;
                    target_chain = target_chain;
                    recipient = recipient;
                  }
                  ∷ n.asked;
            })
    redeems :
        (c : ℕ) (sender encoded : Bytes) (w' : W)
        → Attested k n encoded
        → redeem_transfer_with_payload m
            (k.chains c)
            (k.address c)
            sender
            (n.contracts c)
            encoded
            (n.worlds c)
          ≡ ok w'
        → Step n
            (redeemed c ((k.said encoded).0) (((k.said encoded).1).sequence))
            (record n { worlds = set_at c w' n.worlds })
    registers :
        (c : ℕ) (sender : Bytes) (d : ℕ) (st : State)
        → register_emitter sender d (k.emitter d) (n.contracts c) ≡ ok st
        → Step n silent (record n { contracts = set_at c st n.contracts })
    updates :
        (c : ℕ) (sender : Bytes) (percentage precision : ℕ) (st : State)
        → update_relayer_fee sender percentage precision (n.contracts c) ≡ ok st
        → Step n silent (record n { contracts = set_at c st n.contracts })
    moves :
        (c : ℕ) (w' : W)
        → Others k n c w'
        → Step n silent (record n { worlds = set_at c w' n.worlds })

  pub data Reach : Network W → Type 0 where
    starts : {n : Network W} → Initial k n → Reach n
    later : {n n' : Network W} (e : Event) → Reach n → Step n e n' → Reach n'
