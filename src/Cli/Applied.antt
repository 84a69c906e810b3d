-- ===== src/Cli/Applied.antt =====
-- The administrator's commands and the contracts that they call: what a contract's state is after the
-- transactions that were sent to it.
pub mod Steps
pub mod Registrations
pub mod FreshContracts
pub mod FeesSet
mod Tests
use nimble_xchain_contracts.Prelude.{
  ℕ, ◌^◌, ltb, List, [], ◌∷◌, Bool, true, false, ◌&&◌, if◌then◌else◌,
}
use nimble_xchain_contracts.Js.{Text, text_eq, Outcome, ok, throws}
use nimble_xchain_contracts.Cli.{Contract, Call, Receipt, Services, run, register, update_fee}
use nimble_xchain_contracts.Xchain.{Bytes, State}
use nimble_xchain_contracts.Xchain.Governance

-- A transaction that reverts leaves the state as it was.
abbrev pub kept : State → Outcome State → State
kept st (ok t) = t
kept st (throws e) = st

-- The same address on the same chain.
unfoldable pub same_contract : Contract → Contract → Bool
same_contract a b = text_eq a.provider b.provider && text_eq a.address b.address

-- `address_of` is the address of a wallet's key, and `bytes_of` the bytes that a hex string stands for.
-- A call that the chain refuses, or whose transaction fails, is caught by the command and leaves the
-- contract as it was.
abbrev pub answered : Outcome Receipt → State → State → State
answered (ok receipt) done before = done
answered (throws e) done before = before

module _ (address_of bytes_of : Text → Bytes) where
  -- The transaction of one call at the contract that it is sent to. The contract's interface has a
  -- `uint16` for the chain and a `uint32` for the fee, and a call with more is not sent.
  unfoldable pub transact : Call → State → State
  transact (run command) st = st
  transact (register contract chain emitter) st =
      if ltb chain (2 ^ 16)
      then kept st
          (Governance.register_emitter (address_of contract.signer_key) chain (bytes_of emitter) st)
      else st
  transact (update_fee contract percentage precision) st =
      if ltb percentage (2 ^ 32) && ltb precision (2 ^ 32)
      then kept st
          (Governance.update_relayer_fee (address_of contract.signer_key) percentage precision st)
      else st

  -- The contract that a call is sent to, if it is `contract`.
  unfoldable pub is_sent_to : Contract → Call → Bool
  unfolding same_contract
  is_sent_to contract (run command) = false
  is_sent_to contract (register other chain emitter) = same_contract contract other
  is_sent_to contract (update_fee other percentage precision) = same_contract contract other

  -- The state of `contract` after the calls, of which the newest is the first, with what the chain
  -- answered to each.
  unfoldable pub after_calls : Services → Contract → List Call → State → State
  after_calls s contract [] st = st
  after_calls s contract (call ∷ calls) st =
      let before = after_calls s contract calls st in
      if is_sent_to contract call
      then answered (s.answers calls call) (transact call before) before
      else before
