-- ===== src/Program/Reachable.antt =====
-- What holds of the program's accounts from their creation on.
use nimble_xchain_contracts.Prelude.{
  ℕ, ◌≡◌, ◌<◌, Bool-cases, inl, inr, ◌==◌, sym, arith, false, if◌then◌else◌, Option, none, some,
}
use nimble_xchain_contracts.Js.{ok}
use nimble_xchain_contracts.Xchain.{Bytes, all_zero}
use nimble_xchain_contracts.Program
use nimble_xchain_contracts.Program.{
  AccountInfo, ForeignContract, Accounts, initialize, register_foreign_contract,
}

-- The accounts from their creation on, whoever sends instructions.
pub data Reach (solana : ℕ) (creator : AccountInfo) : Accounts → Type 0 where
  creates :
      {s : Accounts} (relayer_fee relayer_fee_precision : ℕ)
      → initialize creator relayer_fee relayer_fee_precision none ≡ ok s
      → Reach solana creator s
  registers :
      {s t : Accounts} (owner : AccountInfo) (chain : ℕ) (address endpoint : Bytes)
      → Reach solana creator s
      → register_foreign_contract solana owner chain address endpoint s ≡ ok t
      → Reach solana creator t
  updates :
      {s t : Accounts} (owner : AccountInfo) (relayer_fee relayer_fee_precision : ℕ)
      → Reach solana creator s
      → Program.update_relayer_fee owner relayer_fee relayer_fee_precision s ≡ ok t
      → Reach solana creator t

-- The account of a chain, if there is one, is that of a contract of that chain with an address.
abbrev pub IsRegistered : ℕ → ℕ → Option ForeignContract → Type 0
IsRegistered solana c none = Unit {0}
IsRegistered solana c (some f) =
    (f.chain ≡ c) × (0 < c) × ((c == solana) ≡ false) × (all_zero f.address ≡ false)

pub record AreSound (solana : ℕ) (creator : AccountInfo) (s : Accounts) : Type 0 where
  pub sender : s.sender_owner ≡ creator.key
  pub redeemer : s.redeemer_config.owner ≡ creator.key
  pub fee_below : s.redeemer_config.relayer_fee < s.redeemer_config.relayer_fee_precision
  pub contracts : (c : ℕ) → IsRegistered solana c (s.foreign_contracts c)

module _ (solana : ℕ) (creator : AccountInfo) where
  initialize-AreSound :
      (relayer_fee relayer_fee_precision : ℕ) (s : Accounts)
      → initialize creator relayer_fee relayer_fee_precision none ≡ ok s
      → AreSound solana creator s
  unfolding initialize
  initialize-AreSound relayer_fee relayer_fee_precision s h = record {
    sender = ground arith;
    redeemer = ground arith;
    fee_below = ground arith;
    contracts = λ c. let empty : s.foreign_contracts c ≡ none = ground arith in rw empty tt;
  }

  register_foreign_contract-AreSound :
      (owner : AccountInfo) (chain : ℕ) (address endpoint : Bytes) (s t : Accounts)
      → register_foreign_contract solana owner chain address endpoint s ≡ ok t
      → AreSound solana creator s
      → AreSound solana creator t
  unfolding register_foreign_contract
  register_foreign_contract-AreSound owner chain address endpoint s t h v = record {
    sender = ground arith;
    redeemer = ground arith;
    fee_below = ground arith;
    contracts = λ c.
        let changed : t.foreign_contracts c ≡ (
            if c == chain
            then some (record {
              chain = chain;
              address = address;
              token_bridge_foreign_endpoint = endpoint;
            })
            else s.foreign_contracts c) =
          ground arith in
        rw changed (elim (Bool-cases (c == chain)) [
          | inl same ↦
              let is_chain : c ≡ chain = ground arith in
              rw same (sym is_chain, ground arith, ground arith, ground arith)
          | inr other ↦ rw other (v.contracts c)
        ]);
  }

  update_relayer_fee-AreSound :
      (owner : AccountInfo) (relayer_fee relayer_fee_precision : ℕ) (s t : Accounts)
      → Program.update_relayer_fee owner relayer_fee relayer_fee_precision s ≡ ok t
      → AreSound solana creator s
      → AreSound solana creator t
  unfolding Program.update_relayer_fee
  update_relayer_fee-AreSound owner relayer_fee relayer_fee_precision s t h v = ground arith

-- From their creation on, whoever sends instructions, the accounts keep the creator as the owner, the
-- relayer's fee is below its precision, and the account of a chain is that of a contract of this chain,
-- neither of Solana nor of chain 0, with an address that is not zero.
pub Reach-AreSound :
    (solana : ℕ) (creator : AccountInfo) {s : Accounts}
    → Reach solana creator s
    → AreSound solana creator s
Reach-AreSound solana creator {s} (creates relayer_fee relayer_fee_precision h) =
    initialize-AreSound solana creator relayer_fee relayer_fee_precision s h
Reach-AreSound solana creator {s = t} (registers {s} owner chain address endpoint r h) =
    register_foreign_contract-AreSound solana creator owner chain address endpoint s t h
      (Reach-AreSound solana creator r)
Reach-AreSound solana creator {s = t} (updates {s} owner relayer_fee relayer_fee_precision r h) =
    update_relayer_fee-AreSound solana creator owner relayer_fee relayer_fee_precision s t h
      (Reach-AreSound solana creator r)
