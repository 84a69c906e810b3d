-- ===== src/Program/Signatures.antt =====
-- What can be done to the program's accounts without the owner's signature.
use nimble_xchain_contracts.Prelude.{
  ℕ, ◌≡◌, ◌<◌, ◌↔◌, ◌⊎◌, inl, inr, refl, arith, true, false, ◌&&◌,
}
use nimble_xchain_contracts.Js.{text_eq, text_eq_refl, ok}
use nimble_xchain_contracts.Xchain.{Bytes}
use nimble_xchain_contracts.Program
use nimble_xchain_contracts.Program.{AccountInfo, Accounts, register_foreign_contract}

-- The owner's key with the owner's signature.
abbrev pub IsSignedBy : Bytes → AccountInfo → Type 0
IsSignedBy owner a = (a.is_signer && text_eq owner a.key) ≡ true

-- Instructions in which no account is the owner's with a signature, in any number.
pub data Unsigned (solana : ℕ) (owner : Bytes) (s : Accounts) : Accounts → Type 0 where
  starts : Unsigned solana owner s s
  registers :
      {t u : Accounts} (a : AccountInfo) (chain : ℕ) (address endpoint : Bytes)
      → Unsigned solana owner s t
      → ¬ (IsSignedBy owner a)
      → register_foreign_contract solana a chain address endpoint t ≡ ok u
      → Unsigned solana owner s u
  updates :
      {t u : Accounts} (a : AccountInfo) (relayer_fee relayer_fee_precision : ℕ)
      → Unsigned solana owner s t
      → ¬ (IsSignedBy owner a)
      → Program.update_relayer_fee a relayer_fee relayer_fee_precision t ≡ ok u
      → Unsigned solana owner s u

-- The accounts with another fee.
abbrev pub with_fee : ℕ → ℕ → Accounts → Accounts
with_fee relayer_fee relayer_fee_precision s = record s {
  redeemer_config = record {
    owner = s.redeemer_config.owner;
    relayer_fee = relayer_fee;
    relayer_fee_precision = relayer_fee_precision;
  };
}

abbrev pub FeeChanged : Accounts → Accounts → Type 0
FeeChanged s t =
    (t ≡ s)
    ⊎ ((relayer_fee : ℕ) × (relayer_fee_precision : ℕ) × (relayer_fee < relayer_fee_precision)
        × (t ≡ with_fee relayer_fee relayer_fee_precision s))

registers_signed :
    (solana chain : ℕ) (address endpoint : Bytes) (a : AccountInfo) (t u : Accounts)
    → register_foreign_contract solana a chain address endpoint t ≡ ok u
    → IsSignedBy t.sender_owner a
unfolding register_foreign_contract
registers_signed solana chain address endpoint a t u h = ground arith

updates_fee :
    (a : AccountInfo) (relayer_fee relayer_fee_precision : ℕ) (t u : Accounts)
    → Program.update_relayer_fee a relayer_fee relayer_fee_precision t ≡ ok u
    → (relayer_fee < relayer_fee_precision) × (u ≡ with_fee relayer_fee relayer_fee_precision t)
unfolding Program.update_relayer_fee
updates_fee a relayer_fee relayer_fee_precision t u h = (ground arith, ground arith)

kept_owner : (s t : Accounts) → FeeChanged s t → t.sender_owner ≡ s.sender_owner
kept_owner s t (inl same) = rw same refl
kept_owner s t (inr (fee, precision, below, same)) = rw same refl

changed_again :
    (s t u : Accounts) (fee precision : ℕ)
    → FeeChanged s t
    → fee < precision
    → u ≡ with_fee fee precision t
    → FeeChanged s u
changed_again s t u fee precision (inl same) below h = inr (fee, precision, below, rw same at h)
changed_again s t u fee precision (inr (f, p, _, same)) below h =
    inr (fee, precision, below, rw same at h)

module _ (solana : ℕ) (s : Accounts) where
  Unsigned-FeeChanged : {t : Accounts} → Unsigned solana s.sender_owner s t → FeeChanged s t
  Unsigned-FeeChanged starts = inl refl
  Unsigned-FeeChanged {t = u} (registers {t} a chain address endpoint r unsigned h) = absurd (
      unsigned (
        rw (kept_owner s t (Unsigned-FeeChanged r)) at
          (registers_signed solana chain address endpoint a t u h)))
  Unsigned-FeeChanged {t = u} (updates {t} a fee precision r unsigned h) =
      let (below, changed) = updates_fee a fee precision t u h in
      changed_again s t u fee precision (Unsigned-FeeChanged r) below changed

  FeeChanged-Unsigned : {t : Accounts} → FeeChanged s t → Unsigned solana s.sender_owner s t
  unfolding Program.update_relayer_fee
  FeeChanged-Unsigned (inl same) = rw same starts
  FeeChanged-Unsigned {t} (inr (fee, precision, below, same)) =
      updates (record { key = s.redeemer_config.owner; is_signer = false }) fee precision starts
        (λ h. cc) (ground (arith, text_eq_refl s.redeemer_config.owner))

  -- What any number of registrations and updates of the fee that succeed can lead to, in which the
  -- owner of the sender's configuration does not sign, is exactly the accounts as they were, or with
  -- any fee below its precision: no foreign contract is registered or replaced and no owner changed,
  -- but the relayer's fee is anyone's to set.
  pub Unsigned-iff : {t : Accounts} → Unsigned solana s.sender_owner s t ↔ FeeChanged s t
  Unsigned-iff = (Unsigned-FeeChanged, FeeChanged-Unsigned)
