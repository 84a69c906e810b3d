-- ===== src/Solana/Keys/Distinct.antt =====
-- No two accounts of the program share an address by their seeds.
use nimble_xchain_contracts.Prelude.{
  ℕ, zero, suc, ◌*◌, ◌/◌, ◌%◌, ◌^◌, ◌<◌, ◌≡◌, refl, sym, ap, ◌∙◌, arith, List, [], ◌∷◌, ◌++◌,
}
use nimble_xchain_contracts.Js.{ok, returned, ◌>>=◌}
use nimble_xchain_contracts.Solana.Sdk.{Bytes}
use nimble_xchain_contracts.Solana.Keys.{
  le_bytes, write_le, Account, sender_config, redeemer_config, foreign_contract,
  token_transfer_message, tmp_token_account, seeds_of,
}

-- The bytes that the hash of an address reads: the seeds, with nothing between them.
unfoldable pub joined : List Bytes → Bytes
joined [] = []
joined (seed ∷ seeds) = seed ++ joined seeds

quotient_small : (m p q : ℕ) → p ≡ q * 256 → m < p → m / 256 < q
quotient_small m p q same small = omega arith

first_byte : (b c : ℕ) (s t : Bytes) → b ∷ s ≡ c ∷ t → b ≡ c
first_byte b c s t h = ground arith

other_bytes : (b c : ℕ) (s t : Bytes) → b ∷ s ≡ c ∷ t → s ≡ t
other_bytes b c s t h = ground arith

le_bytes_injective :
    (width m n : ℕ)
    → m < 256 ^ width
    → n < 256 ^ width
    → le_bytes width m ≡ le_bytes width n
    → m ≡ n
unfolding le_bytes
le_bytes_injective zero m n small_m small_n h = omega arith
le_bytes_injective (suc width) m n small_m small_n h =
    let higher =
      le_bytes_injective width (m / 256) (n / 256)
        (quotient_small m (256 ^ suc width) (256 ^ width) (omega arith) small_m)
        (quotient_small n (256 ^ suc width) (256 ^ width) (omega arith) small_n)
        (other_bytes _ _ _ _ h) in
    let lowest = first_byte (m % 256) (n % 256) _ _ h in omega (arith, higher, lowest)

-- What is written is known to be in range.
pub write_le_returned :
    (width n : ℕ) (buf : Bytes)
    → write_le width n ≡ ok buf
    → (n < 256 ^ width) × (buf ≡ le_bytes width n)
unfolding write_le
write_le_returned width n buf h = (ground arith, ground arith)

append_left : (prefix s t : Bytes) → prefix ++ s ≡ prefix ++ t → s ≡ t
append_left [] s t h = h
append_left (b ∷ prefix) s t h = append_left prefix s t (other_bytes b b _ _ h)

nil_right : (s : Bytes) → s ++ [] ≡ s
nil_right [] = refl
nil_right (b ∷ s) = ap (λ t. b ∷ t) (nil_right s)

append_nil : (s t : Bytes) → s ++ [] ≡ t ++ [] → s ≡ t
append_nil s t h = sym (nil_right s) ∙ h ∙ nil_right t

seed-same :
    (prefix b c : Bytes) (s t : List Bytes)
    → ok (prefix ∷ b ∷ []) ≡ ok s
    → ok (prefix ∷ c ∷ []) ≡ ok t
    → joined s ≡ joined t
    → b ≡ c
unfolding joined
seed-same prefix b c s t is_s is_t h =
    let s_is : prefix ∷ b ∷ [] ≡ s = ground (arith, is_s) in
    let t_is : prefix ∷ c ∷ [] ≡ t = ground (arith, is_t) in
    append_nil b c (append_left prefix _ _ (ap joined s_is ∙ h ∙ ap joined (sym t_is)))

-- Two numbers, written behind one prefix.
written-same :
    (prefix : Bytes) (width m n : ℕ) (s t : List Bytes)
    → (write_le width m >>= λ buf. ok (prefix ∷ buf ∷ [])) ≡ ok s
    → (write_le width n >>= λ buf. ok (prefix ∷ buf ∷ [])) ≡ ok t
    → joined s ≡ joined t
    → m ≡ n
unfolding joined
written-same prefix width m n s t at_m at_n h =
    let (b, is_s, writes_b) = returned _ s (write_le width m) at_m in
    let (c, is_t, writes_c) = returned _ t (write_le width n) at_n in
    let (small_m, is_b) = write_le_returned width m b writes_b in
    let (small_n, is_c) = write_le_returned width n c writes_c in
    le_bytes_injective width m n small_m small_n
      (sym is_b ∙ seed-same prefix b c s t is_s is_t h ∙ is_c)

-- Where the seeds of two accounts, read one after the other, are the same bytes, the accounts are the
-- same: whatever chain, sequence number or mint they are for, a chain's contract is never found
-- at the address of another chain, of a message or of a token account.
pub seeds_of_injective :
    (a b : Account) (s t : List Bytes)
    → seeds_of a ≡ ok s
    → seeds_of b ≡ ok t
    → joined s ≡ joined t
    → a ≡ b
unfolding seeds_of joined
seeds_of_injective sender_config sender_config s t at_a at_b h = refl
seeds_of_injective redeemer_config redeemer_config s t at_a at_b h = refl
seeds_of_injective (foreign_contract m) (foreign_contract n) s t at_a at_b h =
    ap foreign_contract (written-same _ 2 m n s t at_a at_b h)
seeds_of_injective (token_transfer_message m) (token_transfer_message n) s t at_a at_b h =
    ap token_transfer_message (written-same _ 8 m n s t at_a at_b h)
seeds_of_injective (tmp_token_account m) (tmp_token_account n) s t at_a at_b h =
    ap tmp_token_account (seed-same _ m n s t at_a at_b h)
seeds_of_injective _ _ s t at_a at_b h = ground arith
