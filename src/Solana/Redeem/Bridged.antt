-- ===== src/Solana/Redeem/Bridged.antt =====
-- The accounts of a redemption as one table.
use nimble_xchain_contracts.Prelude.{◌≡◌, refl, sym, [], ◌∷◌, ◌++◌, some}
use nimble_xchain_contracts.Js.{text, text_eq, Outcome, ok, ok_injective, returned}
use nimble_xchain_contracts.Js.Object.{own, object_of, define_all, define}
use nimble_xchain_contracts.Solana.Sdk.{
  Key, KeyInit, bytes, Accounts, ParsedTransfer, Sdk, posted_vaa, claim, endpoint, redeemer_account,
  bridge_config,
}
use nimble_xchain_contracts.Solana.Redeem.{with_bridge_accounts}

module _ (s : Sdk) where
  -- The token bridge's accounts of one redemption.
  pub record Bridge (to_token_account : KeyInit) (token_accounts : Outcome Accounts)
      (accounts : Accounts) : Type 0 where
    pub payer : Key
    pub config : Key
    pub vaa : Key
    pub claim_key : Key
    pub foreign_endpoint : Key
    pub to : Key
    pub redeemer : Key
    pub fees : Key
    pub wormhole_program : Key
    pub tokens : Accounts
    pub pays : s.public_key to_token_account ≡ ok to
    pub pays_fees : s.public_key to_token_account ≡ ok fees
    pub has_tokens : token_accounts ≡ ok tokens
    pub lists :
        accounts
        ≡ (text "payer", payer)
          ∷ (text "tokenBridgeConfig", config)
          ∷ (text "vaa", vaa)
          ∷ (text "tokenBridgeClaim", claim_key)
          ∷ (text "tokenBridgeForeignEndpoint", foreign_endpoint)
          ∷ (text "toTokenAccount", to)
          ∷ (text "tokenBridgeRedeemer", redeemer)
          ∷ (text "toFeesTokenAccount", fees)
          ∷ (tokens
              ++ ((text "rent", s.rent)
                  ∷ (text "systemProgram", s.system_program)
                  ∷ (text "tokenProgram", s.token_program)
                  ∷ (text "wormholeProgram", wormhole_program)
                  ∷ []))

  pub with_bridge_accounts-Bridge :
      (bridge wormhole payer : KeyInit) (p : ParsedTransfer) (to_token_account : KeyInit)
      (token_accounts : Outcome Accounts) (accounts : Accounts)
      → with_bridge_accounts s bridge wormhole payer p to_token_account token_accounts ≡ ok accounts
      → Bridge to_token_account token_accounts accounts
  unfolding with_bridge_accounts
  with_bridge_accounts-Bridge bridge wormhole payer p to_token_account token_accounts accounts h =
      let (cpi_program, h1, e1) = returned _ accounts (s.public_key (bytes p.to)) h in
      let (payer_key, h2, e2) = returned _ accounts (s.public_key payer) h1 in
      let (config, h3, e3) = returned _ accounts (s.derive (bridge_config bridge)) h2 in
      let (vaa, h4, e4) = returned _ accounts (s.derive (posted_vaa wormhole p.hash)) h3 in
      let (claim_key, h5, e5) =
        returned _ accounts (s.derive (claim bridge p.emitter_address p.emitter_chain p.sequence))
          h4 in
      let (foreign_endpoint, h6, e6) =
        returned _ accounts (s.derive (endpoint bridge p.emitter_chain p.emitter_address)) h5 in
      let (to, h7, e7) = returned _ accounts (s.public_key to_token_account) h6 in
      let (redeemer, h8, e8) = returned _ accounts (s.derive (redeemer_account cpi_program)) h7 in
      let (fees, h9, e9) = returned _ accounts (s.public_key to_token_account) h8 in
      let (tokens, h10, e10) = returned _ accounts token_accounts h9 in
      let (wormhole_program, h11, e11) = returned _ accounts (s.public_key wormhole) h10 in
      record {
        payer = payer_key;
        config = config;
        vaa = vaa;
        claim_key = claim_key;
        foreign_endpoint = foreign_endpoint;
        to = to;
        redeemer = redeemer;
        fees = fees;
        wormhole_program = wormhole_program;
        tokens = tokens;
        pays = e7;
        pays_fees = e9;
        has_tokens = e10;
        lists = sym (ok_injective h11);
      }

  pub data Kind : Type 0 where
    native wrapped : Kind

  -- The accounts that depend on the kind of the token.
  abbrev pub tokens_of : Kind → Key → Key → Key → Accounts
  tokens_of native a b c =
      (text "tokenBridgeCustody", a) ∷ (text "mint", b) ∷ (text "tokenBridgeCustodySigner", c) ∷ []
  tokens_of wrapped a b c =
      (text "tokenBridgeWrappedMint", a)
      ∷ (text "tokenBridgeWrappedMeta", b)
      ∷ (text "tokenBridgeMintAuthority", c)
      ∷ []

  abbrev pub Tokens : Kind → Accounts → Type 0
  Tokens kind tokens = (a : Key) × (b : Key) × (c : Key) × (tokens ≡ tokens_of kind a b c)

  -- All accounts of a redemption.
  pub record Table (kind : Kind) : Type 0 where
    pub config : Key
    pub foreign : Key
    pub tmp : Key
    pub recipient_token_account : Key
    pub recipient : Key
    pub payer_token_account : Key
    pub bridge_program : Key
    pub payer : Key
    pub bridge_config : Key
    pub vaa : Key
    pub claim_key : Key
    pub foreign_endpoint : Key
    pub redeemer : Key
    pub a : Key
    pub b : Key
    pub c : Key
    pub wormhole_program : Key

  unfoldable pub accounts_of : (kind : Kind) → Table kind → Accounts
  accounts_of kind t = object_of (
      (text "config", t.config)
      ∷ (text "foreignContract", t.foreign)
      ∷ (text "tmpTokenAccount", t.tmp)
      ∷ (text "recipientTokenAccount", t.recipient_token_account)
      ∷ (text "recipient", t.recipient)
      ∷ (text "payerTokenAccount", t.payer_token_account)
      ∷ (text "tokenBridgeProgram", t.bridge_program)
      ∷ (text "payer", t.payer)
      ∷ (text "tokenBridgeConfig", t.bridge_config)
      ∷ (text "vaa", t.vaa)
      ∷ (text "tokenBridgeClaim", t.claim_key)
      ∷ (text "tokenBridgeForeignEndpoint", t.foreign_endpoint)
      ∷ (text "toTokenAccount", t.tmp)
      ∷ (text "tokenBridgeRedeemer", t.redeemer)
      ∷ (text "toFeesTokenAccount", t.tmp)
      ∷ (tokens_of kind t.a t.b t.c
          ++ ((text "rent", s.rent)
              ∷ (text "systemProgram", s.system_program)
              ∷ (text "tokenProgram", s.token_program)
              ∷ (text "wormholeProgram", t.wormhole_program)
              ∷ [])))

  abbrev pub Owned : (kind : Kind) → Table kind → Type 0
  Owned kind t =
      (own (text "recipient") (accounts_of kind t) ≡ some t.recipient)
      × (own (text "recipientTokenAccount") (accounts_of kind t) ≡ some t.recipient_token_account)
      × (own (text "tmpTokenAccount") (accounts_of kind t) ≡ some t.tmp)
      × (own (text "toTokenAccount") (accounts_of kind t) ≡ some t.tmp)
      × (own (text "toFeesTokenAccount") (accounts_of kind t) ≡ some t.tmp)
      × (own (text "foreignContract") (accounts_of kind t) ≡ some t.foreign)

  pub owned : (kind : Kind) (t : Table kind) → Owned kind t
  unfolding accounts_of own object_of define_all define text_eq
  owned native t = (refl, refl, refl, refl, refl, refl)
  owned wrapped t = (refl, refl, refl, refl, refl, refl)

  -- The table, from the accounts of the bridge that have the temporary account's key twice.
  pub accounts_of_lem :
      (kind : Kind) (t : Table kind) (to fees : Key) (tokens accounts : Accounts)
      → to ≡ t.tmp
      → fees ≡ t.tmp
      → tokens ≡ tokens_of kind t.a t.b t.c
      → accounts
        ≡ (text "payer", t.payer)
          ∷ (text "tokenBridgeConfig", t.bridge_config)
          ∷ (text "vaa", t.vaa)
          ∷ (text "tokenBridgeClaim", t.claim_key)
          ∷ (text "tokenBridgeForeignEndpoint", t.foreign_endpoint)
          ∷ (text "toTokenAccount", to)
          ∷ (text "tokenBridgeRedeemer", t.redeemer)
          ∷ (text "toFeesTokenAccount", fees)
          ∷ (tokens
              ++ ((text "rent", s.rent)
                  ∷ (text "systemProgram", s.system_program)
                  ∷ (text "tokenProgram", s.token_program)
                  ∷ (text "wormholeProgram", t.wormhole_program)
                  ∷ []))
      → object_of (
          (text "config", t.config)
          ∷ (text "foreignContract", t.foreign)
          ∷ (text "tmpTokenAccount", t.tmp)
          ∷ (text "recipientTokenAccount", t.recipient_token_account)
          ∷ (text "recipient", t.recipient)
          ∷ (text "payerTokenAccount", t.payer_token_account)
          ∷ (text "tokenBridgeProgram", t.bridge_program)
          ∷ accounts)
        ≡ accounts_of kind t
  unfolding accounts_of
  accounts_of_lem kind t to fees tokens accounts to_is fees_is tokens_are lists =
      rw (lists, to_is, fees_is, tokens_are) refl
