-- ===== src/Cli/Applied/Registrations.antt =====
-- What `register-emitter` brings about at the contracts.
use nimble_xchain_contracts.Prelude.{
  ℕ, List, [], ◌∷◌, ◌≡◌, ==_iff, refl, ap, ◌∙◌, arith, true, false, if◌then◌else◌, ltb, ◌^◌, ◌++◌,
}
use nimble_xchain_contracts.Js.{Text, text, text_eq, Outcome, ok, throws}
use nimble_xchain_contracts.Constants.{
  Network, arbitrum, avalanche, binance, ethereum, injective, optimism, polygon, ConfigJson,
  MainConfig, user_wallet_private_key,
}
use nimble_xchain_contracts.Cli
use nimble_xchain_contracts.Cli.{
  Contract, Call, register, Receipt, World, Services, ChainInfo, contract_of, chain_info, is_same,
}
use nimble_xchain_contracts.Cli.Registered.{register_emitter_lem, registered}
use nimble_xchain_contracts.Cli.Applied.{
  answered, kept, same_contract, transact, is_sent_to, after_calls,
}
use nimble_xchain_contracts.Cli.Applied.Steps.{after_calls-skip, after_calls-take}
use nimble_xchain_contracts.Xchain.{Bytes, State}
use nimble_xchain_contracts.Xchain.Governance
use nimble_xchain_contracts.Xchain.Governance.{◌>>◌, only_owner}

-- A contract refuses an emitter of its own chain, whoever asks.
own_chain_refused :
    (address_of bytes_of : Text → Bytes) (c : Contract) (chain : ℕ) (emitter : Text) (st : State)
    → st.chain_id ≡ chain
    → transact address_of bytes_of (register c chain emitter) st ≡ st
unfolding transact Governance.register_emitter
own_chain_refused address_of bytes_of c chain emitter st own =
    rw own (ground (arith, ==_iff st.chain_id chain))

unchanged :
    (answer : Outcome Receipt) (done before : State)
    → done ≡ before
    → answered answer done before ≡ before
unchanged (ok receipt) done before same = same
unchanged (throws e) done before same = refl

module _ (address_of bytes_of : Text → Bytes) (s : Services) (config : ConfigJson)
    (main_config : MainConfig) (hex : Network → Text)
    (hexes : (n : Network)
      → s.try_native_to_hex_string
          (chain_info s config main_config n).chain_addr
          (chain_info s config main_config n).chain_id
        ≡ ok (hex n))
    (apart : (a b : Network)
      → same_contract (contract_of s config main_config a) (contract_of s config main_config b)
        ≡ is_same a b) where
  -- The contract of a chain, and the call that gives one contract the emitter of a chain.
  abbrev contract : Network → Contract
  contract = contract_of s config main_config

  abbrev call : Network → Network → Call
  call = registered s config main_config hex hexes

  abbrev after : Network → List Call → State → State
  after n = after_calls address_of bytes_of s (contract n)

  none_sent : (n : Network) (st : State) → after n [] st ≡ st
  unfolding after_calls
  none_sent n st = refl

  skips :
      (n by name : Network) (calls : List Call) (st t : State)
      → is_same n by ≡ false
      → after n calls st ≡ t
      → after n (call by name ∷ calls) st ≡ t
  unfolding is_sent_to
  skips n by name calls st t other rest =
      after_calls-skip address_of bytes_of s (contract n) (call by name) calls st t rest
        (apart n by ∙ other)

  takes :
      (n name : Network) (calls : List Call) (st t : State)
      → is_same n n ≡ true
      → after n calls st ≡ t
      → after n (call n name ∷ calls) st
        ≡ answered (s.answers calls (call n name)) (transact address_of bytes_of (call n name) t) t
  unfolding is_sent_to
  takes n name calls st t self rest =
      after_calls-take address_of bytes_of s (contract n) (call n name) calls st t rest
        (apart n n ∙ self)

  refused :
      (n : Network) (calls : List Call) (st : State)
      → is_same n n ≡ true
      → st.chain_id ≡ (chain_info s config main_config n).chain_id
      → after n calls st ≡ st
      → after n (call n n ∷ calls) st ≡ st
  unfolding transact
  refused n calls st self own rest =
      takes n n calls st st self rest
      ∙ unchanged (s.answers calls (call n n)) _ st
          (own_chain_refused address_of bytes_of (contract n) _ _ st own)

  settled :
      (n : Network) (st : State)
      → st.chain_id ≡ (chain_info s config main_config n).chain_id
      → after n
          (call polygon polygon
            ∷ call optimism optimism
            ∷ call binance binance
            ∷ call arbitrum avalanche
            ∷ call arbitrum arbitrum
            ∷ [])
          st
        ≡ (if is_same n arbitrum
            then answered
                (s.answers (call arbitrum arbitrum ∷ []) (call arbitrum avalanche))
                (transact address_of bytes_of (call arbitrum avalanche) st)
                st
            else st)
  unfolding text_eq
  settled arbitrum st own = skips arbitrum polygon polygon _ st _ refl (
      skips arbitrum optimism optimism _ st _ refl (
        skips arbitrum binance binance _ st _ refl (
          takes arbitrum avalanche _ st st refl
            (refused arbitrum _ st refl own (none_sent arbitrum st)))))
  settled avalanche st own = skips avalanche polygon polygon _ st _ refl (
      skips avalanche optimism optimism _ st _ refl (
        skips avalanche binance binance _ st _ refl (
          skips avalanche arbitrum avalanche _ st _ refl
            (skips avalanche arbitrum arbitrum _ st _ refl (none_sent avalanche st)))))
  settled binance st own = skips binance polygon polygon _ st _ refl (
      skips binance optimism optimism _ st _ refl (
        refused binance _ st refl own (
          skips binance arbitrum avalanche _ st _ refl
            (skips binance arbitrum arbitrum _ st _ refl (none_sent binance st)))))
  settled optimism st own = skips optimism polygon polygon _ st _ refl (
      refused optimism _ st refl own (
        skips optimism binance binance _ st _ refl (
          skips optimism arbitrum avalanche _ st _ refl
            (skips optimism arbitrum arbitrum _ st _ refl (none_sent optimism st)))))
  settled polygon st own = refused polygon _ st refl own (
      skips polygon optimism optimism _ st _ refl (
        skips polygon binance binance _ st _ refl (
          skips polygon arbitrum avalanche _ st _ refl
            (skips polygon arbitrum arbitrum _ st _ refl (none_sent polygon st)))))
  settled ethereum st own = skips ethereum polygon polygon _ st _ refl (
      skips ethereum optimism optimism _ st _ refl (
        skips ethereum binance binance _ st _ refl (
          skips ethereum arbitrum avalanche _ st _ refl
            (skips ethereum arbitrum arbitrum _ st _ refl (none_sent ethereum st)))))
  settled injective st own = skips injective polygon polygon _ st _ refl (
      skips injective optimism optimism _ st _ refl (
        skips injective binance binance _ st _ refl (
          skips injective arbitrum avalanche _ st _ refl
            (skips injective arbitrum arbitrum _ st _ refl (none_sent injective st)))))

  -- Where every address has a hex form, no two contracts are the same, and the contract has the chain
  -- number that the command takes for its chain, `register-emitter` leaves the contract of Arbitrum
  -- as the user's registration of Avalanche's emitter under Avalanche's
  -- number leaves it, if this has 16 bits at most, or as it was if the chain's answer to
  -- this second call is an error; it changes nothing at any other contract: they refuse their own
  -- chain's emitter and are given no other.
  pub register_emitter-after_calls :
      (n : Network) (st : State)
      → st.chain_id ≡ (chain_info s config main_config n).chain_id
      → after_calls address_of bytes_of s
          (contract_of s config main_config n)
          ((Cli.register_emitter s config main_config []).1)
          st
        ≡ (if is_same n arbitrum
            then answered
                (s.answers
                  (registered s config main_config hex hexes arbitrum arbitrum ∷ [])
                  (registered s config main_config hex hexes arbitrum avalanche))
                (if ltb (chain_info s config main_config avalanche).chain_id (2 ^ 16)
                  then kept st (
                      Governance.register_emitter
                        (address_of (user_wallet_private_key config main_config))
                        (chain_info s config main_config avalanche).chain_id
                        (bytes_of (text "0x" ++ hex avalanche))
                        st)
                  else st)
                st
            else st)
  unfolding transact contract_of
  register_emitter-after_calls n st own =
      rw (ap (λ r. r.1) (register_emitter_lem s config main_config hex hexes [])) (settled n st own)
