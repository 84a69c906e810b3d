-- ===== src/Cli/Applied/FeesSet.antt =====
-- What `update-relayer-fee` brings about at the contracts.
use nimble_xchain_contracts.Prelude.{
  ℕ, List, [], ◌∷◌, ◌≡◌, refl, ap, ◌∙◌, arith, true, false, ◌&&◌, if◌then◌else◌, ltb, ◌^◌,
}
use nimble_xchain_contracts.Js.{Text, text_eq, Outcome}
use nimble_xchain_contracts.Constants.{
  Network, arbitrum, avalanche, binance, ethereum, injective, optimism, polygon, ConfigJson,
  MainConfig, user_wallet_private_key, relayer_fee_percentage, relayer_fee_precision,
}
use nimble_xchain_contracts.Cli
use nimble_xchain_contracts.Cli.{
  Contract, Call, update_fee, Receipt, Services, supported_chains, contract_of, is_same,
  check_chains, includes, name_of,
}
use nimble_xchain_contracts.Cli.Fees.{update_relayer_fee_lem, updated}
use nimble_xchain_contracts.Cli.Applied.{answered, same_contract, transact, is_sent_to, after_calls}
use nimble_xchain_contracts.Cli.Applied.Steps.{after_calls-skip, after_calls-take}
use nimble_xchain_contracts.Xchain.{Bytes, State}
use nimble_xchain_contracts.Xchain.Governance
use nimble_xchain_contracts.Xchain.Governance.{◌>>◌}

-- What the contract makes of the call.
transact-update_fee :
    (address_of bytes_of : Text → Bytes) (c : Contract) (percentage precision : ℕ) (st : State)
    → transact address_of bytes_of (update_fee c percentage precision) st ≡ (
        if text_eq st.owner (address_of c.signer_key)
          && ltb percentage precision
          && ltb precision (2 ^ 32)
        then record st { relayer_fee_percentage = percentage; fee_precision = precision }
        else st)
unfolding transact Governance.update_relayer_fee
transact-update_fee address_of bytes_of c percentage precision st = ground arith

-- The calls for the chains that stand before `n`, the newest first.
abbrev pub before_of : (Network → Call) → Network → List Network → List Call → List Call
before_of call n [] sent = sent
before_of call n (c ∷ cs) sent =
    let rest = before_of call n cs (call c ∷ sent) in if is_same n c then sent else rest

module _ (address_of bytes_of : Text → Bytes) (s : Services) (config : ConfigJson)
    (main_config : MainConfig)
    (apart : (a b : Network)
      → same_contract (contract_of s config main_config a) (contract_of s config main_config b)
        ≡ is_same a b) where
  abbrev contract : Network → Contract
  contract = contract_of s config main_config

  abbrev call : Network → Call
  call = updated s config main_config

  abbrev after : Network → List Call → State → State
  after n = after_calls address_of bytes_of s (contract n)

  -- The state with the configured fee, where the chain and the contract accept it.
  abbrev with_fee : Outcome Receipt → State → State
  with_fee answer st =
      answered answer
        (if text_eq st.owner (address_of (user_wallet_private_key config main_config))
            && ltb (relayer_fee_percentage config main_config)
                (relayer_fee_precision config main_config)
            && ltb (relayer_fee_precision config main_config) (2 ^ 32)
          then record st {
            relayer_fee_percentage = relayer_fee_percentage config main_config;
            fee_precision = relayer_fee_precision config main_config;
          }
          else st)
        st

  none_sent : (n : Network) (st : State) → after n [] st ≡ st
  unfolding after_calls
  none_sent n st = refl

  skips :
      (n by : Network) (calls : List Call) (st t : State)
      → is_same n by ≡ false
      → after n calls st ≡ t
      → after n (call by ∷ calls) st ≡ t
  unfolding is_sent_to
  skips n by calls st t other rest =
      after_calls-skip address_of bytes_of s (contract n) (call by) calls st t rest
        (apart n by ∙ other)

  takes :
      (n : Network) (calls : List Call) (st : State)
      → is_same n n ≡ true
      → after n calls st ≡ st
      → after n (call n ∷ calls) st ≡ with_fee (s.answers calls (call n)) st
  unfolding is_sent_to contract_of
  takes n calls st self rest =
      after_calls-take address_of bytes_of s (contract n) (call n) calls st st rest
        (apart n n ∙ self)
      ∙ ap (λ done. answered (s.answers calls (call n)) done st)
          (transact-update_fee address_of bytes_of (contract n) _ _ st)

  settled :
      (n : Network) (st : State)
      → after n
          (call polygon ∷ call optimism ∷ call binance ∷ call avalanche ∷ call arbitrum ∷ [])
          st
        ≡ (if check_chains (name_of n)
            then with_fee (s.answers (before_of call n supported_chains []) (call n)) st
            else st)
  unfolding text_eq check_chains includes
  settled arbitrum st = skips arbitrum polygon _ st _ refl (
      skips arbitrum optimism _ st _ refl (
        skips arbitrum binance _ st _ refl (
          skips arbitrum avalanche _ st _ refl (takes arbitrum _ st refl (none_sent arbitrum st)))))
  settled avalanche st = skips avalanche polygon _ st _ refl (
      skips avalanche optimism _ st _ refl (
        skips avalanche binance _ st _ refl (
          takes avalanche _ st refl
            (skips avalanche arbitrum _ st _ refl (none_sent avalanche st)))))
  settled binance st = skips binance polygon _ st _ refl (
      skips binance optimism _ st _ refl (
        takes binance _ st refl (
          skips binance avalanche _ st _ refl
            (skips binance arbitrum _ st _ refl (none_sent binance st)))))
  settled optimism st = skips optimism polygon _ st _ refl (
      takes optimism _ st refl (
        skips optimism binance _ st _ refl (
          skips optimism avalanche _ st _ refl
            (skips optimism arbitrum _ st _ refl (none_sent optimism st)))))
  settled polygon st = takes polygon _ st refl (
      skips polygon optimism _ st _ refl (
        skips polygon binance _ st _ refl (
          skips polygon avalanche _ st _ refl
            (skips polygon arbitrum _ st _ refl (none_sent polygon st)))))
  settled ethereum st = skips ethereum polygon _ st _ refl (
      skips ethereum optimism _ st _ refl (
        skips ethereum binance _ st _ refl (
          skips ethereum avalanche _ st _ refl
            (skips ethereum arbitrum _ st _ refl (none_sent ethereum st)))))
  settled injective st = skips injective polygon _ st _ refl (
      skips injective optimism _ st _ refl (
        skips injective binance _ st _ refl (
          skips injective avalanche _ st _ refl
            (skips injective arbitrum _ st _ refl (none_sent injective st)))))

  -- Where no two contracts are the same, `update-relayer-fee` changes the contracts of the supported
  -- chains alone: if the chain's answer to the call for it, after the calls for those before it in
  -- the list, is a receipt, the user's wallet owns the contract, and the configured percentage is
  -- below the configured precision, which has 32 bits at most, these two are set; otherwise the
  -- contract is as it was.
  pub update_relayer_fee-after_calls :
      (n : Network) (st : State)
      → after_calls address_of bytes_of s
          (contract_of s config main_config n)
          ((Cli.update_relayer_fee s config main_config []).1)
          st
        ≡ (if check_chains (name_of n)
            then answered
                (s.answers
                  (before_of (updated s config main_config) n supported_chains [])
                  (updated s config main_config n))
                (if text_eq st.owner (address_of (user_wallet_private_key config main_config))
                    && ltb
                        (relayer_fee_percentage config main_config)
                        (relayer_fee_precision config main_config)
                    && ltb (relayer_fee_precision config main_config) (2 ^ 32)
                  then record st {
                    relayer_fee_percentage = relayer_fee_percentage config main_config;
                    fee_precision = relayer_fee_precision config main_config;
                  }
                  else st)
                st
            else st)
  update_relayer_fee-after_calls n st =
      rw (ap (λ r. r.1) (update_relayer_fee_lem s config main_config [])) (settled n st)
