-- ===== src/Cli/Applied/FreshContracts.antt =====
-- What a contract that was just deployed can do once `register-emitter` has run.
use nimble_xchain_contracts.Prelude.{ℕ, [], ◌≡◌, ◌≢◌, refl, ◌∙◌, arith, true, false}
use nimble_xchain_contracts.Js.{Text, ok}
use nimble_xchain_contracts.Constants.{Network, arbitrum, ConfigJson, MainConfig}
use nimble_xchain_contracts.Cli
use nimble_xchain_contracts.Cli.{Services, contract_of, chain_info, is_same}
use nimble_xchain_contracts.Cli.Applied.{same_contract, after_calls}
use nimble_xchain_contracts.Cli.Applied.Registrations.{register_emitter-after_calls}
use nimble_xchain_contracts.Xchain.{Bytes, State, Deployment, all_zero}
use nimble_xchain_contracts.Xchain.Governance.{construct}
use nimble_xchain_contracts.Xchain.Fees.{SafeMath}
use nimble_xchain_contracts.Xchain.Transfers.{Chain, send_tokens_with_payload}
use nimble_xchain_contracts.Xchain.Transfers.Sent.{checks-Passed}

-- Nothing is registered at a contract that was just deployed.
constructed :
    (sender : Bytes) (d : Deployment) (st : State) (chain : ℕ)
    → construct sender d ≡ ok st
    → (st.chain_id ≡ d.chain_id) × (all_zero (st.registered_emitters chain) ≡ true)
unfolding construct
constructed sender d st chain h = ground arith

module _ (address_of bytes_of : Text → Bytes) (s : Services) (config : ConfigJson)
    (main_config : MainConfig) (hex : Network → Text)
    (hexes : (n : Network)
      → s.try_native_to_hex_string
          (chain_info s config main_config n).chain_addr
          (chain_info s config main_config n).chain_id
        ≡ ok (hex n))
    (apart : (a b : Network)
      → same_contract (contract_of s config main_config a) (contract_of s config main_config b)
        ≡ is_same a b) where
  -- The state of a contract after `register-emitter`.
  abbrev configured : Network → State → State
  configured n =
      after_calls address_of bytes_of s (contract_of s config main_config n)
        ((Cli.register_emitter s config main_config []).1)

  -- Where every address has a hex form and no two contracts are the same, a contract that was
  -- deployed on a chain other than Arbitrum with that chain's number sends nothing to any chain
  -- after register-emitter: every transfer reverts.
  pub register_emitter-send_tokens_with_payload :
      {W : Type 0} (m : SafeMath) (chain : Chain W) (this sender deployer : Bytes) (n : Network)
      (d : Deployment) (st : State) (token : Bytes) (amount target_chain batch_id : ℕ)
      (recipient : Bytes) (value : ℕ) (w : W) (sent : ℕ × W)
      → is_same n arbitrum ≡ false
      → construct deployer d ≡ ok st
      → d.chain_id ≡ (chain_info s config main_config n).chain_id
      → send_tokens_with_payload m chain this sender
          (after_calls address_of bytes_of s
            (contract_of s config main_config n)
            ((Cli.register_emitter s config main_config []).1)
            st)
          token
          amount
          target_chain
          batch_id
          recipient
          value
          w
        ≢ ok sent
  register_emitter-send_tokens_with_payload m chain this sender deployer n d st token amount
        target_chain batch_id recipient value w sent other deploys number gives =
      let (own, nothing) = constructed deployer d st target_chain deploys in
      let same : configured n st ≡ st =
        register_emitter-after_calls address_of bytes_of s config main_config hex hexes apart n st
          (own ∙ number)
        ∙ rw other refl in
      let (passed, _) =
        checks-Passed m chain this sender st token amount target_chain batch_id recipient value w
          sent (rw same at gives) in
      let registered = passed.registered in cc
