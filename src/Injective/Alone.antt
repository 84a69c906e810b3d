-- ===== src/Injective/Alone.antt =====
-- Which transfers the client of Injective can make.
use nimble_xchain_contracts.Prelude.{ℕ, ◌≡◌, refl, arith, List, Option}
use nimble_xchain_contracts.Js.{Text, text, text_eq_sound, Error, Outcome, throws}
use nimble_xchain_contracts.Js.Object.{own}
use nimble_xchain_contracts.Exec.Rules.{bind-lift}
use nimble_xchain_contracts.Constants.{ConfigJson, MainConfig}
use nimble_xchain_contracts.Evm.Networks.{Info, info_named}
use nimble_xchain_contracts.Evm.Relay.{World, Receipt}
use nimble_xchain_contracts.Evm.Transfer.{Transfer}
use nimble_xchain_contracts.Injective.{get_info, Services, transfer_token}

module _ (config : ConfigJson) (main_config : MainConfig) (contract_address : ℕ → Text) where
  info_named-get_info :
      (name : Text) (e : ¬ (name ≡ text "Injective"))
      → info_named (get_info config main_config contract_address) name ≡ throws Error.type_error
  unfolding info_named get_info own
  info_named-get_info name other = ground (arith, text_eq_sound (text "Injective") name)

  -- A transfer to another chain than Injective throws before the client has asked anything of a
  -- chain: no tokens are sent.
  transfer_token-throws :
      (s : Services) (t : Transfer) (w : World)
      → ¬ (t.target_chain_name ≡ text "Injective")
      → (e : Error) × (transfer_token s (get_info config main_config contract_address) t w
          ≡ (throws e, w))
  unfolding transfer_token
  transfer_token-throws s t w other =
      bind-lift Fails (info_named buffer t.src_chain_name) _ w
        (λ source _.
          bind-lift Fails (s.coalesce_chain_id t.target_chain_name) _ w
            (λ chain _.
              bind-lift Fails (info_named buffer t.target_chain_name) _ w
                (λ target found. absurd (cc (info_named-get_info t.target_chain_name other)))
                (λ e _. (e, refl)))
            (λ e _. (e, refl)))
        (λ e _. (e, refl))
    where
      buffer : List (Text × Info)
      buffer = get_info config main_config contract_address

      Fails : Outcome (Option (Text × Receipt)) × World → Type 0
      Fails result = (e : Error) × (result ≡ (throws e, w))
