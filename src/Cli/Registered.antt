-- ===== src/Cli/Registered.antt =====
-- Which emitters `register-emitter` registers.
use nimble_xchain_contracts.Prelude.{◌∷◌, ◌++◌, ◌≡◌, refl, ap, ◌∙◌, Option, none, some}
use nimble_xchain_contracts.Js.{Text, text, text_eq, Outcome, ok, throws}
use nimble_xchain_contracts.Exec.{Exec, continue, ◌>>◌}
use nimble_xchain_contracts.Constants.{
  Network, arbitrum, avalanche, binance, optimism, polygon, ConfigJson, MainConfig,
}
use nimble_xchain_contracts.Cli.{
  Contract, Call, register, World, Receipt, Services, ChainInfo, or_null, register_loop,
  register_bridge, contract_of, chain_info, register_emitter,
}

-- An answer, with null for an error.
abbrev pub answer {ℓ} : {A : Type ℓ} → Outcome A → Option A
answer (ok a) = some a
answer (throws e) = none

module _ (s : Services) where
  pub or_null_lem :
      (call : Call) (w : World) → or_null s call w ≡ (ok (answer (s.answers w call)), call ∷ w)
  unfolding or_null
  or_null_lem call w = answered (s.answers w call) refl
    where
      answered :
          (o : Outcome Receipt)
          → s.answers w call ≡ o
          → or_null s call w ≡ (ok (answer o), call ∷ w)
      answered (ok r) h = rw h
      answered (throws e) h = rw h

  -- Whatever its name is, a registration calls one contract, with the name's own emitter.
  register_bridge_lem :
      (name : Network) (info : Network → ChainInfo) (contract : Contract) (hex : Text) (w : World)
      → s.try_native_to_hex_string (info name).chain_addr (info name).chain_id ≡ ok hex
      → register_bridge s name info contract w ≡ (
        ok (answer (s.answers w (register contract (info name).chain_id (text "0x" ++ hex)))),
        register contract (info name).chain_id (text "0x" ++ hex) ∷ w,
      )
  unfolding register_bridge register_loop text_eq
  register_bridge_lem arbitrum info contract hex w h =
      ap
        (λ r.
          continue (r, w)
            (λ hex. or_null s (register contract (info arbitrum).chain_id (text "0x" ++ hex))))
        h
      ∙ or_null_lem _ w
  register_bridge_lem _ info contract hex w h = rw h (or_null_lem _ w)

  module _ (config : ConfigJson) (main_config : MainConfig) where
    abbrev info : Network → ChainInfo
    info = chain_info s config main_config

    abbrev contract : Network → Contract
    contract = contract_of s config main_config

    module _ (hex : Network → Text)
        (hexes : (n : Network)
          → s.try_native_to_hex_string (info n).chain_addr (info n).chain_id ≡ ok (hex n)) where
      -- One contract is given the emitter of one chain.
      abbrev pub registered : Network → Network → Call
      registered by name = register (contract by) (info name).chain_id (text "0x" ++ hex name)

      and_then :
          (name by : Network) (k : Exec World (Unit {0})) (w : World)
          → (register_bridge s name info (contract by) >> k) w ≡ k (registered by name ∷ w)
      and_then name by k w =
          rw (register_bridge_lem name info (contract by) (hex name) w (hexes name))

      -- `register-emitter`, where every address has a hex form, makes five registrations whatever
      -- each is answered: every contract but Avalanche's is given its own chain's emitter, that of
      -- Arbitrum is given Avalanche's too, and no contract is given another.
      pub register_emitter_lem :
          (w : World)
          → register_emitter s config main_config w ≡ (
            ok tt,
            registered polygon polygon
                ∷ registered optimism optimism
                ∷ registered binance binance
                ∷ registered arbitrum avalanche
                ∷ registered arbitrum arbitrum
                ∷ w,
          )
      unfolding register_emitter
      register_emitter_lem w =
          and_then arbitrum arbitrum _ w
          ∙ and_then avalanche arbitrum _ _
          ∙ and_then binance binance _ _
          ∙ and_then optimism optimism _ _
          ∙ and_then polygon polygon _ _
