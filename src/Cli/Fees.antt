-- ===== src/Cli/Fees.antt =====
-- What `update-relayer-fee` sets.
use nimble_xchain_contracts.Prelude.{◌∷◌, ◌≡◌, ◌∙◌}
use nimble_xchain_contracts.Js.{ok}
use nimble_xchain_contracts.Exec.{Exec, ◌>>◌}
use nimble_xchain_contracts.Constants.{
  Network, arbitrum, avalanche, binance, optimism, polygon, ConfigJson, MainConfig,
  relayer_fee_percentage, relayer_fee_precision,
}
use nimble_xchain_contracts.Cli.{
  Call, update_fee, World, Services, contract_of, update_bridge_relayer_fee, update_relayer_fee,
}
use nimble_xchain_contracts.Cli.Registered.{or_null_lem}

module _ (s : Services) (config : ConfigJson) (main_config : MainConfig) where
  -- The contract of one chain is given the configured percentage and precision.
  abbrev pub updated : Network → Call
  updated n =
      update_fee (contract_of s config main_config n) (relayer_fee_percentage config main_config)
        (relayer_fee_precision config main_config)

  and_then :
      (n : Network) (k : Exec World (Unit {0})) (w : World)
      → (update_bridge_relayer_fee s config main_config (contract_of s config main_config n) >> k) w
        ≡ k (updated n ∷ w)
  unfolding update_bridge_relayer_fee
  and_then n k w = rw (or_null_lem s (updated n) w)

  -- `update-relayer-fee` gives each of the five contracts, once and whatever the others are
  -- answered, the configured percentage and precision, and never fails.
  pub update_relayer_fee_lem :
      (w : World)
      → update_relayer_fee s config main_config w ≡ (
        ok tt,
        updated polygon
            ∷ updated optimism
            ∷ updated binance
            ∷ updated avalanche
            ∷ updated arbitrum
            ∷ w,
      )
  unfolding update_relayer_fee update_bridge_relayer_fee
  update_relayer_fee_lem w =
      and_then arbitrum _ w
      ∙ and_then avalanche _ _
      ∙ and_then binance _ _
      ∙ and_then optimism _ _
      ∙ rw (
          or_null_lem s (updated polygon)
            (updated optimism ∷ updated binance ∷ updated avalanche ∷ updated arbitrum ∷ w))
