-- ===== src/Relay/Thresholds.antt =====
-- lib/relayer-engine/src/relay/constants.ts: what the relayer supports and from which amount on.
use nimble_xchain_contracts.Prelude.{ℕ, String, List, [], ◌∷◌, Bool, if◌then◌else◌}
use nimble_xchain_contracts.Js.{Text, text}
use nimble_xchain_contracts.Js.Decimal.{decimal}
use nimble_xchain_contracts.Js.Object.{object_of}
use nimble_xchain_contracts.Sdk.{SdkChain, karura, acala, avax, bsc}

-- The rows of one target chain: the token's address, and the least amount as a numeral.
abbrev pub Rows : Type 0
Rows = List (Text × Text)

abbrev pub Thresholds : Type 0
Thresholds = List (Text × Rows)

abbrev row : String → String → Text × Text
row token least = (text token, text least)

abbrev bsc_usdt : String
bsc_usdt = "0x337610d27c682e347c9cd60bd4b3b107c9d34ddd"

abbrev bsc_eth : String
bsc_eth = "0xd66c6b4f0be8ce5b39d52e0fd1344c389929b378"

abbrev goerli_usdc : String
goerli_usdc = "0x07865c6e87b9f70255377e024ace6630c1eaa37f"

abbrev bsc_usdc : String
bsc_usdc = "0x8ac76a51cc950d9822d68b83fe1ad97b32cd580d"

-- The rows that Karura, Acala and Avalanche share.
abbrev pub dev_rows : Rows
dev_rows = row bsc_usdt "1000000" ∷ row bsc_eth "2000000" ∷ row goerli_usdc "50000" ∷ []

abbrev pub dev_bsc_rows : Rows
dev_bsc_rows =
    row bsc_usdc "1000000"
    ∷ row bsc_usdt "10000000"
    ∷ row bsc_eth "2000000"
    ∷ row goerli_usdc "50000"
    ∷ []

-- The rows that Karura and Acala share.
abbrev pub prod_rows : Rows
prod_rows =
    row "0xa0b86991c6218b36c1d19d4a2e9eb0ce3606eb48" "10000000"
    ∷ row "0x6b175474e89094c44da98b954eedeac495271d0f" "1000000000"
    ∷ row "0x0000000000000000000100000000000000000001" "100000000"
    ∷ []

module _ (chain_id : SdkChain → ℕ) where
  abbrev pub chain_key : SdkChain → Text
  chain_key c = decimal (chain_id c)

  unfoldable pub supported_dev : Thresholds
  supported_dev = object_of (
      (chain_key karura, dev_rows)
      ∷ (chain_key acala, dev_rows)
      ∷ (chain_key avax, dev_rows)
      ∷ (chain_key bsc, dev_bsc_rows)
      ∷ [])

  unfoldable pub supported_prod : Thresholds
  supported_prod = object_of ((chain_key karura, prod_rows) ∷ (chain_key acala, prod_rows) ∷ [])

  -- `Number(process.env.TESTNET_MODE)` is truthy in testnet mode.
  unfoldable pub supported_addresses : Bool → Thresholds
  supported_addresses is_testnet = if is_testnet then supported_dev else supported_prod

-- VERSION
abbrev pub version : Text
version = text "1.2.0"
