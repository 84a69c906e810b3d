-- ===== src/Sdk.antt =====
-- The constants of the Wormhole SDK that the sources name. Their numbers are the SDK's: the
-- development takes them as a parameter, `chain_id`, with what it relies on as a hypothesis.
use nimble_xchain_contracts.Prelude.{ℕ, ◌≡◌}

-- CHAIN_ID_UNSET, CHAIN_ID_SOLANA and so on.
pub data SdkChain : Type 0 where
  unset solana eth terra bsc polygon avax oasis algorand aurora fantom karura acala : SdkChain
  klaytn celo near moonbeam neon terra2 injective osmosis sui aptos arbitrum optimism : SdkChain
  gnosis pythnet xpla btc wormchain : SdkChain

-- Different chains have different numbers.
pub record IsDistinct (chain_id : SdkChain → ℕ) : Type 0 where
  pub same : (a b : SdkChain) → chain_id a ≡ chain_id b → a ≡ b

-- The numbers that Wormhole documents.
abbrev pub documented : SdkChain → ℕ
documented unset = 0
documented solana = 1
documented eth = 2
documented terra = 3
documented bsc = 4
documented polygon = 5
documented avax = 6
documented oasis = 7
documented algorand = 8
documented aurora = 9
documented fantom = 10
documented karura = 11
documented acala = 12
documented klaytn = 13
documented celo = 14
documented near = 15
documented moonbeam = 16
documented neon = 17
documented terra2 = 18
documented injective = 19
documented osmosis = 20
documented sui = 21
documented aptos = 22
documented arbitrum = 23
documented optimism = 24
documented gnosis = 25
documented pythnet = 26
documented xpla = 28
documented btc = 29
documented wormchain = 3104
