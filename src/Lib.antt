-- ===== src/Lib.antt =====
-- The cross-chain transfers of tokens: the contract of the EVM chains, the program of Solana, and the
-- off-chain programs in TypeScript, which are the relay with its policy and its REST handlers, the
-- client API and the tools of the EVM chains, the plugin of the relayer engine and its start, the
-- client of the Solana program, the scripts that send from Solana, and the contract and the client of
-- Injective.
--
-- How the parts interact. A client sends tokens to the contract of a source chain, fetches the
-- signed message (VAA) of the transfer, and has it redeemed on the target chain, by itself or
-- through the relay. The relay takes a VAA over HTTP, decides by its tables of thresholds whether
-- the transfer is worth relaying, and submits the redemption.
--
-- Files.
--   Prelude, Js, Exec, Sdk: shared names; JavaScript's values, strings, BigInt and objects; scripts
--   that act on a state and may throw; the chain constants of the Wormhole SDK, whose numbers are
--   a parameter.
--   Relay/Thresholds, Relay/Policy: lib/relayer-engine/src/relay/constants.ts and utils.ts
--   (shouldRelay, shouldRelayVaa); Relay/ChainIds: numberToChainID of src/utils/utils.ts.
--   Relay/Config: lib/relayer-engine/src/configureEnv.ts (validateEnvironment).
--   Relay/Server: lib/relayer-engine/src/relay/main.ts (validateRequest, relay, nimbleRelay,
--   checkShouldRelay, getVersion), relayEVM of relay/utils.ts, and the routes of
--   src/listener/restEventSource.ts.
--   Constants: constants/constants.ts.
--   Evm/Networks, Evm/Transfer, Evm/Relay: evm/ts/api/xchain.ts (getInfo; getOverride,
--   getRelayerFee, transferToken, redeemToken) and evm/ts/api/relayer (nimbleRelay). Calls of the
--   chains and of the guardians are a list, the newest first, and every answer is a parameter that
--   may depend on all calls before. A redemption is tried 20 times at most, as the source has it:
--   retryAsync is a parameter with its documented laws, and no other loop needs a bound.
--   Cli: evm/ts/cli/deltafi_xchain_cli.ts. Cli/Applied: what its calls do at the contracts of Xchain.
--   Solana/Keys, Solana/Instructions, Solana/Redeem: solana/ts/sdk/xchain_token (accounts,
--   instructions, program.ts); Solana/Message: message.rs of the program.
--   Addresses that Solana's and Wormhole's packages derive are a parameter over the arguments.
--   Plugin: app/plugins/dummy_plugin/src (plugin.ts, utils.ts).
--   App/Senders: app/cli (sendSolanaNative.ts, sendSolanaNativeToAvax.ts,
--   sendSolanaNativeToPolygon.ts); App/Start: app/src/main.ts. The endless loop of
--   sendSolanaNative.ts is modelled by the rounds that are looked at.
--   Injective: injective/ts/api (xchain.ts, relay.ts).
--   Xchain: evm/contracts/deltafi-xchain, the contract of the EVM chains. Xchain itself has its
--   state, Governance its constructor and the two functions of the owner, Messages the payload and
--   the readers of libraries/BytesLib.sol, Fees calculateRelayerFee and normalizeAmount with
--   compute_relayer_amount of solana/programs/xchain_token/src/state/redeemer_config.rs, Transfers
--   sendTokensWithPayload and redeemTransferWithPayload over the external contracts as a
--   parameter. A revert is an error, and a transaction that reverts leaves the state as it was.
--   Network: those contracts on several chains together. A step is a transaction on one chain or
--   whatever else happens there; what Wormhole's documentation says of its bridge and guardians is
--   a hypothesis (Promised, Attested, Others). Posted has what the two functions do to the bridge's
--   messages, Linked, Asking and Reached the invariant, Owed and Delivered what follows from it.
--   Wasm: injective/contracts. Wasm itself has the storage (state.rs) and the functions of xchain.rs
--   that write it, Payload PayloadInfo with its readers (utils.rs), Transfers the rest of xchain.rs
--   over what the chain and cosmwasm-std answer. SameState, Instantiated, SameFee, SamePayload and
--   SameToken compare it with the contract of the EVM chains.
--   Program: solana/programs/xchain_token. Program itself has the instructions of the owner,
--   Program/Redeem and Program/Send those that redeem and send, of both kinds of tokens, over SPL
--   tokens and the token bridge as a parameter. What Anchor checks by context.rs comes first.
--
-- Conventions. JavaScript values are the data type Value; a number is a natural one; an object or
-- an array stands for its string conversion. A function that may throw returns an Outcome; a
-- handler or a script is an Exec over a world that keeps what it sent and submitted. What the SDKs,
-- the chains and Node's environment answer is a parameter: a function, or a record of functions,
-- with what a theorem needs of it as a hypothesis.
--
-- Not modelled. The engine that the relay stands in (lib/relayer-engine but for src/relay,
-- src/configureEnv.ts, src/listener/restEventSource.ts and numberToChainID) is a copy of Wormhole's
-- relayer engine. The contracts of Aptos, Near and Algorand are a few setters and getters. The
-- contract's events, its modifier against reentrancy, the configuration files, the tests, logging
-- and waiting are left out: no external contract is taken to call back.
--
-- The contract's numbers are natural ones within the widths that Solidity's checks keep; a product
-- that may leave 256 bits (and 64 on Solana) is checked as the source has it.
--
-- Fuel. Printing a number recurs on fuel that its successor gives; numeral-decimal proves that it
-- is enough, since the digits are read back as the number.
pub mod Prelude
pub mod Js
pub mod Exec
pub mod Sdk
pub mod Relay
pub mod Constants
pub mod Evm
pub mod Cli
pub mod Solana
pub mod Plugin
pub mod App
pub mod Injective
pub mod Xchain
pub mod Network
pub mod Wasm
pub mod Program
