-- ===== src/Relay.antt =====
-- The relay of the fork of the relayer engine (lib/relayer-engine/src/relay): the threshold
-- tables, the policy that reads them, the environment and the REST handlers.
pub mod Thresholds
pub mod Policy
pub mod ChainIds
pub mod Config
pub mod Server
mod Tests
