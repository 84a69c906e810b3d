-- ===== src/Evm.antt =====
-- evm/ts/api: the client API of the EVM chains. What it does to the chains and to the guardians is
-- a list of calls, the newest first, and what they answer may depend on all calls before.
pub mod Networks
pub mod Relay
pub mod Transfer
pub mod Supported
mod Tests
