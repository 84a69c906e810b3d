-- ===== src/Solana.antt =====
-- The program's client on Solana, solana/ts/sdk/xchain_token: the addresses of its accounts and the
-- instructions of its program.
pub mod Sdk
pub mod Keys
pub mod Instructions
pub mod Redeem
pub mod Message
mod Tests
