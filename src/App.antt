-- ===== src/App.antt =====
-- The relayer's application: app/cli, the scripts that send SOL from Solana, and app/src/main.ts.
pub mod Senders
pub mod Start
mod Tests
