-- ===== src/Bridge/Gateway.antt =====
-- The gateway of apps/bridge/src/commands: submissions, their receipts and the shutdown.
pub mod State
pub mod Submit
pub mod Forwarding
pub mod Receipts
pub mod Recording
pub mod Balance
pub mod Accepting
pub mod Answers
pub mod History
pub mod Shutdown
pub mod Freshness
mod Tests
