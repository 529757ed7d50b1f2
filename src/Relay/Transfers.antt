-- ===== src/Relay/Transfers.antt =====
-- The transfers of apps/relay/src/transfers/mod.rs: the registry and the state of each transfer.
pub mod State
pub mod Calls
pub mod Later
pub mod Touches
pub mod Limits
pub mod Fate
pub mod Sweep
mod Tests
