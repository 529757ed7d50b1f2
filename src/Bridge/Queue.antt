-- ===== src/Bridge/Queue.antt =====
-- apps/bridge/src/commands/queue.rs: the queue of one next turn for each session.
pub mod State
pub mod Manager
pub mod Events
pub mod Resume
pub mod Retry
pub mod Failure
pub mod Pausing
pub mod Calm
pub mod Sending
mod Tests
