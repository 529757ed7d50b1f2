-- ===== src/Relay/Streams.antt =====
-- apps/relay/src/realtime/mod.rs: the streams between the bridges and the browsers.
pub mod State
pub mod Stash
pub mod Replay
pub mod Hub
pub mod Publish
pub mod Upstream
pub mod Subscribed
pub mod Bindings
pub mod Browsers
pub mod Upkeep
pub mod Handover
pub mod Seats
pub mod Flushing
pub mod Restored
pub mod Resumed
pub mod Spared
pub mod Unheard
pub mod Duplicates
pub mod Restart
pub mod Sound
pub mod Handlers
pub mod History
pub mod Invariant
mod Tests
