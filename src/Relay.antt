-- ===== src/Relay.antt =====
-- The Relay, apps/relay/src: the realtime streams between the bridges and the browsers.
pub mod Frame
pub mod Coalesce
pub mod StreamBuffer
pub mod Outbox
pub mod Transfers
mod Tests
pub mod Streams
