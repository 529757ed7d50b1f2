-- ===== src/Relay/Frame.antt =====
-- apps/relay/src/realtime/buffer.rs: frames, their classes and how two of them merge. The messages
-- are those of proto/agent_console/v1 as far as the code looks into them; `M` stands for the rest
-- of a message, which it only passes on.
pub mod Messages
pub mod Classify
pub mod Merge
pub mod Lossless
