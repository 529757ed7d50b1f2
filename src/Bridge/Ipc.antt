-- ===== src/Bridge/Ipc.antt =====
-- apps/bridge/src/adapter/codex/ipc: frames of a little-endian u32 length and a JSON text (frame.rs),
-- and the reader of the socket (client.rs).
pub mod Decoder
pub mod Reader
pub mod Frames
pub mod Draining
pub mod Stream
pub mod Bounds
mod Tests
