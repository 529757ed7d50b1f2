-- ===== src/Bridge/Files.antt =====
-- The files of apps/bridge/src/files: the handles that grant access to one file.
pub mod State
pub mod Grant
pub mod Checks
pub mod Reading
pub mod Slots
pub mod Revoking
pub mod Issuing
mod Tests
