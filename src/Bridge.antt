-- ===== src/Bridge.antt =====
-- The Bridge, apps/bridge/src: the headless process beside the desktop agents.
pub mod Pending
pub mod Ipc
pub mod Store
pub mod Queue
pub mod Gateway
pub mod Files
