-- ===== src/Bridge/Pending.antt =====
-- apps/bridge/src/zcode/pending.rs: the registry of hook invocations that wait for a decision.
-- One lock guards each operation, so an operation is a function from the registry to a result and
-- a registry. `Instant::now()` is the argument `now`, in any fixed unit. Whether the receiving end
-- of a reply channel still exists is the argument `alive` of `resolve`; what goes into the
-- channels is logged in `replies` and `confirmations`, newest first, with the invoke's id.
pub mod Registry
pub mod Calls
pub mod Lifecycle
pub mod History
pub mod Decision
pub mod FirstWins
mod Tests
