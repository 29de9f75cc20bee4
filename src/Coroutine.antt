-- ===== src/Coroutine.antt =====
-- src/coroutine.rs.
pub mod HandleList
pub mod Lifecycle
