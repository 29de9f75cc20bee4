-- ===== src/Scheduler.antt =====
-- src/scheduler.rs: what the event loop and the coroutines share.
pub mod EventLoop
pub mod Run
pub mod GlobalQueue
pub mod Messages
pub mod ReadyStates
