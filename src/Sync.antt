-- ===== src/Sync.antt =====
-- src/sync: how coroutines and threads wait for one another.
pub mod Spinlock
pub mod Semaphore
pub mod Mutex
pub mod MonoBarrier
pub mod Mpsc
pub mod SyncChannel
