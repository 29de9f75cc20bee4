-- ===== src/Runtime.antt =====
-- src/runtime: what one worker thread keeps, and the pool of stacks.
pub mod Order
pub mod RunQueue
pub mod Processor
pub mod LinkedHashMap
pub mod StackPool
