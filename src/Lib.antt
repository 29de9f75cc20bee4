-- ===== src/Lib.antt =====
-- Coroutine I/O: a scheduler of coroutines on several threads, with the primitives by which
-- coroutines wait for one another and for the event loop. This development models the data
-- structures and the protocols of the crate whose root is src/lib.rs, and states what makes them
-- correct.
--
-- The parts and how they interact. A processor (src/runtime/processor.rs) is a worker thread with a
-- ring buffer of coroutines that are ready. It pops from it, pushes to it, gives half of a full one
-- to the global queue of the scheduler (src/scheduler.rs), gets batches from there, and steals from
-- other processors, which it visits in a random order. A coroutine (src/coroutine.rs) is a node of
-- the intrusive lists in which coroutines wait, and runs on a stack of the pool
-- (src/runtime/stack_pool.rs). What parks a coroutine puts its handle in a wait list, a barrier's
-- word or a slot; what makes it ready takes the handle out and pushes it to a run queue.
--
-- The files.
-- - Base: the names that all modules share, Boolean tests and lists on native numbers, `usize`.
-- - Runtime.RunQueue: the ring buffer of ProcessorInner in src/runtime/processor.rs
--   (queue_pop_front, queue_push_back, queue_push_back_slow, queue_grab, queue_steal,
--   global_queue_get_batch), with the head and the tail as 64-bit counters that wrap. Window gives
--   the coroutines that a queue holds as a list; Pop, Push, Steal and Global are about the
--   operations. Concurrent interleaves every access of the owner and of any number of thieves:
--   Copies is what a thread knows from its loads, Places, Owners and Thieves go through the
--   accesses, Kept is about all interleavings. What the owner steals from another queue is arbitrary
--   there.
-- - Runtime.Processor: the loop of schedule of the same file, with resume and
--   fetch_foreign_coroutines, over the queues of all processors. A turn is one function, with the
--   random numbers, the flags that it reads and what the coroutine does as arguments. Victim,
--   Theft, Fetch, Yields and Turn go from one theft to the whole turn; Moves says how coroutines
--   go in and out.
-- - Runtime.Order: RandomProcessorOrder of the same file (reset, iter, and next of the iterator).
-- - Runtime.StackPool: StackPool of src/runtime/stack_pool.rs (allocate, deallocate, try_shrink).
--   Runtime.LinkedHashMap states what it uses of the crate linked_hash_map: operations, and the
--   laws that the crate documents, over the list of the entries; ListMap there is a map for which
--   they hold.
-- - Coroutine.HandleList: HandleList of src/coroutine.rs, as a doubly linked list in a heap that
--   maps a handle to its links.
-- - Coroutine.Lifecycle: the states of a coroutine of src/coroutine.rs and of the drop of its
--   handle, as two sides that hand the control, and each other's context, over.
-- - Sync.Spinlock: TicketSpinlock of src/sync/spinlock.rs, with 64-bit tickets that wrap; Simple is
--   Spinlock there, with a compare-and-swap that may fail for no reason.
-- - Sync.Semaphore, Sync.Mutex, Sync.MonoBarrier, Sync.Mpsc: src/sync/semaphore.rs,
--   src/sync/mutex.rs, src/sync/mono_barrier.rs (MonoBarrier, and CoroMonoBarrier in Coro) and the
--   channel without a bound of src/sync/mpsc.rs. Sync.SyncChannel: the bounded channel there, with
--   its two wait lists, whose locks its callbacks hold across steps.
-- - JoinHandle: the pair of src/join_handle.rs over MonoBarrier.
-- - Promise: the combinators of src/promise.rs over spawn and join of src/scheduler.rs. Direct is an
--   evaluation without coroutines; Sound and Progress compare, Compose is about combinators in a
--   row.
-- - Options: src/options.rs, Builder and the counter of coroutines of src/lib.rs, and the setters of
--   src/scheduler.rs, with what src/coroutine.rs does with them.
-- - Scheduler.ReadyStates: ReadyStates of src/scheduler.rs, the slots in which coroutines wait for
--   I/O.
-- - Scheduler.GlobalQueue: the global queue of the same file, the parking of processors that find
--   nothing, and who is notified (push_global_queue, park_processor, unpark_processor_maybe), up to
--   the shutdown.
-- - Scheduler.Run: run of the same file, with the start and the end of the threads of
--   src/runtime/processor.rs, which park, hold the idle mutex and are woken: Phases is what holds
--   between two steps of the protocol, and Threads, Calls and Steps keep it; Parked is what holds
--   of the mutex and of the main coroutine, and Resting and Places keep it; Measure counts what is
--   left to do; Progress and Returns are about the way to the end. The main coroutine is run to its
--   end by the processor that has fetched it; what else the processors do is not in it.
-- - Scheduler.Messages, Scheduler.EventLoop: what coroutines ask of the event loop (register,
--   deregister, sleep), and the scheduler as its handler (ready, timeout, notify,
--   append_io_handler_to_global_queue). EventLoop.Slab states what it uses of the crate slab, with
--   the documented laws; Tests there has a slab for which they hold. Answers of mio are arguments.
-- - Net: the loops of src/net/mod.rs, src/net/tcp.rs, src/net/udp.rs and src/net/unix.rs around
--   sockets that do not block, and each_addr.
--
-- Threads. What a thread does under a lock, or in one atomic operation, is one step. For whole
-- operations on the run queue, where other threads only move the head, a list of numbers says how
-- many coroutines the others take in each round of a loop (in a turn of schedule nobody else takes
-- any); the list is arbitrary, and is also the fuel, since a round is lost only when others took
-- something, and a round with which nobody interferes is the last. For Runtime.RunQueue.Concurrent,
-- the primitives of src/sync, parking, run, the event loop, ReadyStates and promises the steps make a
-- relation, and what is stated is about every state that can be reached. Memory orderings are not
-- modelled: memory is sequentially consistent.
--
-- Other bounds. `usize` has 64 bits. Loops over lists and buckets take fuel: the length of the
-- list, and one more for the buckets, is enough. A turn of schedule has no fuel: its loops go
-- over the orders that are drawn. The greatest common divisor recurs on accessibility.
--
-- Not modelled: the panic hook, the registers and the memory of a context switch, of which only
-- the handing over of contexts is; what the drop of the coroutines that are left in a queue does
-- at the end of schedule, which unwinds them; a main coroutine that is suspended, within
-- Scheduler.Run; send and recv outside a processor, and the drop of the receiver of the channel
-- without a bound; the constructors of sockets; Debug and Default instances, and free functions
-- that pass on under another name. src/sync/future is not compiled. These are either calls of
-- other crates or stand on the parts above.
mod Base
pub mod Coroutine
pub mod Net
pub mod Options
pub mod Promise
pub mod Runtime
pub mod Sync
pub mod JoinHandle
pub mod Scheduler
