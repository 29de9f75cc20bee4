-- ===== src/Scheduler/GlobalQueue.antt =====
-- The global queue of src/scheduler.rs: who fills it, and how many idle processors that wakes.
pub mod Parking
pub mod Awake
mod Tests
use coio_rs.Base.{
  ℕ, zero, suc, ◌+◌, ◌-◌, ◌/◌, Bool, true, false, not, ◌&&◌, List, [], ◌∷◌, ◌++◌, length, ltb, ◌==◌,
  if◌then◌else◌,
}
use coio_rs.Runtime.RunQueue.{GlobalQueue, queue_size}
use coio_rs.Sync.Semaphore.{Handle}

abbrev pub refilled : List Handle → GlobalQueue
refilled queue = record { queue = queue; size = length queue }

-- The size behind `push_global_queue` is what `unpark_processors_with_queue_size` gets.
unfoldable pub push_global_queue : Handle → GlobalQueue → ℕ × GlobalQueue
push_global_queue hdl g = (length (g.queue ++ (hdl ∷ [])), refilled (g.queue ++ (hdl ∷ [])))

unfoldable pub push_global_queue_iter : List Handle → GlobalQueue → ℕ × GlobalQueue
push_global_queue_iter iter g = (length (g.queue ++ iter), refilled (g.queue ++ iter))

-- The `max` of `unpark_processor_maybe` for a size.
unfoldable pub max_for_size : ℕ → ℕ
max_for_size size = size / (queue_size / 2) + 1

-- `unpark_processor_maybe`: how many times it notifies, for what it has read of the two counters.
unfoldable pub unpark_count : ℕ → ℕ → ℕ → ℕ
unpark_count max idle_processor_count spinning_processor_count =
    if (ltb 0 max && ltb 0 idle_processor_count) && spinning_processor_count == 0
    then if ltb idle_processor_count max then idle_processor_count else max
    else 0
