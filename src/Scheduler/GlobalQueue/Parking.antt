-- ===== src/Scheduler/GlobalQueue/Parking.antt =====
-- The processors at the condition variable of src/scheduler.rs and the threads that push to the global
-- queue, in every order of their steps, each of which works at once on the counters and the queue.
use coio_rs.Base.{
  ℕ, zero, suc, ◌+◌, ◌-◌, ◌<◌, ◌≡◌, Bool, true, false, List, [], ◌∷◌, if◌then◌else◌, min,
}
use coio_rs.Sync.Semaphore.{Handle}
use coio_rs.Runtime.RunQueue.{GlobalQueue}
use coio_rs.Scheduler.GlobalQueue.{refilled, push_global_queue_iter, max_for_size, unpark_count}

-- How many processors are at each place: `running`; `spinning`, between `inc_spinning` and
-- `dec_spinning`; `idle`, behind the increment of the idle count in `park_processor`; `checked`, with
-- the mutex, behind `before_wait` and in front of the wait; `waiting` at the condition variable;
-- `leaving`, in front of the decrement. `pushed` threads have pushed and are in front of
-- `unpark_processor_maybe` with a size, `unparking` ones behind its test, each in front of at least one
-- `notify_one`. `shutdown_sent` is set when each processor has a shutdown message, `at_barrier`
-- processors have taken it from their channel while they spin and wait for the others, `barrier_running`
-- ones in `resume`, behind a suspended coroutine, where they do not spin, and `barrier_locked` ones in
-- `before_wait`, with the mutex; `finished` ones have left the loop of `schedule`. `stopped` is
-- the flag in the mutex; `all_notified` is set by `notify_all`.
pub record World : Type 0 where
  pub global : GlobalQueue
  pub running : ℕ
  pub spinning : ℕ
  pub idle : ℕ
  pub checked : ℕ
  pub waiting : ℕ
  pub leaving : ℕ
  pub at_barrier : ℕ
  pub barrier_locked : ℕ
  pub barrier_running : ℕ
  pub finished : ℕ
  pub pushed : List ℕ
  pub unparking : List ℕ
  pub idle_processor_count : ℕ
  pub spinning_processor_count : ℕ
  pub shutdown_sent : Bool
  pub stopped : Bool
  pub all_notified : Bool

-- `processors` of them start, with the main coroutine in the queue.
abbrev pub start : ℕ → Handle → World
start processors main_coro = record {
  global = refilled (main_coro ∷ []);
  running = processors;
  spinning = 0;
  idle = 0;
  checked = 0;
  waiting = 0;
  leaving = 0;
  at_barrier = 0;
  barrier_locked = 0;
  barrier_running = 0;
  finished = 0;
  pushed = [];
  unparking = [];
  idle_processor_count = 0;
  spinning_processor_count = 0;
  shutdown_sent = false;
  stopped = false;
  all_notified = false;
}

unfoldable pub inc_spinning : World → World
inc_spinning w = record w {
  running = w.running - 1;
  spinning = w.spinning + 1;
  spinning_processor_count = w.spinning_processor_count + 1;
}

unfoldable pub dec_spinning : World → World
dec_spinning w = record w {
  running = w.running + 1;
  spinning = w.spinning - 1;
  spinning_processor_count = w.spinning_processor_count - 1;
}

-- `park_processor`, up to the mutex.
unfoldable pub park_processor : World → World
park_processor w = record w {
  running = w.running - 1;
  idle = w.idle + 1;
  idle_processor_count = w.idle_processor_count + 1;
}

-- With the mutex: `before_wait` finds nothing in the global queue, or something, here the rest of the
-- queue being `rest`, or it is not called.
unfoldable pub park_before_wait : List Handle → World → World
park_before_wait rest w =
    if w.stopped
    then record w { idle = w.idle - 1; leaving = w.leaving + 1 }
    else elim w.global.queue [
      | [] ↦ record w { idle = w.idle - 1; checked = w.checked + 1 }
      | h ∷ hs ↦ record w { global = refilled rest; idle = w.idle - 1; leaving = w.leaving + 1 }
    ]

unfoldable pub park_wait : World → World
park_wait w = record w { checked = w.checked - 1; waiting = w.waiting + 1 }

unfoldable pub park_leave : World → World
park_leave w = record w {
  running = w.running + 1;
  leaving = w.leaving - 1;
  idle_processor_count = w.idle_processor_count - 1;
}

-- What a thread does with the size behind its push.
unfoldable pub unpark_processors_with_queue_size : ℕ → World → World
unfolding unpark_count max_for_size
unpark_processors_with_queue_size size w =
    elim (unpark_count (max_for_size size) w.idle_processor_count w.spinning_processor_count) [
      | zero ↦ w
      | suc cnt ↦ record w { unparking = suc cnt ∷ w.unparking }
    ]

-- `cnt` times `notify_one`, with the mutex.
unfoldable pub notify : ℕ → World → World
notify cnt w = record w { waiting = w.waiting - cnt; leaving = w.leaving + min cnt w.waiting }

-- The end of `run`: the flag is set, with the mutex, and all are notified.
unfoldable pub stop : World → World
stop w = record w { stopped = true }

unfoldable pub notify_all : World → World
notify_all w = record w { waiting = 0; leaving = w.leaving + w.waiting; all_notified = true }

-- `fetch_foreign_coroutines` takes the shutdown message: in `schedule`, in `resume` behind a suspended
-- coroutine when the own queue is empty, or in `before_wait`.
unfoldable pub take_shutdown : World → World
take_shutdown w = record w { spinning = w.spinning - 1; at_barrier = w.at_barrier + 1 }

unfoldable pub take_shutdown_running : World → World
take_shutdown_running w = record w {
  running = w.running - 1;
  barrier_running = w.barrier_running + 1;
}

unfoldable pub take_shutdown_locked : World → World
take_shutdown_locked w = record w { idle = w.idle - 1; barrier_locked = w.barrier_locked + 1 }

-- All are at the barrier.
unfoldable pub open_barrier : World → World
open_barrier w = record w {
  at_barrier = 0;
  spinning = w.spinning + w.at_barrier;
  barrier_locked = 0;
  checked = w.checked + w.barrier_locked;
  barrier_running = 0;
  running = w.running + w.barrier_running;
}

-- `should_finish` ends the loop of `schedule`.
unfoldable pub finish : World → World
finish w = record w { running = w.running - 1; finished = w.finished + 1 }

-- How many hold the mutex.
abbrev pub holders : World → ℕ
holders w = w.checked + w.barrier_locked

-- How many are not at the barrier.
abbrev pub elsewhere : World → ℕ
elsewhere w = w.running + w.spinning + w.idle + w.checked + w.waiting + w.leaving + w.finished

pub data Step (w : World) : World → Type 0 where
  spins : 0 < w.running → Step w (inc_spinning w)
  fetches :
      (rest : List Handle)
      → 0 < w.running + w.spinning
      → Step w (record w { global = refilled rest })
  stops_spinning : 0 < w.spinning → Step w (dec_spinning w)
  parks : 0 < w.running → Step w (park_processor w)
  checks : (rest : List Handle) → 0 < w.idle → holders w ≡ 0 → Step w (park_before_wait rest w)
  waits : 0 < w.checked → Step w (park_wait w)
  wakes_up :
      0 < w.waiting
      → holders w ≡ 0
      → Step w (record w { waiting = w.waiting - 1; leaving = w.leaving + 1 })
  leaves : 0 < w.leaving → Step w (park_leave w)
  pushes :
      (iter : List Handle)
      → Step w (record w {
        global = (push_global_queue_iter iter w.global).1;
        pushed = (push_global_queue_iter iter w.global).0 ∷ w.pushed;
      })
  tests :
      (size : ℕ) (sizes : List ℕ)
      → w.pushed ≡ size ∷ sizes
      → Step w (unpark_processors_with_queue_size size (record w { pushed = sizes }))
  notifies :
      (cnt : ℕ) (cnts : List ℕ)
      → w.unparking ≡ cnt ∷ cnts
      → holders w ≡ 0
      → Step w (notify cnt (record w { unparking = cnts }))
  sends_shutdown : Step w (record w { shutdown_sent = true })
  takes_shutdown : 0 < w.spinning → w.shutdown_sent ≡ true → Step w (take_shutdown w)
  takes_shutdown_running : 0 < w.running → w.shutdown_sent ≡ true → Step w (take_shutdown_running w)
  takes_shutdown_locked :
      0 < w.idle
      → holders w ≡ 0
      → w.stopped ≡ false
      → w.shutdown_sent ≡ true
      → Step w (take_shutdown_locked w)
  opens_barrier : elsewhere w ≡ 0 → Step w (open_barrier w)
  finishes : 0 < w.running → w.shutdown_sent ≡ true → Step w (finish w)
  shuts_down : holders w ≡ 0 → w.shutdown_sent ≡ true → Step w (stop w)
  ends : w.stopped ≡ true → Step w (notify_all w)

pub data Reach (processors : ℕ) (main_coro : Handle) : World → Type 0 where
  begin : Reach processors main_coro (start processors main_coro)
  later : {v w : World} → Reach processors main_coro v → Step v w → Reach processors main_coro w
