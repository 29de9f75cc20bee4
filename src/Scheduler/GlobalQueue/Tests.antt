-- ===== src/Scheduler/GlobalQueue/Tests.antt =====
-- Two processors, of which one is at the condition variable when the other takes its shutdown message in
-- front of it.
use coio_rs.Base.{◌≡◌, refl, arith, true, false, [], ◌∷◌}
use coio_rs.Scheduler.GlobalQueue.{push_global_queue_iter, unpark_count, max_for_size}
use coio_rs.Scheduler.GlobalQueue.Parking.{
  World, Step, inc_spinning, dec_spinning, park_processor, park_before_wait, park_wait,
  take_shutdown_locked, Reach, begin, later, fetches, parks, checks, waits, spins, stops_spinning,
  sends_shutdown, takes_shutdown_locked, pushes,
}
use coio_rs.Scheduler.GlobalQueue.Awake.{Watched, Reach-Watched, Stuck, Step-Stuck}

-- Four idle processors, and a queue that wants two of them.
unpark_four : unpark_count (max_for_size 200) 4 0 ≡ 2
unfolding unpark_count max_for_size
unpark_four = refl

unpark_none : unpark_count (max_for_size 200) 4 1 ≡ 0
unfolding unpark_count max_for_size
unpark_none = refl

-- The first has found the queue empty and waits; the second takes the message with the mutex.
abbrev deadlocked : World
deadlocked = record {
  global = record { queue = []; size = 0 };
  running = 0;
  spinning = 0;
  idle = 0;
  checked = 0;
  waiting = 1;
  leaving = 0;
  at_barrier = 0;
  barrier_locked = 1;
  barrier_running = 0;
  finished = 0;
  pushed = [];
  unparking = [];
  idle_processor_count = 2;
  spinning_processor_count = 0;
  shutdown_sent = true;
  stopped = false;
  all_notified = false;
}

deadlocked-Reach : Reach 2 7 deadlocked
unfolding inc_spinning dec_spinning park_processor park_before_wait park_wait take_shutdown_locked
deadlocked-Reach =
    let fetched = later begin (fetches [] (omega arith)) in
    let checked = later (later fetched (parks (omega arith))) (checks [] (omega arith) refl) in
    let waiting = later checked (waits (omega arith)) in
    let spun = later (later waiting (spins (omega arith))) (stops_spinning (omega arith)) in
    let parked = later (later spun sends_shutdown) (parks (omega arith)) in
    later parked (takes_shutdown_locked (omega arith) refl refl refl)

Reach-Watched_example : Watched 2 deadlocked
Reach-Watched_example = Reach-Watched 2 7 deadlocked (omega arith) deadlocked-Reach

-- A coroutine that is pushed now.
abbrev refilled : World
refilled = record deadlocked { global = record { queue = 5 ∷ []; size = 1 }; pushed = 1 ∷ [] }

deadlocked-Step : Step deadlocked refilled
unfolding push_global_queue_iter
deadlocked-Step = pushes (5 ∷ [])

Step-Stuck_example : Stuck refilled
Step-Stuck_example = Step-Stuck deadlocked refilled deadlocked-Step (omega arith, omega arith, refl)
