-- ===== src/Scheduler/Run.antt =====
-- `Scheduler::run` of src/scheduler.rs from the first push to the result, with `Processor::spawn` and the
-- two barriers of src/runtime/processor.rs: the thread that calls it, the threads of the processors and
-- the main coroutine, which its processor runs to its end once it has fetched it. The processors park
-- and wake up, with the idle mutex and its condition variable; what else they do is left out, and so
-- is the panic hook.
--
-- `A` is `thread::Result<T>`, and `outcome` what becomes of the function.
pub mod Phases
pub mod Threads
pub mod Calls
pub mod Steps
pub mod Parked
pub mod Resting
pub mod Places
pub mod Measure
pub mod Progress
pub mod Returns
mod Tests
use coio_rs.Base.{
  ℕ, zero, suc, ◌+◌, ◌<◌, ◌≡◌, ◌≢◌, Bool, true, false, not, ◌&&◌, Option, none, some, List, [], ◌∷◌,
  ◌++◌, ltb, if◌then◌else◌, length, get_elem?, set_at,
}

-- Where the caller of `run` is: `spawning` and `sending` and `joining` have how many processors are done.
pub data Caller : Type 0 where
  pushing : Caller
  spawning : ℕ → Caller
  at_start looping : Caller
  sending : ℕ → Caller
  stopping locking notifying : Caller
  joining : ℕ → Caller
  returned : Caller

-- Where the thread of a processor is: not at the first barrier yet, at it, in the loop of `schedule`, in
-- it with the main coroutine, in `park_processor` in front of the mutex, at the condition variable, or
-- behind it in front of the mutex, at the barrier of the message, there in `before_wait` with the
-- mutex, behind that at the condition variable or behind it, behind the loop, at its end.
pub data Place : Type 0 where
  spawned at_start_barrier scheduling running_main parking waiting leaving : Place
  at_shutdown_barrier locked_at_barrier waiting_last leaving_last finishing ended : Place

-- `mail`: the message `Shutdown` was sent to it.
pub record Machine : Type 0 where
  pub place : Place
  pub mail : Bool

-- The main coroutine: in the global queue, with a processor, behind its function, behind its last
-- message.
pub data MainCoro : Type 0 where
  unborn queued running stored finished : MainCoro

-- `stopped` is the flag in the idle mutex.
pub record World (A : Type 0) : Type 0 where
  pub caller : Caller
  pub machines : List Machine
  pub main_coro : MainCoro
  pub result : Option A
  pub shutdown_sent : Bool
  pub is_running : Bool
  pub is_shutting_down : Bool
  pub stopped : Bool

-- Whether all have come as far as a barrier.
unfoldable pub started : Place → Bool
started spawned = false
started at_start_barrier = true
started scheduling = true
started running_main = true
started parking = true
started waiting = true
started leaving = true
started locked_at_barrier = true
started waiting_last = true
started leaving_last = true
started at_shutdown_barrier = true
started finishing = true
started ended = true

unfoldable pub shut_down : Place → Bool
shut_down spawned = false
shut_down at_start_barrier = false
shut_down scheduling = false
shut_down running_main = false
shut_down parking = false
shut_down waiting = false
shut_down leaving = false
shut_down locked_at_barrier = true
shut_down waiting_last = true
shut_down leaving_last = true
shut_down at_shutdown_barrier = true
shut_down finishing = true
shut_down ended = true

-- Whether a processor there is without the mutex.
unfoldable pub unlocked : Place → Bool
unlocked spawned = true
unlocked at_start_barrier = true
unlocked scheduling = true
unlocked running_main = true
unlocked parking = true
unlocked waiting = true
unlocked leaving = true
unlocked at_shutdown_barrier = true
unlocked locked_at_barrier = false
unlocked waiting_last = true
unlocked leaving_last = true
unlocked finishing = true
unlocked ended = true

-- Where `notify_all` leaves it.
unfoldable pub woken : Place → Place
woken spawned = spawned
woken at_start_barrier = at_start_barrier
woken scheduling = scheduling
woken running_main = running_main
woken parking = parking
woken waiting = leaving
woken leaving = leaving
woken at_shutdown_barrier = at_shutdown_barrier
woken locked_at_barrier = locked_at_barrier
woken waiting_last = leaving_last
woken leaving_last = leaving_last
woken finishing = finishing
woken ended = ended

unfoldable pub wake : List Machine → List Machine
wake [] = []
wake (m ∷ ms) = record { place = woken m.place; mail = m.mail } ∷ wake ms

unfoldable pub all_of : (Place → Bool) → List Machine → Bool
all_of f [] = true
all_of f (m ∷ ms) = f (m.place) && all_of f ms

unfoldable pub caller_started : Caller → Bool
caller_started pushing = false
caller_started (spawning k) = false
caller_started at_start = true
caller_started looping = true
caller_started (sending k) = true
caller_started stopping = true
caller_started locking = true
caller_started notifying = true
caller_started (joining k) = true
caller_started returned = true

module _ {A : Type 0} where
  abbrev pub fresh : World A
  fresh = record {
    caller = pushing;
    machines = [];
    main_coro = unborn;
    result = none;
    shutdown_sent = false;
    is_running = true;
    is_shutting_down = false;
    stopped = false;
  }

  abbrev pub calls : World A → Caller → World A
  calls w c = record w { caller = c }

  abbrev pub moves : World A → ℕ → Place → Bool → World A
  moves w i p b = record w { machines = set_at i (record { place = p; mail = b }) (w.machines) }

  -- `push_global_queue(main_coro)`.
  unfoldable pub push_main : World A → World A
  push_main w = record w { main_coro = queued; caller = spawning 0 }

  -- One more processor; behind the last the caller comes to the barrier.
  unfoldable pub spawn_machine : ℕ → ℕ → World A → World A
  spawn_machine workers k w =
      if ltb k workers
      then record w {
        machines = w.machines ++ (record { place = spawned; mail = false } ∷ []);
        caller = spawning (k + 1);
      }
      else calls w at_start

  -- The first barrier lets through when all threads of the processors and the caller are there.
  unfoldable pub start_open : World A → Bool
  unfolding started all_of caller_started
  start_open w = caller_started w.caller && all_of started w.machines

  -- The barrier of the message lets through when all threads of the processors are there.
  unfoldable pub shutdown_open : World A → Bool
  unfolding shut_down all_of
  shutdown_open w = all_of shut_down w.machines

  -- Nobody has the idle mutex; the caller has it only within a step.
  unfoldable pub mutex_free : World A → Bool
  unfolding unlocked all_of
  mutex_free w = all_of unlocked w.machines

  -- A processor goes on with the main coroutine.
  unfoldable pub fetch_main : ℕ → Bool → World A → World A
  fetch_main i mail w = record (moves w i running_main mail) { main_coro = running }

  -- The wrapper of the main coroutine: it stores the result, then it sends the message.
  unfoldable pub run_main : A → World A → World A
  run_main outcome w = record w { result = some outcome; main_coro = stored }

  unfoldable pub send_shutdown : ℕ → Bool → World A → World A
  send_shutdown i mail w = record (moves w i scheduling mail) {
    shutdown_sent = true;
    main_coro = finished;
  }

  -- A round of the event loop, which stops when it finds the message.
  unfoldable pub run_once : World A → World A
  run_once w = record w { is_running = w.is_running && not (w.shutdown_sent) }

  -- The message to the next processor; behind the last one it goes on to `is_shutting_down`.
  unfoldable pub send_to : ℕ → World A → World A
  send_to k w = elim (get_elem? w.machines k) [
    | none ↦ calls w stopping
    | some m ↦ record w {
      machines = set_at k (record { place = m.place; mail = true }) (w.machines);
      caller = sending (k + 1);
    }
  ]

  unfoldable pub shut : World A → World A
  shut w = record w { is_shutting_down = true; caller = locking }

  -- The flag in the mutex, and `notify_all`.
  unfoldable pub stop : World A → World A
  stop w = record w { stopped = true; caller = notifying }

  unfoldable pub notify_all : World A → World A
  notify_all w = record w { machines = wake w.machines; caller = joining 0 }

module _ {A : Type 0} (workers : ℕ) (outcome : A) where
  -- The steps to the end. A round of the event loop that does not find the message changes nothing, and
  -- is left out.
  pub data Work (w : World A) : World A → Type 0 where
    pushes : w.caller ≡ pushing → Work w (push_main w)
    spawns : (k : ℕ) → w.caller ≡ spawning k → Work w (spawn_machine workers k w)
    starts : w.caller ≡ at_start → start_open w ≡ true → Work w (calls w looping)
    loops : w.caller ≡ looping → w.is_running ≡ true → w.shutdown_sent ≡ true → Work w (run_once w)
    leaves : w.caller ≡ looping → w.is_running ≡ false → Work w (calls w (sending 0))
    sends : (k : ℕ) → w.caller ≡ sending k → Work w (send_to k w)
    shuts : w.caller ≡ stopping → Work w (shut w)
    stops : w.caller ≡ locking → mutex_free w ≡ true → Work w (stop w)
    notifies : w.caller ≡ notifying → Work w (notify_all w)
    joins :
        (k : ℕ) (m : Machine)
        → w.caller ≡ joining k
        → get_elem? w.machines k ≡ some m
        → m.place ≡ ended
        → Work w (calls w (joining (k + 1)))
    returns :
        (k : ℕ) → w.caller ≡ joining k → get_elem? w.machines k ≡ none → Work w (calls w returned)
    arrives :
        (i : ℕ) (m : Machine)
        → get_elem? w.machines i ≡ some m
        → m.place ≡ spawned
        → Work w (moves w i at_start_barrier m.mail)
    begins :
        (i : ℕ) (m : Machine)
        → get_elem? w.machines i ≡ some m
        → m.place ≡ at_start_barrier
        → start_open w ≡ true
        → Work w (moves w i scheduling m.mail)
    fetches_main :
        (i : ℕ) (m : Machine)
        → get_elem? w.machines i ≡ some m
        → m.place ≡ scheduling
        → w.main_coro ≡ queued
        → Work w (fetch_main i m.mail w)
    finds_main :
        (i : ℕ) (m : Machine)
        → get_elem? w.machines i ≡ some m
        → m.place ≡ parking
        → mutex_free w ≡ true
        → w.stopped ≡ false
        → m.mail ≡ false
        → w.main_coro ≡ queued
        → Work w (fetch_main i m.mail w)
    runs_main :
        (i : ℕ) (m : Machine)
        → get_elem? w.machines i ≡ some m
        → m.place ≡ running_main
        → w.main_coro ≡ running
        → Work w (run_main outcome w)
    sends_shutdown :
        (i : ℕ) (m : Machine)
        → get_elem? w.machines i ≡ some m
        → m.place ≡ running_main
        → w.main_coro ≡ stored
        → Work w (send_shutdown i m.mail w)
    receives :
        (i : ℕ) (m : Machine)
        → get_elem? w.machines i ≡ some m
        → m.place ≡ scheduling
        → m.mail ≡ true
        → Work w (moves w i at_shutdown_barrier m.mail)
    passes :
        (i : ℕ) (m : Machine)
        → get_elem? w.machines i ≡ some m
        → m.place ≡ at_shutdown_barrier
        → shutdown_open w ≡ true
        → Work w (moves w i finishing m.mail)
    passes_locked :
        (i : ℕ) (m : Machine)
        → get_elem? w.machines i ≡ some m
        → m.place ≡ locked_at_barrier
        → shutdown_open w ≡ true
        → Work w (moves w i waiting_last m.mail)
    skips :
        (i : ℕ) (m : Machine)
        → get_elem? w.machines i ≡ some m
        → m.place ≡ parking
        → mutex_free w ≡ true
        → w.stopped ≡ true
        → Work w (moves w i scheduling m.mail)
    unparks :
        (i : ℕ) (m : Machine)
        → get_elem? w.machines i ≡ some m
        → m.place ≡ leaving
        → mutex_free w ≡ true
        → Work w (moves w i scheduling m.mail)
    unparks_last :
        (i : ℕ) (m : Machine)
        → get_elem? w.machines i ≡ some m
        → m.place ≡ leaving_last
        → mutex_free w ≡ true
        → Work w (moves w i finishing m.mail)
    ends :
        (i : ℕ) (m : Machine)
        → get_elem? w.machines i ≡ some m
        → m.place ≡ finishing
        → Work w (moves w i ended m.mail)

  -- Or a processor parks: in front of the mutex, then, unless the flag is set, in `before_wait`, which
  -- takes the message, or finds a coroutine, or finds nothing, so that it waits; it is woken by
  -- `notify_one` or for no reason.
  pub data Step (w : World A) : World A → Type 0 where
    works : {w' : World A} → Work w w' → Step w w'
    parks :
        (i : ℕ) (m : Machine)
        → get_elem? w.machines i ≡ some m
        → m.place ≡ scheduling
        → w.is_shutting_down ≡ false
        → Step w (moves w i parking m.mail)
    receives_locked :
        (i : ℕ) (m : Machine)
        → get_elem? w.machines i ≡ some m
        → m.place ≡ parking
        → mutex_free w ≡ true
        → w.stopped ≡ false
        → m.mail ≡ true
        → Step w (moves w i locked_at_barrier m.mail)
    finds :
        (i : ℕ) (m : Machine)
        → get_elem? w.machines i ≡ some m
        → m.place ≡ parking
        → mutex_free w ≡ true
        → w.stopped ≡ false
        → m.mail ≡ false
        → Step w (moves w i scheduling m.mail)
    waits :
        (i : ℕ) (m : Machine)
        → get_elem? w.machines i ≡ some m
        → m.place ≡ parking
        → mutex_free w ≡ true
        → w.stopped ≡ false
        → m.mail ≡ false
        → w.main_coro ≢ queued
        → Step w (moves w i waiting m.mail)
    wakes :
        (i : ℕ) (m : Machine)
        → get_elem? w.machines i ≡ some m
        → m.place ≡ waiting
        → Step w (moves w i leaving m.mail)
    wakes_last :
        (i : ℕ) (m : Machine)
        → get_elem? w.machines i ≡ some m
        → m.place ≡ waiting_last
        → Step w (moves w i leaving_last m.mail)

  pub data Reach : World A → Type 0 where
    begin : Reach fresh
    later : {w w' : World A} → Reach w → Step w w' → Reach w'
