-- ===== src/Scheduler/GlobalQueue/Awake.antt =====
-- Whether the idle processors of src/scheduler.rs are woken when the global queue is filled.
use coio_rs.Base.{ℕ, ◌+◌, ◌<◌, ◌≤◌, ◌≡◌, ◌⊎◌, refl, true, false, List, [], ◌∷◌, length, arith}
use coio_rs.Sync.Semaphore.{Handle}
use coio_rs.Scheduler.GlobalQueue.{push_global_queue_iter, max_for_size, unpark_count}
use coio_rs.Scheduler.GlobalQueue.Parking.{
  World, inc_spinning, dec_spinning, park_processor, park_before_wait, park_wait, park_leave,
  unpark_processors_with_queue_size, notify, stop, notify_all, take_shutdown, take_shutdown_running,
  take_shutdown_locked, open_barrier, finish, finishes, holders, elsewhere, sends_shutdown,
  takes_shutdown, takes_shutdown_running, takes_shutdown_locked, opens_barrier, Step, spins,
  fetches, stops_spinning, parks, checks, waits, wakes_up, leaves, pushes, tests, notifies,
  shuts_down, ends, Reach, begin, later,
}

-- Processors that look at the global queue before they wait.
abbrev pub awake : World → ℕ
awake w = w.running + w.spinning + w.idle + w.leaving

-- All notifications that are about to be given.
abbrev pub AllPositive : List ℕ → Type 0
AllPositive [] = 0 ≤ 0
AllPositive (n ∷ ns) = (0 < n) × AllPositive ns

pub record Watched (processors : ℕ) (w : World) : Type 0 where
  pub everyone : elsewhere w + w.at_barrier + w.barrier_running + w.barrier_locked ≡ processors
  pub one_holds : holders w ≤ 1
  pub idle_counted :
      w.idle_processor_count ≡ w.idle + w.checked + w.waiting + w.leaving + w.barrier_locked
  pub spinning_counted : w.spinning_processor_count ≡ w.spinning + w.at_barrier
  pub sized : w.global.size ≡ length w.global.queue
  pub notified :
      (w.shutdown_sent ≡ true)
      ⊎ ((w.global.queue ≡ []) ⊎ (0 < awake w + length w.pushed + length w.unparking))
  pub positive : AllPositive w.unparking
  pub before_shutdown :
      (w.shutdown_sent ≡ true)
      ⊎ (w.at_barrier + w.barrier_running + w.barrier_locked + w.finished ≡ 0)
  pub stops : (w.stopped ≡ false) ⊎ (holders w ≡ 0)
  pub stays : (w.all_notified ≡ false) ⊎ ((w.stopped ≡ true) × (w.waiting + holders w ≡ 0))

checks-Watched :
    (n : ℕ) (w : World) (rest queue : List Handle)
    → w.global.queue ≡ queue
    → 0 < w.idle
    → holders w ≡ 0
    → Watched n w
    → Watched n (park_before_wait rest w)
unfolding park_before_wait
checks-Watched n w rest [] e pos c v = ground arith
checks-Watched n w rest (h ∷ hs) e pos c v = ground arith

tests-Watched :
    (n : ℕ) (w : World) (size : ℕ) (sizes : List ℕ)
    → 0 < n
    → w.pushed ≡ size ∷ sizes
    → Watched n w
    → Watched n (unpark_processors_with_queue_size size (record w { pushed = sizes }))
unfolding unpark_processors_with_queue_size unpark_count max_for_size
tests-Watched n w size sizes pos e v = ground arith

notifies-Watched :
    (n : ℕ) (w : World) (cnt : ℕ) (cnts : List ℕ)
    → 0 < n
    → w.unparking ≡ cnt ∷ cnts
    → holders w ≡ 0
    → Watched n w
    → Watched n (notify cnt (record w { unparking = cnts }))
unfolding notify
notifies-Watched n w cnt cnts pos e c v = ground arith

Step-Watched : (n : ℕ) (v w : World) → 0 < n → Step v w → Watched n v → Watched n w
unfolding inc_spinning dec_spinning park_processor park_wait park_leave stop notify_all
    take_shutdown take_shutdown_running take_shutdown_locked open_barrier finish
    push_global_queue_iter
Step-Watched n v _ pos (spins p) h = ground arith
Step-Watched n v _ pos (fetches rest p) h = ground arith
Step-Watched n v _ pos (stops_spinning p) h = ground arith
Step-Watched n v _ pos (parks p) h = ground arith
Step-Watched n v _ pos (checks rest p c) h = checks-Watched n v rest v.global.queue refl p c h
Step-Watched n v _ pos (waits p) h = ground arith
Step-Watched n v _ pos (wakes_up p c) h = ground arith
Step-Watched n v _ pos (leaves p) h = ground arith
Step-Watched n v _ pos (pushes iter) h = ground arith
Step-Watched n v _ pos (tests size sizes e) h = tests-Watched n v size sizes pos e h
Step-Watched n v _ pos (notifies cnt cnts e c) h = notifies-Watched n v cnt cnts pos e c h
Step-Watched n v _ pos sends_shutdown h = ground arith
Step-Watched n v _ pos (takes_shutdown p e) h = ground arith
Step-Watched n v _ pos (takes_shutdown_running p e) h = ground arith
Step-Watched n v _ pos (takes_shutdown_locked p c f e) h = ground arith
Step-Watched n v _ pos (opens_barrier e) h = ground arith
Step-Watched n v _ pos (finishes p e) h = ground arith
Step-Watched n v _ pos (shuts_down c e) h = ground arith
Step-Watched n v _ pos (ends e) h = ground arith

-- For at least one processor, in every order in which processors spin, park, wake up and take
-- shutdown messages, each at any place where it looks for one, and threads push to the global queue
-- and notify: until shutdown is sent, while something is in the global queue some processor will
-- still look at it before it waits, or a thread that has pushed is in front of its notification;
-- the two counters are the numbers of idle and of spinning processors, also of those that are at
-- the barrier then, the recorded size is the length of the queue, at most one holds the mutex; and
-- when all were notified at the end, none waits.
pub Reach-Watched :
    (n : ℕ) (main_coro : Handle) (w : World) → 0 < n → Reach n main_coro w → Watched n w
Reach-Watched n main_coro _ pos begin = ground arith
Reach-Watched n main_coro w pos (later {v = v} reach step) =
    Step-Watched n v w pos step (Reach-Watched n main_coro v pos reach)

-- A processor waits at the barrier with the mutex, and another at the condition variable.
abbrev pub Stuck : World → Type 0
Stuck w = (0 < w.barrier_locked) × (0 < w.waiting) × (w.stopped ≡ false)

-- When a processor waits at the shutdown barrier with the idle mutex, having taken its message in
-- before_wait, and another waits at the condition variable, no step of anyone changes that, and the
-- flag that ends the wait is not set.
pub Step-Stuck : (v w : World) → Step v w → Stuck v → Stuck w
unfolding inc_spinning dec_spinning park_processor park_wait park_leave stop notify_all
    take_shutdown take_shutdown_running take_shutdown_locked open_barrier finish
    push_global_queue_iter park_before_wait notify unpark_processors_with_queue_size
Step-Stuck v _ (spins p) h = ground arith
Step-Stuck v _ (fetches rest p) h = ground arith
Step-Stuck v _ (stops_spinning p) h = ground arith
Step-Stuck v _ (parks p) h = ground arith
Step-Stuck v _ (checks rest p c) h = ground arith
Step-Stuck v _ (waits p) h = ground arith
Step-Stuck v _ (wakes_up p c) h = ground arith
Step-Stuck v _ (leaves p) h = ground arith
Step-Stuck v _ (pushes iter) h = ground arith
Step-Stuck v _ (tests size sizes e) h = ground arith
Step-Stuck v _ (notifies cnt cnts e c) h = ground arith
Step-Stuck v _ sends_shutdown h = ground arith
Step-Stuck v _ (takes_shutdown p e) h = ground arith
Step-Stuck v _ (takes_shutdown_running p e) h = ground arith
Step-Stuck v _ (takes_shutdown_locked p c f e) h = ground arith
Step-Stuck v _ (opens_barrier e) h = ground arith
Step-Stuck v _ (finishes p e) h = ground arith
Step-Stuck v _ (shuts_down c e) h = ground arith
Step-Stuck v _ (ends e) h = ground arith
