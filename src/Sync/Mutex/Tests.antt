-- ===== src/Sync/Mutex/Tests.antt =====
-- Mutexes at work.
use coio_rs.Base.{◌≡◌, refl, arith, ℕ, ◌<◌, some, none, [], true}
use coio_rs.Sync.Semaphore.{acquire, release, acquired}
use coio_rs.Sync.Semaphore as S
use coio_rs.Sync.Mutex.{Mutex, new, lock, drop, try_lock, ok}
use coio_rs.Sync.Mutex.Exclusion.{
  Guarded, begin, later, locks, drops, Exclusive, Reach-Exclusive, after_lock, after_drop,
  try_lock-drop-lock,
}

abbrev locked : Guarded ℕ
locked = after_lock 0 (lock (some 7) (new 5))

abbrev dropped : Guarded ℕ
dropped = after_drop locked.guards (drop locked.mutex)

one_guard : 0 < locked.guards
unfolding lock acquire new S.new
one_guard = omega arith

Reach-Exclusive_example : Exclusive dropped
Reach-Exclusive_example =
    Reach-Exclusive {x = 5} (later (later begin (locks (some 7))) (drops one_guard))

abbrev held : Mutex ℕ
held = record { data_cell = 5; sema = record { count = 0; waiters = [] } }

try_lock-drop-lock_example :
    (try_lock true held ≡ (ok, held))
    × (drop held).0 ≡ none
    × lock (some 8) (drop held).1 ≡ (acquired, held)
try_lock-drop-lock_example = try_lock-drop-lock held true (some 8) refl refl
