-- ===== src/Sync/MonoBarrier.antt =====
-- src/sync/mono_barrier.rs. `MonoBarrier` is a state behind a lock and a condition variable; what its
-- operations do between taking the lock and giving it back, or waiting on the condition variable, is
-- one step. The wait list of the condition variable is not modelled: a thread in it may be woken by
-- `notify_one` or for no reason.
pub mod Notifications
pub mod Coro
mod Tests
use coio_rs.Base.{ℕ, Bool, true, false, Option, none, some, if◌then◌else◌}
use coio_rs.Sync.Semaphore.{Handle}

pub data State : Type 0 where
  empty ready thread : State
  coroutine : Handle → State

pub data MonoBarrierError : Type 0 where
  occupied poison_error : MonoBarrierError

-- What becomes of the caller of `wait`: it returns, it is parked until its coroutine is made ready and
-- returns `Ok` then, or it waits on the condition variable.
pub data Wait : Type 0 where
  returns_ok parks blocks : Wait
  returns_err : MonoBarrierError → Wait

unfoldable pub new : State
new = empty

-- The body of the loop of `wait`, behind the lock or behind the condition variable.
unfoldable pub wait_round : Option Handle → State → Wait × State
wait_round caller ready = (returns_ok, empty)
wait_round (some coro) empty = (parks, coroutine coro)
wait_round none empty = (blocks, thread)
wait_round caller thread = (returns_err occupied, thread)
wait_round caller (coroutine coro) = (returns_err occupied, coroutine coro)

-- `poisoned` says whether the lock, or the condition variable, gives `Err`.
unfoldable pub wait : Bool → Option Handle → State → Wait × State
wait poisoned caller s = if poisoned then (returns_err poison_error, s) else wait_round caller s

-- Whom `notify` wakes.
pub data Woken : Type 0 where
  no_one one_thread : Woken
  one_coroutine : Handle → Woken

unfoldable pub notify : State → Woken × State
notify empty = (no_one, ready)
notify ready = (no_one, ready)
notify (coroutine coro) = (one_coroutine coro, empty)
notify thread = (one_thread, ready)
