-- ===== src/JoinHandle.antt =====
-- src/join_handle.rs. `A` is the type of the results, `thread::Result<T>` in the code. The pair shares
-- a barrier and a cell.
pub mod Exchange
mod Tests
use coio_rs.Base.{ℕ, Bool, true, false, Option, none, some}
use coio_rs.Sync.Semaphore.{Handle}
use coio_rs.Sync.MonoBarrier.{
  State, Wait, returns_ok, parks, blocks, returns_err, Woken, wait, wait_round, notify,
}
use coio_rs.Sync.MonoBarrier as B

pub record JoinHandleInner {ℓ} (A : Type ℓ) : Type ℓ where
  pub barrier : State
  pub cell : Option A

unfoldable pub handle_pair {ℓ} : {A : Type ℓ} → JoinHandleInner A
handle_pair = record { barrier = B.new; cell = none }

-- `push` is two steps: the receiver may come between them.
unfoldable pub push_write {ℓ} : {A : Type ℓ} → A → JoinHandleInner A → JoinHandleInner A
push_write result inner = record inner { cell = some result }

unfoldable pub push_notify {ℓ} : {A : Type ℓ} → JoinHandleInner A → Woken × JoinHandleInner A
push_notify inner = let w = notify inner.barrier in (w.0, record inner { barrier = w.1 })

-- What becomes of the caller of `pop`.
pub data Pop {ℓ} (A : Type ℓ) : Type ℓ where
  popped : A → Pop A
  panics waits_parked waits_blocked : Pop A

-- `pop` behind the wait.
unfoldable pub pop_take {ℓ} : {A : Type ℓ} → JoinHandleInner A → Pop A × JoinHandleInner A
pop_take inner = elim inner.cell [
  | some result ↦ (popped result, record inner { cell = none })
  | none ↦ (panics, inner)
]

unfoldable pub pop_waited {ℓ} :
    {A : Type ℓ} → JoinHandleInner A → Wait × State → Pop A × JoinHandleInner A
pop_waited inner (returns_ok, s) = pop_take (record inner { barrier = s })
pop_waited inner (parks, s) = (waits_parked, record inner { barrier = s })
pop_waited inner (blocks, s) = (waits_blocked, record inner { barrier = s })
pop_waited inner (returns_err e, s) = (panics, record inner { barrier = s })

-- The lock of the barrier is not poisoned: nothing panics that holds it.
unfoldable pub pop {ℓ} :
    {A : Type ℓ} → Option Handle → JoinHandleInner A → Pop A × JoinHandleInner A
pop caller inner = pop_waited inner (wait false caller inner.barrier)

-- How `pop` goes on when it is woken: a coroutine returns from `wait`, a thread is back in its loop.
unfoldable pub pop_resume {ℓ} :
    {A : Type ℓ} → Option Handle → JoinHandleInner A → Pop A × JoinHandleInner A
pop_resume (some coro) inner = pop_take inner
pop_resume none inner = pop_waited inner (wait_round none inner.barrier)
