-- ===== src/Sync/Semaphore.antt =====
-- src/sync/semaphore.rs. The spin lock is held through each operation, and through the callback that
-- parks the caller, so an operation is one step. The wait list is taken by what `HandleList` holds.
pub mod Fair
mod Tests
use coio_rs.Base.{
  ℕ, ◌+◌, ◌-◌, Bool, true, false, Option, none, some, List, [], ◌∷◌, ◌++◌, ltb, if◌then◌else◌,
  wrapping_add,
}

abbrev pub Handle : Type 0
Handle = ℕ

pub record Semaphore : Type 0 where
  pub count : ℕ
  pub waiters : List Handle

unfoldable pub new : ℕ → Semaphore
new count = record { count = count; waiters = [] }

-- What becomes of the caller of `acquire`: it goes on, it is parked in the wait list, or it panics.
pub data Acquire : Type 0 where
  acquired parked panicked : Acquire

-- The caller is the current coroutine of a processor, or a thread without one. A caller that panics
-- has changed nothing.
unfoldable pub acquire : Option Handle → Semaphore → Acquire × Semaphore
acquire caller s =
    if ltb 0 s.count then (acquired, record s { count = s.count - 1 }) else elim caller [
      | some coro ↦ (parked, record s { waiters = s.waiters ++ (coro ∷ []) })
      | none ↦ (panicked, s)
    ]

-- `free` says whether `try_lock` of the spin lock succeeds.
unfoldable pub try_acquire : Bool → Semaphore → Bool × Semaphore
try_acquire free s =
    if free
    then if ltb 0 s.count then (true, record s { count = s.count - 1 }) else (false, s)
    else (false, s)

-- The coroutine that is made ready, if any.
unfoldable pub release : Semaphore → Option Handle × Semaphore
release s = elim s.waiters [
  | [] ↦ (none, record s { count = wrapping_add s.count 1 })
  | h ∷ rest ↦ (some h, record s { waiters = rest })
]
