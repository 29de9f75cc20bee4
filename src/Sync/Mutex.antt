-- ===== src/Sync/Mutex.antt =====
-- src/sync/mutex.rs. A mutex is a semaphore with one permit beside the data. A guard is the right to
-- write the data and, when it is dropped, to release the semaphore.
pub mod Exclusion
mod Tests
use coio_rs.Base.{ℕ, Bool, true, false, Option}
use coio_rs.Sync.Semaphore.{
  Handle, Semaphore, Acquire, acquired, parked, panicked, acquire, try_acquire, release,
}
use coio_rs.Sync.Semaphore as S

pub record Mutex {ℓ} (A : Type ℓ) : Type ℓ where
  pub data_cell : A
  pub sema : Semaphore

unfoldable pub new {ℓ} : {A : Type ℓ} → A → Mutex A
new x = record { data_cell = x; sema = S.new 1 }

-- The caller of `lock` has its guard at once if it acquired, and when it is woken if it is parked.
-- The `LockResult` is `Ok` in both cases.
unfoldable pub lock {ℓ} : {A : Type ℓ} → Option Handle → Mutex A → Acquire × Mutex A
lock caller m = let r = acquire caller m.sema in (r.0, record m { sema = r.1 })

-- Both constructors of `TryLockResult` hold a guard.
pub data TryLockResult : Type 0 where
  ok poison_error : TryLockResult

unfoldable pub try_lock {ℓ} : {A : Type ℓ} → Bool → Mutex A → TryLockResult × Mutex A
try_lock free m =
    let r = try_acquire free m.sema in
    elim (r.0) [
      | true ↦ (poison_error, record m { sema = r.1 })
      | false ↦ (ok, record m { sema = r.1 })
    ]

-- The drop of a guard.
unfoldable pub drop {ℓ} : {A : Type ℓ} → Mutex A → Option Handle × Mutex A
drop m = let r = release m.sema in (r.0, record m { sema = r.1 })

-- An assignment through a guard.
unfoldable pub deref_mut {ℓ} : {A : Type ℓ} → A → Mutex A → Mutex A
deref_mut x m = record m { data_cell = x }
