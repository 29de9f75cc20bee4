-- ===== src/Sync/Mutex/Exclusion.antt =====
-- How many guards of a mutex of src/sync/mutex.rs there are at once.
use coio_rs.Base.{
  ℕ, ◌+◌, ◌-◌, ◌<◌, ◌≡◌, ◌⊎◌, refl, inl, inr, Bool, true, false, Option, none, some, List, [], ◌∷◌,
  arith, ltb, Bool-cases,
}
use coio_rs.Sync.Semaphore.{
  Handle, Acquire, acquired, parked, panicked, acquire, try_acquire, release,
}
use coio_rs.Sync.Semaphore as S
use coio_rs.Sync.Mutex.{Mutex, new, lock, ok, poison_error, try_lock, drop, deref_mut}

pub record Guarded {ℓ} (A : Type ℓ) : Type ℓ where
  pub mutex : Mutex A
  pub guards : ℕ

abbrev pub guarded {ℓ} : {A : Type ℓ} → Mutex A → ℕ → Guarded A
guarded m n = record { mutex = m; guards = n }

abbrev pub after_lock {ℓ} : {A : Type ℓ} → ℕ → Acquire × Mutex A → Guarded A
after_lock n (acquired, m) = guarded m (n + 1)
after_lock n (parked, m) = guarded m n
after_lock n (panicked, m) = guarded m n

-- The guard of a woken coroutine takes the place of the one that is dropped.
abbrev pub after_drop {ℓ} : {A : Type ℓ} → ℕ → Option Handle × Mutex A → Guarded A
after_drop n (none, m) = guarded m (n - 1)
after_drop n (some h, m) = guarded m n

-- What users of `lock` do, in any order.
pub data Step {ℓ} {A : Type ℓ} (s : Guarded A) : Guarded A → Type ℓ where
  locks : (caller : Option Handle) → Step s (after_lock s.guards (lock caller s.mutex))
  writes : (x : A) → 0 < s.guards → Step s (guarded (deref_mut x s.mutex) s.guards)
  drops : 0 < s.guards → Step s (after_drop s.guards (drop s.mutex))

pub data Reach {ℓ} {A : Type ℓ} (x : A) : Guarded A → Type ℓ where
  begin : Reach x (guarded (new x) 0)
  later : {s t : Guarded A} → Reach x s → Step s t → Reach x t

pub record Exclusive {ℓ} {A : Type ℓ} (s : Guarded A) : Type 0 where
  pub one : s.mutex.sema.count + s.guards ≡ 1
  pub busy : (s.mutex.sema.waiters ≡ []) ⊎ (s.guards ≡ 1)

lock-Exclusive {ℓ} :
    {A : Type ℓ} (s : Guarded A) (caller : Option Handle)
    → Exclusive s
    → Exclusive (after_lock s.guards (lock caller s.mutex))
unfolding lock acquire
lock-Exclusive s none v = ground arith
lock-Exclusive s (some c) v = ground arith

drop-Exclusive {ℓ} :
    {A : Type ℓ} (s : Guarded A) (ws : List Handle)
    → 0 < s.guards
    → s.mutex.sema.waiters ≡ ws
    → Exclusive s
    → Exclusive (after_drop s.guards (drop s.mutex))
unfolding drop release
drop-Exclusive s [] pos e v = ground arith
drop-Exclusive s (w ∷ ws) pos e v = ground arith

Step-Exclusive {ℓ} : {A : Type ℓ} {s t : Guarded A} → Step s t → Exclusive s → Exclusive t
unfolding deref_mut
Step-Exclusive {s = s} (locks caller) v = lock-Exclusive s caller v
Step-Exclusive (writes x pos) v = record { one = v.one; busy = v.busy }
Step-Exclusive {s = s} (drops pos) v = drop-Exclusive s s.mutex.sema.waiters pos refl v

-- While a mutex is used by `lock` only, at most one guard is out at a time, the semaphore has a permit
-- exactly if there is none, and nobody waits for a guard while none is out.
pub Reach-Exclusive {ℓ} : {A : Type ℓ} {x : A} {s : Guarded A} → Reach x s → Exclusive s
unfolding new S.new
Reach-Exclusive begin = record { one = refl; busy = inl refl }
Reach-Exclusive (later r st) = Step-Exclusive st (Reach-Exclusive r)

-- When a mutex is locked and nobody waits, `try_lock` gives `Ok` with a guard and takes no permit, and
-- after that guard is dropped, a further `lock` acquires, though the first guard is still there.
pub try_lock-drop-lock {ℓ} :
    {A : Type ℓ} (m : Mutex A) (free : Bool) (caller : Option Handle)
    → m.sema.count ≡ 0
    → m.sema.waiters ≡ []
    → (try_lock free m ≡ (ok, m)) × (drop m).0 ≡ none × lock caller (drop m).1 ≡ (acquired, m)
unfolding try_lock drop lock acquire release try_acquire
try_lock-drop-lock m true caller e w = ground arith
try_lock-drop-lock m false caller e w = ground arith

-- `try_lock` gives `Err` exactly if it took the permit, with one permit less, and `Ok` exactly if it
-- changed nothing.
pub try_lock_lem {ℓ} :
    {A : Type ℓ} (m : Mutex A) (free : Bool)
    → ((try_lock free m).0 ≡ poison_error) × ((try_lock free m).1.sema.count + 1 ≡ m.sema.count)
      ⊎ ((try_lock free m ≡ (ok, m)))
unfolding try_lock try_acquire
try_lock_lem m true = elim (Bool-cases (ltb 0 m.sema.count)) [
  | inl e ↦ inl (ground arith)
  | inr e ↦ inr (ground arith)
]
try_lock_lem m false = inr (ground arith)
