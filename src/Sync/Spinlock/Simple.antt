-- ===== src/Sync/Spinlock/Simple.antt =====
-- `Spinlock` of src/sync/spinlock.rs, with any number of threads. Its compare-and-swap is weak: it may
-- also fail, for no reason, while the lock is free.
pub mod Exclusive
mod Tests
use coio_rs.Base.{
  ℕ, ◌*◌, ◌^◌, ◌%◌, ◌≤◌, ◌<◌, ◌≡◌, ◌≢◌, ◌⊎◌, refl, inl, inr, sym, ap, ◌∙◌, Bool, true, false, not,
  ◌||◌, Option, none, some, arith, ◌==◌, if◌then◌else◌, Bool-cases, usize_mod, ℕ_discrete,
}

pub record Spinlock (A : Type 0) : Type 0 where
  pub lock : Bool
  pub value : A

abbrev pub backoff_base : ℕ
backoff_base = 2 ^ 4

abbrev pub backoff_ceiling : ℕ
backoff_ceiling = 2 ^ 12

-- Where a thread is: `spins` after a failure, with the rounds that it waits.
pub data Thread : Type 0 where
  outside holds : Thread
  locking : ℕ → Thread
  spins : ℕ → Thread

-- `backoff <<= (backoff != BACKOFF_CEILING) as usize`
unfoldable pub next_backoff : ℕ → ℕ
next_backoff b = (b * 2 ^ (if b == backoff_ceiling then 0 else 1)) % usize_mod

pub record World (A : Type 0) : Type 0 where
  pub spinlock : Spinlock A
  pub threads : ℕ → Thread

unfoldable pub at : (ℕ → Thread) → ℕ → Thread → ℕ → Thread
at ts i t j = if j == i then t else ts j

module _ {A : Type 0} where
  unfoldable pub new : A → Spinlock A
  new v = record { lock = false; value = v }

  -- `compare_exchange_weak(false, true)`, which fails if `fails` is set or the lock is taken.
  abbrev pub compare_exchange_weak : Bool → Spinlock A → Bool × Spinlock A
  compare_exchange_weak fails l =
      if fails || l.lock then (false, l) else (true, record l { lock = true })

  -- Whether there is a guard.
  unfoldable pub try_lock : Bool → Spinlock A → Bool × Spinlock A
  try_lock fails l = compare_exchange_weak fails l

  -- A round of the loop of `lock`, with the backoff.
  unfoldable pub lock_round : Bool → ℕ → Spinlock A → Thread × Spinlock A
  lock_round fails b l =
      let r = compare_exchange_weak fails l in (if r.0 then holds else spins b, r.1)

  -- The drop of the guard.
  unfoldable pub unlock : Spinlock A → Spinlock A
  unlock l = record l { lock = false }

  -- Through the guard.
  unfoldable pub write : A → Spinlock A → Spinlock A
  write v l = record l { value = v }

  abbrev pub moved : World A → ℕ → Thread → Spinlock A → World A
  moved w i t l = record { spinlock = l; threads = at w.threads i t }

  pub data Step (w : World A) : World A → Type 0 where
    tries :
        (i : ℕ) (fails : Bool)
        → w.threads i ≡ outside
        → Step w (
            moved w i
              (if (try_lock fails w.spinlock).0 then holds else outside)
              (try_lock fails w.spinlock).1)
    locks : (i : ℕ) → w.threads i ≡ outside → Step w (moved w i (locking backoff_base) w.spinlock)
    rounds :
        (i b : ℕ) (fails : Bool)
        → w.threads i ≡ locking b
        → Step w (moved w i (lock_round fails b w.spinlock).0 (lock_round fails b w.spinlock).1)
    waited :
        (i b : ℕ) → w.threads i ≡ spins b → Step w (moved w i (locking (next_backoff b)) w.spinlock)
    writes : (i : ℕ) (v : A) → w.threads i ≡ holds → Step w (moved w i holds (write v w.spinlock))
    unlocks : (i : ℕ) → w.threads i ≡ holds → Step w (moved w i outside (unlock w.spinlock))

  pub data Reach (v : A) : World A → Type 0 where
    begin : Reach v (record { spinlock = new v; threads = λ i. outside })
    later : {w w' : World A} → Reach v w → Step w w' → Reach v w'
