-- ===== src/Sync/Spinlock/Simple/Tests.antt =====
-- A thread takes the lock, and another one that spins gets it behind a write and a failure for no reason.
use coio_rs.Base.{ℕ, ◌≡◌, ◌≢◌, refl, arith, true, false}
use coio_rs.Sync.Spinlock.Simple.{
  Spinlock, Thread, outside, holds, locking, spins, next_backoff, World, at, new, try_lock,
  lock_round, unlock, write, moved, tries, locks, rounds, waited, writes, unlocks, Reach, begin,
  later,
}
use coio_rs.Sync.Spinlock.Simple.Exclusive.{Waits, Reach-Alone}

abbrev go : World ℕ → ℕ → Thread → Spinlock ℕ → World ℕ
go w i t l = moved w i t l

abbrev start : World ℕ
start = record { spinlock = new 3; threads = λ i. outside }

abbrev held : World ℕ
held = go start 0 holds (try_lock false (start.spinlock)).1

abbrev spun : World ℕ
spun = go (go held 1 (locking 16) (held.spinlock)) 1 (spins 16) (held.spinlock)

abbrev freed : World ℕ
freed = go (go spun 0 holds (write 4 (spun.spinlock))) 0 outside (unlock (write 4 (spun.spinlock)))

abbrev entered : World ℕ
entered =
    go (go freed 1 (locking 32) (freed.spinlock)) 1 holds (lock_round false 32 (freed.spinlock)).1

spun-Reach : Reach 3 spun
unfolding new try_lock lock_round at
spun-Reach =
    later (later (later begin (tries 0 false refl)) (locks 1 refl)) (rounds 1 16 false refl)

entered-Reach : Reach 3 entered
unfolding new try_lock lock_round at unlock write next_backoff
entered-Reach =
    later (later (later (later spun-Reach (writes 0 4 refl)) (unlocks 0 refl)) (waited 1 16 refl))
      (rounds 1 32 false refl)

fails_free : (lock_round true 64 (freed.spinlock)).0 ≡ spins 64
unfolding lock_round
fails_free = refl

keeps_value : entered.spinlock.value ≡ 4
unfolding lock_round unlock write
keeps_value = refl

Reach-Alone_example :
    (entered.spinlock.lock ≡ true) × (entered.threads 0 ≢ holds) × Waits (entered.threads 0)
unfolding at
Reach-Alone_example = Reach-Alone entered 1 0 entered-Reach refl (λ e. omega (arith, e))
