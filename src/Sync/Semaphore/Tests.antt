-- ===== src/Sync/Semaphore/Tests.antt =====
-- A semaphore with one permit: one coroutine takes it, one is parked, and the permit goes on to it.
use coio_rs.Base.{◌≡◌, refl, arith, some, none, ◌∷◌, []}
use coio_rs.Sync.Semaphore.{acquire, release, new, panicked}
use coio_rs.Sync.Semaphore.Fair.{
  Ledger, start, begin, later, acquires, releases, Inv, Reach-Inv, after_acquire, after_release,
}

abbrev taken : Ledger
taken = after_acquire (start 1) (some 7) (acquire (some 7) (new 1))

abbrev contended : Ledger
contended = after_acquire taken (some 8) (acquire (some 8) taken.sema)

abbrev handed_over : Ledger
handed_over = after_release contended (release contended.sema)

-- Also one who has no permit releases.
abbrev released_twice : Ledger
released_twice = after_release handed_over (release handed_over.sema)

Reach-Inv_example : Inv 1 released_twice
unfolding acquire release new
Reach-Inv_example =
    Reach-Inv 1 (omega arith) (
      later (later (later (later begin (acquires (some 7))) (acquires (some 8))) releases) releases)

contended_waiters : contended.sema.waiters ≡ 8 ∷ []
unfolding acquire new
contended_waiters = refl

panicked_acquire :
    acquire none (record { count = 0; waiters = [] })
    ≡ (panicked, record { count = 0; waiters = [] })
unfolding acquire
panicked_acquire = refl
