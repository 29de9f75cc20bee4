-- ===== src/Sync/Spinlock/Tests.antt =====
-- A thread takes the lock at once, and a second one spins until it is free.
use coio_rs.Base.{ℕ, ◌≡◌, ◌↔◌, refl, arith, List, none, [], ◌∷◌}
use coio_rs.Sync.Spinlock.{new, take_ticket, lock_round, guard}
use coio_rs.Sync.Spinlock.Turns.{World, world, Reach, begin, later, takes, lock_round-serves}

-- Two threads have taken a ticket and none has entered.
abbrev two_spin : World
two_spin = world (record { tick = 2; tock = 0 }) (0 ∷ 1 ∷ []) none

two_spin-Reach : Reach two_spin
unfolding new take_ticket
two_spin-Reach = later (later begin (takes (omega arith))) (takes (omega arith))

abbrev no_one : List ℕ
no_one = []

first_enters : lock_round 0 (two_spin.lock) ≡ guard 1
unfolding lock_round
first_enters = refl

lock_round-serves_example :
    (lock_round 0 (two_spin.lock) ≡ guard 1) ↔ ((two_spin.holder ≡ none) × (no_one ≡ []))
lock_round-serves_example = lock_round-serves no_one (1 ∷ []) 0 two_spin-Reach refl
