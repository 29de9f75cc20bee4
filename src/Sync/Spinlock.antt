-- ===== src/Sync/Spinlock.antt =====
-- `TicketSpinlock` of src/sync/spinlock.rs. The data under the lock is left out.
pub mod Turns
pub mod Simple
mod Tests
use coio_rs.Base.{
  ℕ, ◌*◌, ◌%◌, Option, none, some, ◌==◌, if◌then◌else◌, usize_mod, wrapping_add, wrapping_sub,
}

pub record TicketSpinlock : Type 0 where
  pub tick : ℕ
  pub tock : ℕ

unfoldable pub new : TicketSpinlock
new = record { tick = 0; tock = 0 }

-- `lock` up to the loop, with the ticket.
unfoldable pub take_ticket : TicketSpinlock → ℕ × TicketSpinlock
take_ticket l = (l.tick, record l { tick = wrapping_add l.tick 1 })

-- A round of the loop spins, for so many relaxations, or gives the guard, which holds the next ticket.
pub data Turn : Type 0 where
  spins guard : ℕ → Turn

unfoldable pub lock_round : ℕ → TicketSpinlock → Turn
lock_round ticket l =
    if l.tock == ticket
    then guard (wrapping_add ticket 1)
    else spins (wrapping_sub ticket l.tock * 4 % usize_mod)

-- The drop of a guard.
unfoldable pub unlock : ℕ → TicketSpinlock → TicketSpinlock
unlock next l = record l { tock = next }
