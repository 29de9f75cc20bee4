-- ===== src/Runtime/Processor/Tests.antt =====
-- Two processors, of which the first has an empty queue, and the end of the second.
use coio_rs.Base.{
  ℕ, zero, suc, ◌-◌, ◌^◌, ◌≡◌, refl, false, none, some, [], ◌∷◌, arith, get_elem?, subst,
}
use mathlib.Core.Option.{some-injective, none-ne-some}
use coio_rs.Runtime.Order.{new, reset}
use coio_rs.Runtime.RunQueue.{RunQueue}
use coio_rs.Runtime.RunQueue.Window.{IsValid}
use coio_rs.Runtime.Processor.{Machines, Processor, Run, suspended, Draws, turn}
use coio_rs.Runtime.Processor.Moves.{IsSound}
use coio_rs.Runtime.Processor.Turn.{Turns, turn-Turns}

abbrev idle : RunQueue
idle = record { queue = λ _. 0; queue_head = 5; queue_tail = 5 }

abbrev busy : RunQueue
busy = record { queue = λ i. i; queue_head = 2 ^ 64 - 1; queue_tail = 2 }

abbrev machines : Machines
machines = record { queues = idle ∷ busy ∷ []; global = record { queue = 21 ∷ 22 ∷ []; size = 2 } }

abbrev first : Processor
first = record { id = 0; shutdowns = 0; should_finish = false; rand_order = reset new 2 }

-- The coroutine that runs makes 9 ready, and is suspended.
abbrev run : Run
run = record { readied = 9 ∷ []; yields = suspended }

abbrev draws : Draws
draws = record {
  fetching = 0 ∷ 1 ∷ 2 ∷ 3 ∷ [];
  yielding = 0 ∷ 1 ∷ 2 ∷ 3 ∷ [];
  parking = 0 ∷ 1 ∷ 2 ∷ 3 ∷ [];
  is_shutting_down = false;
  stopped = false;
}

machines-IsValid : (i : ℕ) (q : RunQueue) → get_elem? machines.queues i ≡ some q → IsValid q
machines-IsValid zero q e = subst IsValid (some-injective idle q e) (omega arith)
machines-IsValid (suc zero) q e = subst IsValid (some-injective busy q e) (omega arith)
machines-IsValid (suc (suc i)) q e = absurd (none-ne-some q e)

machines-IsSound : IsSound machines
machines-IsSound = record { valid = machines-IsValid; counted = record { counted = refl } }

turn-Turns_example : Turns first machines none run (turn first machines none run draws)
turn-Turns_example =
    turn-Turns first machines none run draws machines-IsSound (omega arith, omega arith, new, refl)
      (omega arith, omega arith, omega arith)
