-- ===== src/Runtime/RunQueue/Tests.antt =====
-- Runs and instances on a queue of three coroutines whose counters are about to wrap, and on a full
-- one.
use coio_rs.Base.{◌+◌, ◌-◌, ◌^◌, ◌≡◌, refl, true, false, [], ◌∷◌, none, some, arith, length}
use coio_rs.Runtime.RunQueue.{
  RunQueue, GlobalQueue, queue_len, queue_empty, queue_pop_front, queue_push_back, queue_steal,
  global_queue_get_batch,
}
use coio_rs.Runtime.RunQueue.Window.{contents, IsValid}
use coio_rs.Runtime.RunQueue.Pop.{Pops, queue_pop_front-Pops}
use coio_rs.Runtime.RunQueue.Push.{Pushes, queue_push_back-Pushes}
use coio_rs.Runtime.RunQueue.Steal.{Steals, queue_steal-Steals}
use coio_rs.Runtime.RunQueue.Global.{Gets, global_queue_get_batch-Gets}

abbrev wrapping : RunQueue
wrapping = record { queue = λ i. i; queue_head = 2 ^ 64 - 1; queue_tail = 2 }

abbrev full : RunQueue
full = record { queue = λ i. i + 7; queue_head = 3; queue_tail = 259 }

abbrev idle : RunQueue
idle = record { queue = λ _. 0; queue_head = 5; queue_tail = 5 }

abbrev global : GlobalQueue
global = record { queue = 21 ∷ 22 ∷ 23 ∷ 24 ∷ []; size = 4 }

wrapping-IsValid : IsValid wrapping
wrapping-IsValid = omega arith

full-IsValid : IsValid full
full-IsValid = omega arith

idle-IsValid : IsValid idle
idle-IsValid = omega arith

contents-wrapping : contents wrapping ≡ 255 ∷ 0 ∷ 1 ∷ []
unfolding contents
contents-wrapping = refl

empties : (queue_empty idle ≡ true) × (queue_empty full ≡ false)
unfolding queue_empty
empties = (refl, refl)

-- Another thread takes 255 first, so the second round gives 0.
pop_under_theft : (queue_pop_front (1 ∷ []) wrapping).0 ≡ some 0
unfolding queue_pop_front
pop_under_theft = refl

-- A full queue sends its first half and the new coroutine to the global queue.
push_overflow :
    elim (queue_push_back [] full 9) [ none ↦ 0 | some (q, batch) ↦ length batch + queue_len q ]
    ≡ 129 + 128
unfolding queue_push_back
push_overflow = refl

queue_pop_front-Pops_example : Pops 1 wrapping (queue_pop_front (1 ∷ []) wrapping)
queue_pop_front-Pops_example =
    queue_pop_front-Pops (1 ∷ []) wrapping wrapping-IsValid (omega arith, tt)

queue_push_back-Pushes_example : Pushes 0 full 9 (queue_push_back (0 ∷ []) full 9)
queue_push_back-Pushes_example =
    queue_push_back-Pushes (0 ∷ []) full 9 full-IsValid (omega arith, tt)

queue_steal-Steals_example : Steals 1 wrapping (queue_steal (1 ∷ []) idle wrapping)
queue_steal-Steals_example =
    queue_steal-Steals (1 ∷ []) idle wrapping idle-IsValid wrapping-IsValid refl (omega arith, tt)

global_queue_get_batch-Gets_example :
    Gets 2 (21 ∷ 22 ∷ 23 ∷ 24 ∷ []) wrapping (global_queue_get_batch 2 global wrapping)
global_queue_get_batch-Gets_example =
    global_queue_get_batch-Gets 2 global wrapping (record { counted = refl }) wrapping-IsValid
