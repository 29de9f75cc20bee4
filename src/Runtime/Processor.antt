-- ===== src/Runtime/Processor.antt =====
-- What the worker thread of a `Processor` of src/runtime/processor.rs does in a turn of its loop. Another
-- processor may do its turns between two of these, but not within one. A panic is `none`.
pub mod Moves
pub mod Victim
pub mod Theft
pub mod Fetch
pub mod Yields
pub mod Turn
mod Tests
use coio_rs.Base.{
  ℕ, zero, suc, ◌+◌, ◌-◌, ◌%◌, Bool, true, false, Option, none, some, List, [], ◌∷◌, ◌++◌, length,
  get_elem?, set_at, ltb, ◌==◌, if◌then◌else◌, ◌>>=◌, pure, is_some, wrapping_sub,
}
use coio_rs.Scheduler.GlobalQueue.{push_global_queue_iter}
use coio_rs.Runtime.Order.{RandomProcessorOrder, iter, collect}
use coio_rs.Runtime.RunQueue.{
  Coroutine, RunQueue, GlobalQueue, queue_size, queue_empty, queue_pop_front, queue_push_back,
  queue_grab, steal_end, queue_steal, global_queue_get_batch,
}

-- The queues of all processors, and the global one.
pub record Machines : Type 0 where
  pub queues : List RunQueue
  pub global : GlobalQueue

-- The other state of a processor: `shutdowns` messages are in its channel.
pub record Processor : Type 0 where
  pub id : ℕ
  pub shutdowns : ℕ
  pub should_finish : Bool
  pub rand_order : RandomProcessorOrder

-- The queues behind a theft of processor `id` from `x`, and from itself.
abbrev pub stolen :
    ℕ → ℕ → Machines → Option Coroutine × RunQueue × RunQueue → Option Coroutine × Machines
stolen id x w (c, q, from) = (c, record w { queues = set_at id q (set_at x from w.queues) })

abbrev pub self_stolen :
    ℕ → Machines → Option Coroutine × RunQueue × RunQueue → Option Coroutine × Machines
self_stolen id w (c, q, from) = (c, record w { queues = set_at id q w.queues })

-- `self.queue_steal(&mut machines[x].processor)`. Where `x` is the processor itself, the head that
-- `queue_grab` moves is its own.
unfoldable pub steal_from : ℕ → ℕ → Machines → Option (Option Coroutine × Machines)
unfolding queue_grab queue_steal
steal_from id x w = do
  q ← get_elem? w.queues id
  from ← get_elem? w.queues x
  if x == id
      then (do
        let grabbed = queue_grab [] q q.queue q.queue_tail
        r ← steal_end grabbed.1 grabbed
        pure (self_stolen id w r))
      else (do r ← queue_steal [] q from; pure (stolen id x w r))

-- The `for x in order` loops: the first coroutine that is stolen ends them.
abbrev pub or_go_on :
    Option Coroutine × Machines
    → (Machines → Option (Option Coroutine × Machines))
    → Option (Option Coroutine × Machines)
or_go_on (none, w) k = k w
or_go_on (some c, w) k = some (some c, w)

unfoldable pub steal_round : ℕ → List ℕ → Machines → Option (Option Coroutine × Machines)
unfolding steal_from
steal_round id [] w = some (none, w)
steal_round id (x ∷ xs) w = do r ← steal_from id x w; or_go_on r (λ v. steal_round id xs v)

-- Whom the loop visits for a list of random numbers, one for each of its rounds.
unfoldable pub visits : RandomProcessorOrder → List ℕ → Option (List ℕ)
visits o [] = some []
visits o (rnd ∷ rnds) = do
  it ← iter o rnd
  xs ← collect (o.count + 1) it
  rest ← visits o rnds
  pure (xs ++ rest)

abbrev pub fetched :
    Machines → Option Coroutine × GlobalQueue × RunQueue → ℕ → Option Coroutine × Machines
fetched w (c, g, q) id = (c, record { queues = set_at id q w.queues; global = g })

unfoldable pub steal_from_global : ℕ → Machines → Option (Option Coroutine × Machines)
unfolding global_queue_get_batch
steal_from_global id w = do
  q ← get_elem? w.queues id
  pure (fetched w (global_queue_get_batch (length w.queues) w.global q) id)

-- `fetch_foreign_coroutines`, for the four random numbers.
unfoldable pub fetch_foreign_coroutines :
    Processor → Machines → List ℕ → Option (Processor × Option Coroutine × Machines)
unfolding steal_round visits steal_from_global
fetch_foreign_coroutines p w rnds =
    if ltb 0 p.shutdowns
    then some (record p { shutdowns = p.shutdowns - 1; should_finish = true }, none, w)
    else (do
      order ← visits p.rand_order rnds
      r ← steal_round p.id order w
      r' ← or_go_on r (λ v. steal_from_global p.id v)
      pure (p, r'.0, r'.1))

-- `global_queue_put_batch`, if there is a batch.
unfoldable pub put_batch : List Coroutine → GlobalQueue → GlobalQueue
unfolding push_global_queue_iter
put_batch [] g = g
put_batch (c ∷ cs) g = (push_global_queue_iter (c ∷ cs) g).1

-- `ready` of the processor `id`.
unfoldable pub ready : ℕ → Coroutine → Machines → Option Machines
unfolding queue_push_back put_batch
ready id c w = do
  q ← get_elem? w.queues id
  r ← queue_push_back [] q c
  pure (record { queues = set_at id r.0 w.queues; global = put_batch r.1 w.global })

-- A coroutine yields, and the callback of a parked one keeps it, or makes it ready.
pub data Yield : Type 0 where
  suspended finished kept woken : Yield

-- What a coroutine does while it runs: it makes others ready, and yields.
pub record Run : Type 0 where
  pub readied : List Coroutine
  pub yields : Yield

unfoldable pub ready_all : ℕ → List Coroutine → Machines → Option Machines
unfolding ready
ready_all id [] w = some w
ready_all id (c ∷ cs) w = do v ← ready id c w; ready_all id cs v

-- The end of `resume`, for each way to yield.
unfoldable pub yielded :
    Processor
    → Machines
    → Coroutine
    → Yield
    → List ℕ
    → Option (Processor × Option Coroutine × Machines)
unfolding fetch_foreign_coroutines ready queue_empty
yielded p w coro suspended rnds = do
  q ← get_elem? w.queues p.id
  r ← if queue_empty q then fetch_foreign_coroutines p w rnds else some (p, none, w)
  v ← ready p.id coro r.2
  pure (r.0, r.1, v)
yielded p w coro finished rnds = some (p, none, w)
yielded p w coro kept rnds = some (p, none, w)
yielded p w coro woken rnds = do v ← ready p.id coro w; pure (p, none, v)

unfoldable pub resume :
    Processor
    → Machines
    → Coroutine
    → Run
    → List ℕ
    → Option (Processor × Option Coroutine × Machines)
unfolding ready_all yielded
resume p w coro run rnds = do v ← ready_all p.id run.readied w; yielded p v coro run.yields rnds

-- `run_next`, or the front of the own queue.
abbrev pub popped : ℕ → Machines → Option Coroutine × RunQueue → Option Coroutine × Machines
popped id w (c, q) = (c, record w { queues = set_at id q w.queues })

unfoldable pub local_next : ℕ → Option Coroutine → Machines → Option (Option Coroutine × Machines)
unfolding queue_pop_front
local_next id (some c) w = some (some c, w)
local_next id none w = do q ← get_elem? w.queues id; pure (popped id w (queue_pop_front [] q))

-- The random numbers that each call of `fetch_foreign_coroutines` draws in one turn, and the two flags of
-- the scheduler that the turn reads.
pub record Draws : Type 0 where
  pub fetching : List ℕ
  pub yielding : List ℕ
  pub parking : List ℕ
  pub is_shutting_down : Bool
  pub stopped : Bool

-- The end of a turn, with a coroutine to run, or with none.
unfoldable pub run_or_park :
    Processor × Option Coroutine × Machines
    → Run
    → Draws
    → Option (Processor × Option Coroutine × Machines)
unfolding resume fetch_foreign_coroutines
run_or_park (p, some c, w) run draws = resume p w c run draws.yielding
run_or_park (p, none, w) run draws =
    if draws.is_shutting_down
    then some (p, none, w)
    else if draws.stopped
    then some (p, none, w)
    else fetch_foreign_coroutines p w draws.parking

-- A turn of the loop of `schedule`, which ends where `park_processor` waits or `run_next` is set.
unfoldable pub turn :
    Processor
    → Machines
    → Option Coroutine
    → Run
    → Draws
    → Option (Processor × Option Coroutine × Machines)
unfolding local_next fetch_foreign_coroutines run_or_park
turn p w run_next run draws = do
  r ← local_next p.id run_next w
  r' ← if is_some r.0 then some (p, r.0, r.1) else fetch_foreign_coroutines p r.1 draws.fetching
  run_or_park r' run draws
