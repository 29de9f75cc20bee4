-- ===== src/Runtime/RunQueue/Concurrent.antt =====
-- The local queue of src/runtime/processor.rs while its own thread and any number of thieves work on
-- it, one access to shared memory at a time: `queue_pop_front`, `queue_push_back`,
-- `queue_push_back_slow`, `queue_steal` and the write of `global_queue_get_batch` by the owner,
-- `queue_grab` by the thieves. Only the owner writes the slots and the tail, so that it reads them in the step of the
-- access before.
pub mod Copies
pub mod Places
pub mod Thieves
pub mod Owners
pub mod Kept
mod Tests
use coio_rs.Base.{
  ℕ, ◌+◌, ◌-◌, ◌/◌, ◌%◌, ◌≤◌, ◌<◌, ◌≡◌, List, [], ◌∷◌, ◌++◌, ◌==◌, ltb, if◌then◌else◌, length,
  wrapping_add, wrapping_sub,
}
use coio_rs.Runtime.RunQueue.{Coroutine, RunQueue, queue_size, put, taken, queue_len}

-- Where the owner is: `free` between two operations, with what the last one gave, the coroutine popped
-- or the batch for the global queue. The loaded head is the first number of a place; `batching` has
-- also how many to copy and those that are copied, `filling` what is written behind the tail and
-- what is not, `stealing` what is copied behind the tail.
pub data Owner : Type 0 where
  free : List Coroutine → Owner
  popping panicked : Owner
  pop_loaded : ℕ → Owner
  pop_read : ℕ → Coroutine → Owner
  pushing : Coroutine → Owner
  push_loaded : Coroutine → ℕ → Owner
  filling : List Coroutine → List Coroutine → Owner
  batching : Coroutine → ℕ → ℕ → List Coroutine → Owner
  stealing : List Coroutine → Owner

-- Where a thief is: `copying` has the loaded head, how many to copy and those that are copied.
pub data Thief : Type 0 where
  rests : List Coroutine → Thief
  grabbing : Thief
  grab_loaded : ℕ → Thief
  copying : ℕ → ℕ → List Coroutine → Thief

-- The next access of the owner: its new place, the queue, what it makes available and what it takes.
unfoldable pub owner_step : Owner → RunQueue → Owner × RunQueue × List Coroutine × List Coroutine
unfolding put
owner_step (free r) q = (free r, q, [], [])
owner_step panicked q = (panicked, q, [], [])
owner_step (stealing done) q = (stealing done, q, [], [])
owner_step popping q = (pop_loaded q.queue_head, q, [], [])
owner_step (pop_loaded h) q =
    if q.queue_tail == h
    then (free [], q, [], [])
    else (pop_read h (q.queue (h % queue_size)), q, [], [])
owner_step (pop_read h c) q =
    if q.queue_head == h then (free (c ∷ []), taken q 1, [], c ∷ []) else (popping, q, [], [])
owner_step (pushing c) q = (push_loaded c q.queue_head, q, [], [])
owner_step (push_loaded c h) q =
    if ltb (wrapping_sub q.queue_tail h) queue_size
    then (filling [] (c ∷ []), q, [], [])
    else if wrapping_sub q.queue_tail h / 2 == queue_size / 2
    then (batching c h (wrapping_sub q.queue_tail h / 2) [], q, [], [])
    else (panicked, q, [], [])
owner_step (filling done (c ∷ todo)) q = (
  filling (done ++ (c ∷ [])) todo,
  record q { queue = put q.queue (wrapping_add q.queue_tail (length done) % queue_size) c },
  [],
  [],
)
owner_step (filling done []) q =
    (free [], record q { queue_tail = wrapping_add q.queue_tail (length done) }, done, [])
owner_step (batching c h n batch) q =
    if ltb (length batch) n
    then (
      batching c h n (batch ++ (q.queue (wrapping_add h (length batch) % queue_size) ∷ [])),
      q,
      [],
      [],
    )
    else if q.queue_head == h
    then (free (batch ++ (c ∷ [])), taken q n, [], batch)
    else (pushing c, q, [], [])

-- The owner as a thief of another queue, from which it copies `c` behind its own tail.
unfoldable pub steal_copy :
    Coroutine → List Coroutine → RunQueue → Owner × RunQueue × List Coroutine × List Coroutine
unfolding put
steal_copy c done q = (
  stealing (done ++ (c ∷ [])),
  record q { queue = put q.queue (wrapping_add q.queue_tail (length done) % queue_size) c },
  [],
  [],
)

-- The end of `queue_steal` when `done` and `c` are stolen: `c` is the result.
unfoldable pub steal_done :
    List Coroutine → Coroutine → RunQueue → Owner × RunQueue × List Coroutine × List Coroutine
steal_done done c q =
    if length done == 0
    then (free (c ∷ []), q, [], [])
    else if ltb (wrapping_add (queue_len q) (length done)) queue_size
    then (
      free (c ∷ []),
      record q { queue_tail = wrapping_add q.queue_tail (length done) },
      done,
      [],
    )
    else (panicked, q, [], [])

-- The next access of a thief: its new place, the queue and what it takes.
unfoldable pub thief_step : Thief → RunQueue → Thief × RunQueue × List Coroutine
thief_step (rests r) q = (rests r, q, [])
thief_step grabbing q = (grab_loaded q.queue_head, q, [])
thief_step (grab_loaded h) q =
    let n = wrapping_add (wrapping_sub q.queue_tail h) 1 / 2 in
    if n == 0
    then (rests [], q, [])
    else if ltb (queue_size / 2) n
    then (grabbing, q, [])
    else (copying h n [], q, [])
thief_step (copying h n batch) q =
    if ltb (length batch) n
    then (copying h n (batch ++ (q.queue (wrapping_add h (length batch) % queue_size) ∷ [])), q, [])
    else if q.queue_head == h
    then (rests batch, taken q n, batch)
    else (grabbing, q, [])

-- The threads, with all that was made available and all that was taken, in order.
pub record World : Type 0 where
  pub queue : RunQueue
  pub owner : Owner
  pub thieves : ℕ → Thief
  pub published : List Coroutine
  pub removed : List Coroutine

unfoldable pub at : (ℕ → Thief) → ℕ → Thief → ℕ → Thief
at ts i t j = if j == i then t else ts j

abbrev pub begins : World → Owner → World
begins w o = record w { owner = o }

abbrev pub owner_moved : World → Owner × RunQueue × List Coroutine × List Coroutine → World
owner_moved w (o, q, ps, rs) = record {
  queue = q;
  owner = o;
  thieves = w.thieves;
  published = w.published ++ ps;
  removed = w.removed ++ rs;
}

abbrev pub thief_moved : World → ℕ → Thief × RunQueue × List Coroutine → World
thief_moved w i (t, q, rs) = record {
  queue = q;
  owner = w.owner;
  thieves = at w.thieves i t;
  published = w.published;
  removed = w.removed ++ rs;
}

-- `fills` writes a batch of the global queue, for which there is room. `steals` begins a theft, for
-- which the own queue is empty: what is copied from the victim is arbitrary here, and is copied again
-- from the start when the compare-and-swap on the victim's head fails.
pub data Step (w : World) : World → Type 0 where
  pops : (r : List Coroutine) → w.owner ≡ free r → Step w (begins w popping)
  pushes : (r : List Coroutine) (c : Coroutine) → w.owner ≡ free r → Step w (begins w (pushing c))
  fills :
      (r cs : List Coroutine)
      → w.owner ≡ free r
      → queue_len w.queue + length cs ≤ queue_size
      → Step w (begins w (filling [] cs))
  steals :
      (r : List Coroutine)
      → w.owner ≡ free r
      → queue_len w.queue ≡ 0
      → Step w (begins w (stealing []))
  copies :
      (done : List Coroutine) (c : Coroutine)
      → w.owner ≡ stealing done
      → length done < queue_size / 2
      → Step w (owner_moved w (steal_copy c done w.queue))
  loses : (done : List Coroutine) → w.owner ≡ stealing done → Step w (begins w (stealing []))
  gives_up : (done : List Coroutine) → w.owner ≡ stealing done → Step w (begins w (free []))
  wins :
      (done : List Coroutine) (c : Coroutine)
      → w.owner ≡ stealing (done ++ (c ∷ []))
      → Step w (owner_moved w (steal_done done c w.queue))
  owner_moves : Step w (owner_moved w (owner_step w.owner w.queue))
  grabs :
      (i : ℕ) (r : List Coroutine)
      → w.thieves i ≡ rests r
      → Step w (thief_moved w i (grabbing, w.queue, []))
  thief_moves : (i : ℕ) → Step w (thief_moved w i (thief_step (w.thieves i) w.queue))

abbrev pub fresh : World
fresh = record {
  queue = record { queue = λ i. 0; queue_head = 0; queue_tail = 0 };
  owner = free [];
  thieves = λ i. rests [];
  published = [];
  removed = [];
}

pub data Reach : World → Type 0 where
  begin : Reach fresh
  later : {w w' : World} → Reach w → Step w w' → Reach w'
