-- ===== src/Runtime/RunQueue.antt =====
-- The local queue of a `Processor` of src/runtime/processor.rs: a ring buffer that its own thread
-- fills at the tail, and from whose head all threads take.
--
-- `head` and `tail` are `usize` counters that wrap. Between a load of `queue_head` and the
-- compare-and-swap that follows, other threads may take coroutines. A function with a
-- compare-and-swap loop gets the list of how many are taken in each of its rounds, oldest round
-- first; in the rounds after the list nobody interferes.
pub mod Window
pub mod Pop
pub mod Push
pub mod Steal
pub mod Global
pub mod Concurrent
mod Tests
use coio_rs.Base.{
  ℕ, zero, suc, ◌+◌, ◌-◌, ◌/◌, ◌%◌, Option, none, some, List, [], ◌∷◌, ◌++◌, Bool, true, false,
  ◌==◌, ltb, if◌then◌else◌, length, take, drop, min, wrapping_add, wrapping_sub,
}

abbrev pub Coroutine : Type 0
Coroutine = ℕ

abbrev pub queue_size : ℕ
queue_size = 256

-- `[*mut Coroutine; QUEUE_SIZE]`: every index of the source is taken modulo the size.
abbrev pub Slots : Type 0
Slots = ℕ → Coroutine

unfoldable pub put : Slots → ℕ → Coroutine → Slots
put s i c j = if j == i then c else s j

pub record RunQueue : Type 0 where
  pub queue : Slots
  pub queue_head : ℕ
  pub queue_tail : ℕ

-- Other threads move the head on by `k`.
abbrev pub taken : RunQueue → ℕ → RunQueue
taken q k = record {
  queue = q.queue;
  queue_head = wrapping_add q.queue_head k;
  queue_tail = q.queue_tail;
}

abbrev pub queue_len : RunQueue → ℕ
queue_len q = wrapping_sub q.queue_tail q.queue_head

unfoldable pub queue_empty : RunQueue → Bool
queue_empty q = q.queue_head == q.queue_tail

-- The first of the list, and the others: what happens in this round, and in the later ones.
abbrev pub this_round : List ℕ → ℕ
this_round [] = 0
this_round (k ∷ ks) = k

-- One round of the loop of `queue_pop_front`, with `k` taken by others and `again` the next round.
abbrev pub pop_round : RunQueue → ℕ → Option Coroutine × RunQueue → Option Coroutine × RunQueue
pop_round q k again =
    if q.queue_tail == q.queue_head
    then (none, q)
    else if (taken q k).queue_head == q.queue_head
    then (some (q.queue (q.queue_head % queue_size)), taken (taken q k) 1)
    else again

unfoldable pub queue_pop_front : List ℕ → RunQueue → Option Coroutine × RunQueue
queue_pop_front [] q = pop_round q 0 (none, q)
queue_pop_front (k ∷ ks) q = let again = queue_pop_front ks (taken q k) in pop_round q k again

-- `for i in 0..n { *dst.offset(b + i) = *src.offset(h + i) }`, both modulo the size.
unfoldable pub copy : ℕ → Slots → ℕ → Slots → ℕ → Slots
unfolding put
copy zero src h dst b = dst
copy (suc n) src h dst b =
    copy n src (wrapping_add h 1) (put dst (b % queue_size) (src (h % queue_size)))
      (wrapping_add b 1)

-- The `batch` of `queue_push_back_slow`: the first `n` coroutines of the queue.
unfoldable pub batch_from : ℕ → Slots → ℕ → List Coroutine
batch_from zero src h = []
batch_from (suc n) src h = src (h % queue_size) ∷ batch_from n src (wrapping_add h 1)

pub data Slow : Type 0 where
  panicked lost : Slow
  moved : RunQueue → List Coroutine → Slow

-- `queue_push_back_slow`: `moved` with the queue and the batch for the global queue, `lost` if
-- another thread has moved the head, `panicked` if the assertion fails.
unfoldable pub queue_push_back_slow : RunQueue → ℕ → Coroutine → Slow
unfolding batch_from
queue_push_back_slow q k c =
    let n = queue_len q / 2 in
    if n == queue_size / 2
    then if (taken q k).queue_head == q.queue_head
      then moved (taken (taken q k) n) (batch_from n q.queue q.queue_head ++ (c ∷ []))
      else lost
    else panicked

-- The write and the store of the tail, with `k` taken by others.
abbrev pub pushed : RunQueue → ℕ → Coroutine → RunQueue
pushed q k c = record {
  queue = put q.queue (q.queue_tail % queue_size) c;
  queue_head = (taken q k).queue_head;
  queue_tail = wrapping_add q.queue_tail 1;
}

-- The new queue and what goes to the global queue; `none` is a panic.
abbrev pub push_round :
    RunQueue
    → ℕ
    → Coroutine
    → Slow
    → Option (RunQueue × List Coroutine)
    → Option (RunQueue × List Coroutine)
push_round q k c slow again =
    if ltb (queue_len q) queue_size
    then some (pushed q k c, [])
    else elim slow [ panicked ↦ none | lost ↦ again | moved q' batch ↦ some (q', batch) ]

unfoldable pub queue_push_back : List ℕ → RunQueue → Coroutine → Option (RunQueue × List Coroutine)
unfolding put queue_push_back_slow
queue_push_back [] q c = push_round q 0 c (queue_push_back_slow q 0 c) none
queue_push_back (k ∷ ks) q c =
    let again = queue_push_back ks (taken q k) c in
    push_round q k c (queue_push_back_slow q k c) again

-- `queue_grab`: how many coroutines were copied to `dst` from index `b` on, the victim and `dst`.
abbrev pub grab_round : RunQueue → ℕ → Slots → ℕ → ℕ × RunQueue × Slots → ℕ × RunQueue × Slots
grab_round q k dst b again =
    let n = wrapping_add (queue_len q) 1 / 2 in
    if n == 0
    then (0, q, dst)
    else if ltb (queue_size / 2) n
    then again
    else if (taken q k).queue_head == q.queue_head
    then (n, taken (taken q k) n, copy n q.queue q.queue_head dst b)
    else again

unfoldable pub queue_grab : List ℕ → RunQueue → Slots → ℕ → ℕ × RunQueue × Slots
unfolding copy
queue_grab [] q dst b = grab_round q 0 dst b (0, q, dst)
queue_grab (k ∷ ks) q dst b =
    let again = queue_grab ks (taken q k) dst b in grab_round q k dst b again

-- The rest of `queue_steal`, for the thief `q`; `none` is the panic "queue overflow".
abbrev pub steal_end :
    RunQueue → ℕ × RunQueue × Slots → Option (Option Coroutine × RunQueue × RunQueue)
steal_end q (n, from, slots) =
    let q' : RunQueue = record {
      queue = slots;
      queue_head = q.queue_head;
      queue_tail = q.queue_tail;
    } in
    let c = slots (wrapping_add q.queue_tail (n - 1) % queue_size) in
    if n == 0
    then some (none, q', from)
    else if n - 1 == 0
    then some (some c, q', from)
    else if ltb (wrapping_add (queue_len q) (n - 1)) queue_size
    then some (some c, record q' { queue_tail = wrapping_add q.queue_tail (n - 1) }, from)
    else none

-- `queue_steal`, with the thief first and its victim second.
unfoldable pub queue_steal :
    List ℕ → RunQueue → RunQueue → Option (Option Coroutine × RunQueue × RunQueue)
unfolding queue_grab
queue_steal ks q from = steal_end q (queue_grab ks from q.queue q.queue_tail)

-- The global queue of the scheduler, with the copy of its length that is read without the lock.
pub record GlobalQueue : Type 0 where
  pub queue : List Coroutine
  pub size : ℕ

-- `for (i, hdl) in queue.into_iter().enumerate() { *dst.offset(t + i) = hdl }`
unfoldable pub put_all : Slots → ℕ → List Coroutine → Slots
unfolding put
put_all s t [] = s
put_all s t (c ∷ cs) = put_all (put s (t % queue_size) c) (wrapping_add t 1) cs

-- How many coroutines are moved beside the first: a share of the global queue of `len` for each of
-- the machines, at most half a queue, at most half of what is free.
unfoldable pub batch_size : ℕ → ℕ → RunQueue → ℕ
batch_size len machines q =
    min (min (len / machines + 1) (queue_size / 2)) ((queue_size - queue_len q + 1) / 2)

-- The queue with `batch` written behind its tail and the tail moved on.
abbrev pub extended : RunQueue → List Coroutine → RunQueue
extended q batch = record {
  queue = put_all q.queue q.queue_tail batch;
  queue_head = q.queue_head;
  queue_tail = wrapping_add q.queue_tail (length batch);
}

-- `global_queue_get_batch`, for at least one machine. The list functions are those that
-- `HandleList.pop_front` and `HandleList.split_off_front` implement.
unfoldable pub global_queue_get_batch :
    ℕ → GlobalQueue → RunQueue → Option Coroutine × GlobalQueue × RunQueue
global_queue_get_batch machines g q = if g.size == 0 then (none, g, q) else elim g.queue [
  | [] ↦ (none, g, q)
  | c ∷ cs ↦
      let batch = take (batch_size (length g.queue) machines q) cs in
      let rest = drop (batch_size (length g.queue) machines q) cs in
      (some c, record { queue = rest; size = length rest }, extended q batch)
]
