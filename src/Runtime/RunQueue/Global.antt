-- ===== src/Runtime/RunQueue/Global.antt =====
-- `global_queue_get_batch` of src/runtime/processor.rs.
use coio_rs.Base.{
  ℕ, zero, suc, ◌+◌, ◌≤◌, ◌≡◌, refl, ap₂, ◌∙◌, List, [], ◌∷◌, ◌++◌, Option, none, some, arith,
  false, ◌==◌, take, drop, length, length-take, wrapping_add,
}
use coio_rs.Runtime.RunQueue.{
  Coroutine, RunQueue, GlobalQueue, queue_size, queue_len, put_all, extended, batch_size,
  global_queue_get_batch,
}
use coio_rs.Runtime.RunQueue.Window.{window, contents, IsValid}
use coio_rs.Runtime.RunQueue.Steal.{window-put_all}

-- The size that is read without the lock is that of the queue.
pub record IsCounted (g : GlobalQueue) : Type 0 where
  pub counted : g.size ≡ length g.queue

-- What a processor with the queue `q` gets from a global queue of `xs`.
abbrev pub Gets : ℕ → List Coroutine → RunQueue → Option Coroutine × GlobalQueue × RunQueue → Type 0
Gets machines [] q (r, g', q') = (r ≡ none) × (g'.queue ≡ []) × (q' ≡ q) × IsCounted g'
Gets machines (c ∷ cs) q (r, g', q') =
    let n = batch_size (suc (length cs)) machines q in
    (r ≡ some c)
    × (contents q' ≡ contents q ++ take n cs)
    × (g'.queue ≡ drop n cs)
    × IsCounted g'
    × IsValid q'

batch_fits :
    (len machines : ℕ) (q : RunQueue)
    → IsValid q
    → queue_len q + batch_size len machines q ≤ queue_size
unfolding batch_size
batch_fits len machines q v = omega arith

extended-append :
    (q : RunQueue) (batch : List Coroutine)
    → IsValid q
    → queue_len q + length batch ≤ queue_size
    → (contents (extended q batch) ≡ contents q ++ batch) × IsValid (extended q batch)
unfolding contents
extended-append q batch v le = (
  (let start : q.queue_tail ≡ wrapping_add q.queue_head (queue_len q) = omega arith in
      let size : queue_len (extended q batch) ≡ queue_len q + length batch = omega arith in
      ap₂ (λ t j. window (put_all q.queue t batch) q.queue_head j) start size
      ∙ window-put_all batch q.queue q.queue_head (queue_len q) v.head_fits le),
  omega arith,
)

get_batch-Gets :
    (machines size : ℕ) (xs : List Coroutine) (q : RunQueue)
    → size ≡ length xs
    → IsValid q
    → Gets machines xs q (global_queue_get_batch machines (record { queue = xs; size = size }) q)
unfolding global_queue_get_batch
get_batch-Gets machines size [] q e v = ground arith
get_batch-Gets machines zero (c ∷ cs) q e v = absurd (omega arith)
get_batch-Gets machines (suc size) (c ∷ cs) q e v =
    let (put, v') =
      extended-append q (take n cs) v
        (omega (arith, batch_fits (suc (length cs)) machines q v, length-take n cs)) in
    rw nonzero (refl, put, refl, record { counted = refl }, v')
  where
    n : ℕ
    n = batch_size (suc (length cs)) machines q

    nonzero : (suc size == 0) ≡ false
    nonzero = ground arith

-- `global_queue_get_batch` of a processor with a valid queue gives the first coroutine of the global
-- queue, puts the next ones, as many as `batch_size` says, at the end of the own queue in order, and
-- leaves the others and their number. It never overfills the own queue, and it gives nothing and
-- changes nothing only if the global queue is empty.
pub global_queue_get_batch-Gets :
    (machines : ℕ) (g : GlobalQueue) (q : RunQueue)
    → IsCounted g
    → IsValid q
    → Gets machines g.queue q (global_queue_get_batch machines g q)
global_queue_get_batch-Gets machines g q c v = get_batch-Gets machines g.size g.queue q c.counted v
