-- ===== src/Runtime/RunQueue/Concurrent/Copies.antt =====
-- What a thread knows of src/runtime/processor.rs's queue from the loads it has done.
use coio_rs.Base.{
  ℕ, ◌+◌, ◌%◌, ◌≤◌, ◌<◌, ◌≡◌, refl, sym, ap, ◌∙◌, List, [], ◌∷◌, ◌++◌, arith, length, length-append,
  usize_mod, wrapping_add,
}
use coio_rs.Runtime.RunQueue.{Coroutine, RunQueue, queue_size, put, taken, queue_len}
use coio_rs.Runtime.RunQueue.Window.{window, IsValid, window-add, window-put}
use coio_rs.Runtime.RunQueue.Concurrent.{Thief, rests, grabbing, grab_loaded, copying}

-- The head was loaded as `h`. If it still is `h`, the batch is the front of the queue, of which `n`
-- are there to take.
pub record Copied (q : RunQueue) (h n : ℕ) (batch : List Coroutine) : Type 0 where
  pub behind : h ≤ q.queue_head
  pub front : q.queue_head ≡ h → batch ≡ window q.queue h (length batch)
  pub few : length batch ≤ n
  pub there : q.queue_head ≡ h → n ≤ queue_len q

-- The places of a thief that are right for a queue.
abbrev pub Knows : RunQueue → Thief → Type 0
Knows q (rests r) = Unit
Knows q grabbing = Unit
Knows q (grab_loaded h) = h ≤ q.queue_head
Knows q (copying h n batch) = (0 < n) × Copied q h n batch

-- One queue comes from another by moves that leave what others know true.
pub record Later (q q' : RunQueue) : Type 0 where
  pub on : q.queue_head ≤ q'.queue_head
  pub more : q'.queue_head ≡ q.queue_head → queue_len q ≤ queue_len q'
  pub same :
      (m : ℕ)
      → q'.queue_head ≡ q.queue_head
      → m ≤ queue_len q
      → window q'.queue q.queue_head m ≡ window q.queue q.queue_head m

pub Copied-Later :
    (q q' : RunQueue) (h n : ℕ) (batch : List Coroutine)
    → Later q q'
    → Copied q h n batch
    → Copied q' h n batch
Copied-Later q q' h n batch l k = record {
  behind = omega (arith, l.on, k.behind);
  front = λ e.
      let still : q.queue_head ≡ h = omega (arith, l.on, k.behind, e) in
      let moved : q'.queue_head ≡ q.queue_head = omega (arith, still, e) in
      k.front still
      ∙ ap (λ t. window q.queue t (length batch)) (sym still)
      ∙ sym (l.same (length batch) moved (omega (arith, k.few, k.there still)))
      ∙ ap (λ t. window q'.queue t (length batch)) still;
  few = k.few;
  there = λ e.
      let still : q.queue_head ≡ h = omega (arith, l.on, k.behind, e) in
      let moved : q'.queue_head ≡ q.queue_head = omega (arith, still, e) in
      omega (arith, k.there still, l.more moved);
}

pub Knows-Later : (q q' : RunQueue) (t : Thief) → Later q q' → Knows q t → Knows q' t
Knows-Later q q' (rests r) l k = k
Knows-Later q q' grabbing l k = k
Knows-Later q q' (grab_loaded h) l k = omega (arith, l.on, k)
Knows-Later q q' (copying h n batch) l (pos, k) = (pos, Copied-Later q q' h n batch l k)

-- Taking from the front.
pub Later-taken :
    (q : RunQueue) (n : ℕ) → 0 < n → q.queue_head + n < usize_mod → Later q (taken q n)
Later-taken q n pos small = record {
  on = omega arith;
  more = λ e. absurd (omega arith);
  same = λ m e le. absurd (omega arith);
}

-- A write behind the tail, where there is room.
pub Later-put :
    (q : RunQueue) (k : ℕ) (c : Coroutine)
    → IsValid q
    → queue_len q + k < queue_size
    → Later q (record q { queue = put q.queue (wrapping_add q.queue_tail k % queue_size) c })
Later-put q k c v lt = record {
  on = omega arith;
  more = λ e. omega arith;
  same = λ m e le.
      window-put q.queue q.queue_head m (wrapping_add q.queue_tail k % queue_size) c
        (λ j l. omega (arith, v.head_fits, v.tail_fits)) v.head_fits;
}

-- The tail moves on.
pub Later-publish :
    (q : RunQueue) (k : ℕ)
    → IsValid q
    → queue_len q + k ≤ queue_size
    → Later q (record q { queue_tail = wrapping_add q.queue_tail k })
Later-publish q k v le = record {
  on = omega arith;
  more = λ e. omega (arith, v.head_fits, v.tail_fits);
  same = λ m e l. refl;
}

pub Later-refl : (q : RunQueue) → Later q q
Later-refl q = record { on = omega arith; more = λ e. omega arith; same = λ m e le. refl }

-- One more coroutine is copied.
pub Copied-snoc :
    (q : RunQueue) (h n : ℕ) (batch : List Coroutine)
    → IsValid q
    → length batch < n
    → Copied q h n batch
    → Copied q h n (batch ++ (q.queue (wrapping_add h (length batch) % queue_size) ∷ []))
unfolding window
Copied-snoc q h n batch v lt k =
    let c = q.queue (wrapping_add h (length batch) % queue_size) in
    let size : length (batch ++ (c ∷ [])) ≡ length batch + 1 = length-append batch (c ∷ []) in
    record {
      behind = k.behind;
      front = λ e.
          ap (λ t. t ++ (c ∷ [])) (k.front e)
          ∙ sym (window-add q.queue h (length batch) 1 (omega (arith, v.head_fits, k.behind)))
          ∙ ap (window q.queue h) (sym size);
      few = omega (arith, size);
      there = k.there;
    }

-- Nothing is copied yet.
pub Copied-nil :
    (q : RunQueue) (h n : ℕ)
    → h ≤ q.queue_head
    → (q.queue_head ≡ h → n ≤ queue_len q)
    → Copied q h n []
unfolding window
Copied-nil q h n le enough = record {
  behind = le;
  front = λ e. refl;
  few = omega arith;
  there = enough;
}
