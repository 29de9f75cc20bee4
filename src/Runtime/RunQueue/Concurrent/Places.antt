-- ===== src/Runtime/RunQueue/Concurrent/Places.antt =====
-- What one access to a queue of src/runtime/processor.rs may do to it, and where its owner may be.
use coio_rs.Base.{
  ℕ, ◌/◌, ◌+◌, ◌-◌, ◌%◌, ◌≤◌, ◌<◌, ◌≡◌, refl, sym, ap, ap₂, ◌∙◌, List, [], ◌∷◌, ◌++◌, arith, length,
  usize_mod, wrapping_add, wrapping_sub,
}
use mathlib.Core.List.{append-nil}
use coio_rs.Runtime.RunQueue.{Coroutine, RunQueue, queue_size, put, taken, queue_len}
use coio_rs.Runtime.RunQueue.Window.{window, contents, IsValid, window-add, taken-IsValid}
use coio_rs.Runtime.RunQueue.Concurrent.{
  Owner, free, popping, panicked, pop_loaded, pop_read, pushing, push_loaded, filling, batching,
  stealing, Thief,
}
use coio_rs.Runtime.RunQueue.Concurrent.Copies.{
  Copied, Knows, Later, Later-refl, Later-taken, Later-put, Later-publish,
}

-- The places of the owner that are right for its queue.
abbrev pub IsAt : RunQueue → Owner → Type 0
IsAt q (free r) = Unit
IsAt q popping = Unit
IsAt q panicked = 1 ≤ 0
IsAt q (pop_loaded h) = h ≤ q.queue_head
IsAt q (pop_read h c) = Copied q h 1 (c ∷ [])
IsAt q (pushing c) = Unit
IsAt q (push_loaded c h) = (h ≤ q.queue_head) × (wrapping_sub q.queue_tail h ≤ queue_size)
IsAt q (filling done todo) =
    (queue_len q + length done + length todo ≤ queue_size)
    × (window q.queue q.queue_tail (length done) ≡ done)
IsAt q (batching c h n batch) = (0 < n) × Copied q h n batch
IsAt q (stealing done) =
    (queue_len q ≡ 0)
    × (length done ≤ queue_size / 2)
    × (window q.queue q.queue_tail (length done) ≡ done)

-- A step from `q` to `q'` that makes `ps` available and takes `rs`.
pub record Moved (q q' : RunQueue) (ps rs : List Coroutine) : Type 0 where
  pub later : Later q q'
  pub valid : IsValid q'
  pub whole : rs ++ contents q' ≡ contents q ++ ps
  pub head : q'.queue_head ≡ q.queue_head + length rs

pub Moved-refl : (q : RunQueue) → IsValid q → Moved q q [] []
Moved-refl q v = record {
  later = Later-refl q;
  valid = v;
  whole = sym (append-nil (contents q));
  head = omega arith;
}

-- A compare-and-swap that succeeds after all `n` have been copied.
pub Moved-taken :
    (q : RunQueue) (h n : ℕ) (batch : List Coroutine)
    → IsValid q
    → q.queue_head + queue_len q < usize_mod
    → 0 < n
    → Copied q h n batch
    → n ≤ length batch
    → q.queue_head ≡ h
    → Moved q (taken q n) [] batch
unfolding contents
Moved-taken q h n batch v small pos k all e =
    let le = k.there e in
    let same : length batch ≡ n = omega (arith, k.few) in
    record {
      later = Later-taken q n pos (omega arith);
      valid = taken-IsValid q n v le;
      whole =
          ap₂ ◌++◌ (k.front e ∙ ap (λ t. window q.queue t (length batch)) (sym e))
            (ap₂ (window q.queue) (omega arith) (omega (arith, v.head_fits, v.tail_fits)))
          ∙ sym (
              window-add q.queue q.queue_head (length batch) (queue_len q - length batch)
                v.head_fits)
          ∙ ap (window q.queue q.queue_head) (omega (arith, same, le))
          ∙ sym (append-nil (contents q));
      head = omega arith;
    }

pub Moved-put :
    (q : RunQueue) (k : ℕ) (c : Coroutine)
    → IsValid q
    → queue_len q + k < queue_size
    → Moved q (record q { queue = put q.queue (wrapping_add q.queue_tail k % queue_size) c }) [] []
unfolding contents
Moved-put q k c v lt =
    let l = Later-put q k c v lt in
    record {
      later = l;
      valid = omega arith;
      whole = l.same (queue_len q) refl (omega arith) ∙ sym (append-nil (contents q));
      head = omega arith;
    }

pub Moved-publish :
    (q : RunQueue) (done : List Coroutine)
    → IsValid q
    → queue_len q + length done ≤ queue_size
    → window q.queue q.queue_tail (length done) ≡ done
    → Moved q (record q { queue_tail = wrapping_add q.queue_tail (length done) }) done []
unfolding contents
Moved-publish q done v le e = record {
  later = Later-publish q (length done) v le;
  valid = omega arith;
  whole =
      ap (window q.queue q.queue_head) {y = queue_len q + length done}
        (omega (arith, v.head_fits, v.tail_fits))
      ∙ window-add q.queue q.queue_head (queue_len q) (length done) v.head_fits
      ∙ ap (λ t. contents q ++ t)
          (ap (λ t. window q.queue t (length done)) {y = q.queue_tail}
              (omega (arith, v.head_fits, v.tail_fits))
            ∙ e);
  head = omega arith;
}

-- What a step must do to be right.
abbrev pub OwnerMoves : RunQueue → Owner × RunQueue × List Coroutine × List Coroutine → Type 0
OwnerMoves q (o, q', ps, rs) = Moved q q' ps rs × IsAt q' o

abbrev pub ThiefMoves : RunQueue → Thief × RunQueue × List Coroutine → Type 0
ThiefMoves q (t, q', rs) = Moved q q' [] rs × Knows q' t
