-- ===== src/Runtime/RunQueue/Push.antt =====
-- `queue_push_back` of src/runtime/processor.rs.
use coio_rs.Base.{
  ℕ, suc, ◌+◌, ◌-◌, ◌%◌, ◌≤◌, ◌<◌, ◌≡◌, ◌⊎◌, refl, sym, ap, subst, ◌∙◌, List, [], ◌∷◌, ◌++◌, Option,
  none, some, arith, ◌==◌, ltb, take, drop, length, inl, inr, Bool-cases,
}
use coio_rs.Runtime.RunQueue.{
  Coroutine, RunQueue, queue_size, put, taken, pushed, queue_len, batch_from, queue_push_back_slow,
  push_round, queue_push_back,
}
use coio_rs.Runtime.RunQueue.Window.{
  window, contents, IsValid, Takes, sum, len-taken, taken-IsValid, contents-taken, take-window,
  batch_from-window, window-put_end, length-contents, drop-drop, still_zero, moved_pos,
}

-- The coroutine goes to the end of `xs`, all that the others leave; or, if those are a full queue,
-- the first half of them goes to the global queue, the coroutine behind it.
abbrev pub Placed : List Coroutine → Coroutine → RunQueue × List Coroutine → Type 0
Placed xs c (q, batch) =
    ((batch ≡ []) × (contents q ≡ xs ++ (c ∷ [])))
    ⊎ ((length xs ≡ queue_size) × (batch ≡ take 128 xs ++ (c ∷ [])) × (contents q ≡ drop 128 xs))

-- A push that ends, after others have taken `n` coroutines, no more than `limit`.
abbrev pub Pushes : ℕ → RunQueue → Coroutine → Option (RunQueue × List Coroutine) → Type 0
Pushes limit q c out =
    (n : ℕ) × (r : RunQueue × List Coroutine) × (n ≤ limit)
    × (out ≡ some r)
    × Placed (drop n (contents q)) c r
    × IsValid r.0

push_room :
    (q : RunQueue) (k : ℕ) (c : Coroutine)
    → IsValid q
    → k ≤ queue_len q
    → queue_len q < queue_size
    → (contents (pushed q k c) ≡ drop k (contents q) ++ (c ∷ [])) × IsValid (pushed q k c)
unfolding contents
push_room q k c v le lt = (
  ap (window (put q.queue (q.queue_tail % queue_size) c) (taken q k).queue_head)
        {y = suc (queue_len q - k)} (omega arith)
      ∙ ap
          (λ t.
            window (put q.queue (t % queue_size) c) (taken q k).queue_head (suc (queue_len q - k)))
          (omega arith)
      ∙ window-put_end q.queue (taken q k).queue_head (queue_len q - k) c (omega arith)
          (omega arith)
      ∙ ap (λ t. window q.queue (taken q k).queue_head t ++ (c ∷ [])) (sym (len-taken q k v le))
      ∙ ap (λ t. t ++ (c ∷ [])) (contents-taken q k v le),
  omega arith,
)

push_full :
    (q p : RunQueue) (c : Coroutine)
    → IsValid q
    → queue_len q ≡ queue_size
    → p ≡ q
    → Placed (contents q) c (taken p 128, batch_from 128 q.queue q.queue_head ++ (c ∷ []))
      × IsValid (taken p 128)
push_full q p c v full same =
    subst
      (λ p.
        Placed (contents q) c (taken p 128, batch_from 128 q.queue q.queue_head ++ (c ∷ []))
        × IsValid (taken p 128))
      (sym same)
      (
        inr (
          length-contents q ∙ full,
          ap (λ t. t ++ (c ∷ []))
              (batch_from-window q.queue q.queue_head 128
                ∙ sym (
                    unfold contents in
                    take-window q.queue q.queue_head 128 (queue_len q) (omega arith))),
          contents-taken q 128 v (omega arith),
        ),
        taken-IsValid q 128 v (omega arith),
      )

push_round-Pushes :
    (q : RunQueue) (k limit : ℕ) (c : Coroutine) (again : Option (RunQueue × List Coroutine))
    → IsValid q
    → k ≤ queue_len q
    → (0 < k → Pushes limit (taken q k) c again)
    → Pushes (k + limit) q c (push_round q k c (queue_push_back_slow q k c) again)
unfolding queue_push_back_slow
push_round-Pushes q k limit c again v le next = elim (Bool-cases (ltb (queue_len q) queue_size)) [
  | inl room ↦
      let (e, v') = push_room q k c v le (ground arith) in
      rw room (k, (pushed q k c, []), omega arith, refl, inl (refl, e), v')
  | inr full ↦
      let half : queue_len q ≡ queue_size = ground arith in
      elim (Bool-cases ((taken q k).queue_head == q.queue_head)) [
        | inl still ↦
            let (placed, v') = push_full q (taken q k) c v half (still_zero q k v le still) in
            (
              0,
              (taken (taken q k) 128, batch_from 128 q.queue q.queue_head ++ (c ∷ [])),
              omega arith,
              ground arith,
              placed,
              v',
            )
        | inr gone ↦
            let (n, r, few, e, placed, v') = next (moved_pos q k v gone) in
            (
              k + n,
              r,
              omega arith,
              ground (arith, e),
              subst (λ t. Placed t c r)
                  (ap (drop n) (contents-taken q k v le) ∙ drop-drop k n (contents q)) placed,
              v',
            )
      ]
]

-- In a valid queue, whatever others take meanwhile, `queue_push_back` ends and does not panic, and
-- the queue stays valid. What the others leave keeps its order, and the coroutine goes behind it;
-- if that is a full queue, its first half and the coroutine go to the global queue in this order,
-- and the second half stays.
pub queue_push_back-Pushes :
    (ks : List ℕ) (q : RunQueue) (c : Coroutine)
    → IsValid q
    → Takes ks (queue_len q)
    → Pushes (sum ks) q c (queue_push_back ks q c)
unfolding queue_push_back
queue_push_back-Pushes [] q c v t =
    push_round-Pushes q 0 0 c none v (omega arith) (λ p. absurd (omega arith))
queue_push_back-Pushes (k ∷ ks) q c v t =
    push_round-Pushes q k (sum ks) c (queue_push_back ks (taken q k) c) v t.0 λ _.
      queue_push_back-Pushes ks (taken q k) c (taken-IsValid q k v t.0)
        (subst (Takes ks) (sym (len-taken q k v t.0)) t.1)
