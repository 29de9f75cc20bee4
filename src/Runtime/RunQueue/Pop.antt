-- ===== src/Runtime/RunQueue/Pop.antt =====
-- `queue_pop_front` of src/runtime/processor.rs.
use coio_rs.Base.{
  ℕ, ◌+◌, ◌%◌, ◌≤◌, ◌<◌, ◌≡◌, refl, sym, ap, subst, ◌∙◌, List, [], ◌∷◌, ◌++◌, Option, none, some,
  arith, ◌==◌, drop, inl, inr, Bool-cases,
}
use coio_rs.Runtime.RunQueue.{
  Coroutine, RunQueue, queue_size, taken, queue_len, pop_round, queue_pop_front,
}
use coio_rs.Runtime.RunQueue.Window.{
  contents, IsValid, Takes, sum, len-taken, taken-IsValid, contents-taken, contents_nil,
  contents_cons, drop-drop, still_zero, moved_pos,
}

abbrev pub listed : Option Coroutine → List Coroutine
listed none = []
listed (some c) = c ∷ []

-- Others take the first `n` coroutines of `q`, `n` no more than `limit`; then comes the result of
-- the pop, and then the queue that is left. There is no result only if nothing is left.
abbrev pub Pops : ℕ → RunQueue → Option Coroutine × RunQueue → Type 0
Pops limit q (r, q') =
    (n : ℕ) × (n ≤ limit)
    × (drop n (contents q) ≡ listed r ++ contents q')
    × (r ≡ none → contents q' ≡ [])
    × IsValid q'

pop_round-Pops :
    (q : RunQueue) (k limit : ℕ) (again : Option Coroutine × RunQueue)
    → IsValid q
    → k ≤ queue_len q
    → (0 < k → Pops limit (taken q k) again)
    → Pops (k + limit) q (pop_round q k again)
pop_round-Pops q k limit again v le next = elim (Bool-cases (q.queue_tail == q.queue_head)) [
  | inl e ↦ rw e (0, omega arith, refl, λ _. contents_nil q (ground arith), v)
  | inr e ↦ elim (Bool-cases ((taken q k).queue_head == q.queue_head)) [
    | inl still ↦
        rw (e, still)
          (subst (λ p. Pops (k + limit) q (some (q.queue (q.queue_head % queue_size)), taken p 1))
            (sym (still_zero q k v le still))
            (
              0,
              omega arith,
              contents_cons q v (ground arith),
              λ n. cc,
              taken-IsValid q 1 v (ground arith),
            ))
    | inr moved ↦
        let (n, few, split, nothing, v') = next (moved_pos q k v moved) in
        rw (e, moved)
          (
            k + n,
            omega arith,
            sym (drop-drop k n (contents q)) ∙ ap (drop n) (sym (contents-taken q k v le)) ∙ split,
            nothing,
            v',
          )
  ]
]

-- In a valid queue, whatever others take meanwhile, `queue_pop_front` ends: it gives the first
-- coroutine that they leave, and the queue that is left holds those behind it in order. It gives
-- nothing only if they leave nothing. No coroutine is lost or given out twice.
pub queue_pop_front-Pops :
    (ks : List ℕ) (q : RunQueue)
    → IsValid q
    → Takes ks (queue_len q)
    → Pops (sum ks) q (queue_pop_front ks q)
unfolding queue_pop_front
queue_pop_front-Pops [] q v t =
    pop_round-Pops q 0 0 (none, q) v (omega arith) (λ p. absurd (omega arith))
queue_pop_front-Pops (k ∷ ks) q v t =
    pop_round-Pops q k (sum ks) (queue_pop_front ks (taken q k)) v t.0 λ _.
      queue_pop_front-Pops ks (taken q k) (taken-IsValid q k v t.0)
        (subst (Takes ks) (sym (len-taken q k v t.0)) t.1)
