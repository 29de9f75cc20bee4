-- ===== src/Runtime/RunQueue/Concurrent/Owners.antt =====
-- The accesses of the owner to its queue: `queue_pop_front`, `queue_push_back` and
-- `queue_push_back_slow` of src/runtime/processor.rs.
use coio_rs.Base.{
  ℕ, ◌/◌, suc, ◌+◌, ◌%◌, ◌≤◌, ◌<◌, ◌≡◌, refl, ap, ◌∙◌, List, [], ◌∷◌, ◌++◌, arith, ◌≢◌, ◌==◌, ltb,
  true, inl, inr, Bool-cases, length, length-append, usize_mod, wrapping_add, wrapping_sub, take,
  sym,
}
use coio_rs.Runtime.RunQueue.{Coroutine, RunQueue, queue_size, put, queue_len}
use coio_rs.Runtime.RunQueue.Window.{window, IsValid, window-put_end, take-window}
use coio_rs.Runtime.RunQueue.Concurrent.{
  Owner, free, popping, panicked, pop_loaded, pop_read, pushing, push_loaded, filling, batching,
  stealing, owner_step, steal_copy, steal_done,
}
use coio_rs.Runtime.RunQueue.Concurrent.Copies.{Copied, Copied-snoc, Copied-nil}
use coio_rs.Runtime.RunQueue.Concurrent.Places.{
  IsAt, Moved-refl, Moved-taken, Moved-put, Moved-publish, OwnerMoves,
}

owner_pops :
    (q : RunQueue) (h : ℕ) (c : Coroutine)
    → IsValid q
    → q.queue_head + queue_len q < usize_mod
    → Copied q h 1 (c ∷ [])
    → OwnerMoves q (owner_step (pop_read h c) q)
unfolding owner_step
owner_pops q h c v small k = elim (Bool-cases (q.queue_head == h)) [
  | inl e ↦
      let same : q.queue_head ≡ h = ground arith in
      rw e (Moved-taken q h 1 (c ∷ []) v small (omega arith) k (omega arith) same, tt)
  | inr e ↦ rw e (Moved-refl q v, tt)
]

owner_reads :
    (q : RunQueue) (h : ℕ)
    → IsValid q
    → h ≤ q.queue_head
    → OwnerMoves q (owner_step (pop_loaded h) q)
unfolding owner_step window
owner_reads q h v le = elim (Bool-cases (q.queue_tail == h)) [
  | inl e ↦ rw e (Moved-refl q v, tt)
  | inr e ↦
      let ne : q.queue_tail ≢ h = λ same. ground arith in
      rw e (
        Moved-refl q v,
        record {
          behind = le;
          front = λ same. refl;
          few = omega arith;
          there = λ same. omega (arith, ne, same, v.head_fits, v.tail_fits);
        },
      )
]

owner_writes :
    (q : RunQueue) (done todo : List Coroutine) (c : Coroutine)
    → IsValid q
    → IsAt q (filling done (c ∷ todo))
    → OwnerMoves q (owner_step (filling done (c ∷ todo)) q)
unfolding owner_step
owner_writes q done todo c v (le, e) =
    let size : length (done ++ (c ∷ [])) ≡ suc (length done) =
      length-append done (c ∷ []) ∙ omega arith in
    (
      Moved-put q (length done) c v (omega arith),
      (
        omega (arith, size),
        ap
              (window (put q.queue (wrapping_add q.queue_tail (length done) % queue_size) c)
                q.queue_tail)
              size
            ∙ window-put_end q.queue q.queue_tail (length done) c v.tail_fits (omega arith)
            ∙ ap (λ t. t ++ (c ∷ [])) e,
      ),
    )

owner_decides :
    (q : RunQueue) (c : Coroutine) (h : ℕ)
    → IsValid q
    → q.queue_head + queue_len q < usize_mod
    → IsAt q (push_loaded c h)
    → OwnerMoves q (owner_step (push_loaded c h) q)
unfolding owner_step window
owner_decides q c h v small (le, near) =
    let d = wrapping_sub q.queue_tail h in
    elim (Bool-cases (ltb d queue_size)) [
      | inl e ↦
          let room : d < queue_size = ground arith in
          rw e (Moved-refl q v, (omega (arith, le, room, v.head_fits, v.tail_fits), refl))
      | inr e ↦
          let full : d ≡ queue_size = ground arith in
          let half : (d / 2 == queue_size / 2) ≡ true = ground arith in
          rw (e, half)
            (
              Moved-refl q v,
              (omega (arith, full), Copied-nil q h (d / 2) le λ same. omega (arith, same, full)),
            )
    ]

owner_batches :
    (q : RunQueue) (c : Coroutine) (h n : ℕ) (batch : List Coroutine)
    → IsValid q
    → q.queue_head + queue_len q < usize_mod
    → 0 < n
    → Copied q h n batch
    → OwnerMoves q (owner_step (batching c h n batch) q)
unfolding owner_step
owner_batches q c h n batch v small pos k = elim (Bool-cases (ltb (length batch) n)) [
  | inl e ↦ rw e (Moved-refl q v, (pos, Copied-snoc q h n batch v (ground arith) k))
  | inr e ↦ elim (Bool-cases (q.queue_head == h)) [
    | inl e' ↦
        let all : n ≤ length batch = ground arith in
        let same : q.queue_head ≡ h = ground arith in
        rw (e, e') (Moved-taken q h n batch v small pos k all same, tt)
    | inr e' ↦ rw (e, e') (Moved-refl q v, tt)
  ]
]

pub owner_step-OwnerMoves :
    (o : Owner) (q : RunQueue)
    → IsValid q
    → q.queue_head + queue_len q < usize_mod
    → IsAt q o
    → OwnerMoves q (owner_step o q)
unfolding owner_step
owner_step-OwnerMoves (free r) q v small k = (Moved-refl q v, tt)
owner_step-OwnerMoves panicked q v small k = absurd (omega (arith, k))
owner_step-OwnerMoves (stealing done) q v small k = (Moved-refl q v, k)
owner_step-OwnerMoves popping q v small k = (Moved-refl q v, omega arith)
owner_step-OwnerMoves (pop_loaded h) q v small k = owner_reads q h v k
owner_step-OwnerMoves (pop_read h c) q v small k = owner_pops q h c v small k
owner_step-OwnerMoves (pushing c) q v small k = (Moved-refl q v, (omega arith, v.within))
owner_step-OwnerMoves (push_loaded c h) q v small k = owner_decides q c h v small k
owner_step-OwnerMoves (filling done []) q v small (le, e) =
    (Moved-publish q done v (omega arith) e, tt)
owner_step-OwnerMoves (filling done (c ∷ todo)) q v small k = owner_writes q done todo c v k
owner_step-OwnerMoves (batching c h n batch) q v small (pos, k) =
    owner_batches q c h n batch v small pos k

pub steal_copy-OwnerMoves :
    (q : RunQueue) (done : List Coroutine) (c : Coroutine)
    → IsValid q
    → length done < queue_size / 2
    → IsAt q (stealing done)
    → OwnerMoves q (steal_copy c done q)
unfolding steal_copy
steal_copy-OwnerMoves q done c v lt (empty, few, e) =
    let size : length (done ++ (c ∷ [])) ≡ suc (length done) =
      length-append done (c ∷ []) ∙ omega arith in
    (
      Moved-put q (length done) c v (omega arith),
      (
        empty,
        omega (arith, size),
        ap
              (window (put q.queue (wrapping_add q.queue_tail (length done) % queue_size) c)
                q.queue_tail)
              size
            ∙ window-put_end q.queue q.queue_tail (length done) c v.tail_fits (omega arith)
            ∙ ap (λ t. t ++ (c ∷ [])) e,
      ),
    )

take-append : (xs ys : List Coroutine) → take (length xs) (xs ++ ys) ≡ xs
take-append [] ys = refl
take-append (x ∷ xs) ys = ap (x ∷◌) (take-append xs ys)

pub steal_done-OwnerMoves :
    (q : RunQueue) (done : List Coroutine) (c : Coroutine)
    → IsValid q
    → IsAt q (stealing (done ++ (c ∷ [])))
    → OwnerMoves q (steal_done done c q)
unfolding steal_done
steal_done-OwnerMoves q done c v (empty, few, e) =
    let size : length (done ++ (c ∷ [])) ≡ suc (length done) =
      length-append done (c ∷ []) ∙ omega arith in
    let front : window q.queue q.queue_tail (length done) ≡ done =
      sym (
        take-window q.queue q.queue_tail (length done) (length (done ++ (c ∷ [])))
          (omega (arith, size)))
      ∙ ap (take (length done)) e
      ∙ take-append done (c ∷ []) in
    elim (Bool-cases (length done == 0)) [
      | inl z ↦ rw z (Moved-refl q v, tt)
      | inr z ↦
          let room : ltb (wrapping_add (queue_len q) (length done)) queue_size ≡ true =
            ground (arith, empty, few, size) in
          rw (z, room) (Moved-publish q done v (omega (arith, empty, few, size)) front, tt)
    ]
