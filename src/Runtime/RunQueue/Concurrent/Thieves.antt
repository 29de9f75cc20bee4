-- ===== src/Runtime/RunQueue/Concurrent/Thieves.antt =====
-- The accesses of a thief to its victim's queue: `queue_grab` of src/runtime/processor.rs.
use coio_rs.Base.{
  ℕ, ◌/◌, ◌+◌, ◌≤◌, ◌<◌, ◌≡◌, refl, sym, ap, ◌∙◌, List, [], ◌∷◌, arith, ◌==◌, ltb, inl, inr,
  Bool-cases, length, length-append, usize_mod, wrapping_add, wrapping_sub,
}
use coio_rs.Runtime.RunQueue.{Coroutine, RunQueue, queue_size, queue_len}
use coio_rs.Runtime.RunQueue.Window.{window, contents, IsValid, length-contents}
use coio_rs.Runtime.RunQueue.Concurrent.{
  Owner, free, popping, panicked, pop_loaded, pop_read, pushing, push_loaded, filling, batching,
  stealing, Thief, rests, grabbing, grab_loaded, copying, thief_step,
}
use coio_rs.Runtime.RunQueue.Concurrent.Copies.{
  Copied, Knows, Later, Copied-Later, Copied-snoc, Copied-nil,
}
use coio_rs.Runtime.RunQueue.Concurrent.Places.{IsAt, Moved, Moved-refl, Moved-taken, ThiefMoves}
use coio_rs.Base.{subst}

thief_loads :
    (q : RunQueue) (h : ℕ)
    → IsValid q
    → h ≤ q.queue_head
    → ThiefMoves q (thief_step (grab_loaded h) q)
unfolding thief_step
thief_loads q h v le =
    let n = wrapping_add (wrapping_sub q.queue_tail h) 1 / 2 in
    elim (Bool-cases (n == 0)) [
      | inl e ↦ rw e (Moved-refl q v, tt)
      | inr e ↦ elim (Bool-cases (ltb (queue_size / 2) n)) [
        | inl e' ↦ rw (e, e') (Moved-refl q v, tt)
        | inr e' ↦
            let pos : 0 < n = ground arith in
            rw (e, e')
              (
                Moved-refl q v,
                (pos, Copied-nil q h n le λ same. omega (arith, same, v.head_fits, v.tail_fits)),
              )
      ]
    ]

thief_copies :
    (q : RunQueue) (h n : ℕ) (batch : List Coroutine)
    → IsValid q
    → q.queue_head + queue_len q < usize_mod
    → 0 < n
    → Copied q h n batch
    → ThiefMoves q (thief_step (copying h n batch) q)
unfolding thief_step
thief_copies q h n batch v small pos k = elim (Bool-cases (ltb (length batch) n)) [
  | inl e ↦ rw e (Moved-refl q v, (pos, Copied-snoc q h n batch v (ground arith) k))
  | inr e ↦ elim (Bool-cases (q.queue_head == h)) [
    | inl e' ↦
        let all : n ≤ length batch = ground arith in
        let same : q.queue_head ≡ h = ground arith in
        rw (e, e') (Moved-taken q h n batch v small pos k all same, tt)
    | inr e' ↦ rw (e, e') (Moved-refl q v, tt)
  ]
]

pub thief_step-ThiefMoves :
    (t : Thief) (q : RunQueue)
    → IsValid q
    → q.queue_head + queue_len q < usize_mod
    → Knows q t
    → ThiefMoves q (thief_step t q)
unfolding thief_step
thief_step-ThiefMoves (rests r) q v small k = (Moved-refl q v, tt)
thief_step-ThiefMoves grabbing q v small k = (Moved-refl q v, omega arith)
thief_step-ThiefMoves (grab_loaded h) q v small k = thief_loads q h v k
thief_step-ThiefMoves (copying h n batch) q v small (pos, k) =
    thief_copies q h n batch v small pos k

-- The owner's place stays right when a thief takes from the front: the head moves on and the queue
-- gets shorter, its slots and tail do not change.
pub record Shorter (q q' : RunQueue) : Type 0 where
  pub slots : q'.queue ≡ q.queue
  pub tail : q'.queue_tail ≡ q.queue_tail
  pub len : queue_len q' ≤ queue_len q

pub IsAt-Shorter : (q q' : RunQueue) (o : Owner) → Later q q' → Shorter q q' → IsAt q o → IsAt q' o
IsAt-Shorter q q' (free r) l s k = tt
IsAt-Shorter q q' popping l s k = tt
IsAt-Shorter q q' panicked l s k = k
IsAt-Shorter q q' (pop_loaded h) l s k = omega (arith, l.on, k)
IsAt-Shorter q q' (pop_read h c) l s k = Copied-Later q q' h 1 (c ∷ []) l k
IsAt-Shorter q q' (pushing c) l s k = tt
IsAt-Shorter q q' (push_loaded c h) l s (le, near) =
    (omega (arith, l.on, le), subst (λ t. wrapping_sub t h ≤ queue_size) (sym s.tail) near)
IsAt-Shorter q q' (filling done todo) l s (le, e) = (
  omega (arith, s.len, le),
  ap (λ t. window t q'.queue_tail (length done)) s.slots
      ∙ ap (λ t. window q.queue t (length done)) s.tail
      ∙ e,
)
IsAt-Shorter q q' (stealing done) l s (empty, few, e) = (
  omega (arith, s.len, empty),
  few,
  ap (λ t. window t q'.queue_tail (length done)) s.slots
      ∙ ap (λ t. window q.queue t (length done)) s.tail
      ∙ e,
)
IsAt-Shorter q q' (batching c h n batch) l s (pos, k) = (pos, Copied-Later q q' h n batch l k)

-- A thief writes neither the slots nor the tail of its victim.
pub thief_step_same :
    (t : Thief) (q : RunQueue)
    → ((thief_step t q).1.queue ≡ q.queue) × ((thief_step t q).1.queue_tail ≡ q.queue_tail)
unfolding thief_step
thief_step_same (rests r) q = (refl, refl)
thief_step_same grabbing q = (refl, refl)
thief_step_same (grab_loaded h) q =
    let n = wrapping_add (wrapping_sub q.queue_tail h) 1 / 2 in
    elim (Bool-cases (n == 0)) [
      | inl e ↦ rw e (refl, refl)
      | inr e ↦ elim (Bool-cases (ltb (queue_size / 2) n)) [
        | inl e' ↦ rw (e, e') (refl, refl)
        | inr e' ↦ rw (e, e') (refl, refl)
      ]
    ]
thief_step_same (copying h n batch) q = elim (Bool-cases (ltb (length batch) n)) [
  | inl e ↦ rw e (refl, refl)
  | inr e ↦ elim (Bool-cases (q.queue_head == h)) [
    | inl e' ↦ rw (e, e') (refl, refl)
    | inr e' ↦ rw (e, e') (refl, refl)
  ]
]

pub shorter :
    (q q' : RunQueue) (rs : List Coroutine)
    → Moved q q' [] rs
    → (q'.queue ≡ q.queue) × (q'.queue_tail ≡ q.queue_tail)
    → Shorter q q'
shorter q q' rs m (slots, tail) = record {
  slots = slots;
  tail = tail;
  len = omega (
    arith,
    ap length m.whole,
    length-append rs (contents q'),
    length-append (contents q) [],
    length-contents q,
    length-contents q',
  );
}
