-- ===== src/Runtime/RunQueue/Concurrent/Kept.antt =====
-- Every interleaving of the owner of a queue of src/runtime/processor.rs with any number of thieves.
use coio_rs.Base.{
  ℕ, ◌+◌, [], ◌≤◌, ◌<◌, ◌≡◌, ◌≢◌, refl, sym, ap, ◌∙◌, subst, List, ◌++◌, arith, ◌==◌, inl, inr,
  Bool-cases, length, length-append, usize_mod,
}
use mathlib.Core.List.{append-nil, append_assoc}
use coio_rs.Runtime.RunQueue.{Coroutine, RunQueue, queue_size, queue_len, batch_from}
use coio_rs.Runtime.RunQueue.Window.{window, contents, IsValid, length-contents, batch_from-window}
use coio_rs.Runtime.RunQueue.Concurrent.{
  Owner, free, stealing, steal_copy, steal_done, popping, panicked, pushing, filling, Thief,
  grabbing, owner_step, thief_step, World, at, begins, owner_moved, thief_moved, Step, pops, pushes,
  fills, steals, copies, loses, gives_up, wins, owner_moves, grabs, thief_moves, Reach, begin,
  later,
}
use coio_rs.Runtime.RunQueue.Concurrent.Copies.{Knows, Knows-Later}
use coio_rs.Runtime.RunQueue.Concurrent.Places.{IsAt, Moved, Moved-refl, OwnerMoves}
use coio_rs.Runtime.RunQueue.Concurrent.Owners.{
  owner_step-OwnerMoves, steal_copy-OwnerMoves, steal_done-OwnerMoves,
}
use coio_rs.Runtime.RunQueue.Concurrent.Thieves.{
  thief_step-ThiefMoves, thief_step_same, shorter, IsAt-Shorter,
}

pub record Inv (w : World) : Type 0 where
  pub valid : IsValid w.queue
  pub whole : w.removed ++ contents w.queue ≡ w.published
  pub head : w.queue.queue_head ≡ length w.removed
  pub owner : IsAt w.queue w.owner
  pub thieves : (i : ℕ) → Knows w.queue (w.thieves i)

-- What was made available is what was taken and what is there.
counted : (w : World) → Inv w → w.queue.queue_head + queue_len w.queue ≡ length w.published
counted w v = omega (
  arith,
  v.head,
  length-append w.removed (contents w.queue),
  length-contents w.queue,
  ap length v.whole,
)

-- What a step adds to the histories.
whole-Moved :
    (q q' : RunQueue) (ps rs removed published : List Coroutine)
    → Moved q q' ps rs
    → removed ++ contents q ≡ published
    → (removed ++ rs) ++ contents q' ≡ published ++ ps
whole-Moved q q' ps rs removed published m e =
    append_assoc removed rs (contents q')
    ∙ ap (removed ++◌) m.whole
    ∙ sym (append_assoc removed (contents q) ps)
    ∙ ap (◌++ ps) e

begins-Inv : (w : World) (o : Owner) → IsAt w.queue o → Inv w → Inv (begins w o)
begins-Inv w o k v = record {
  valid = v.valid;
  whole = v.whole;
  head = v.head;
  owner = k;
  thieves = v.thieves;
}

owner_moved-Inv :
    (w : World) (o : Owner) (q' : RunQueue) (ps rs : List Coroutine)
    → OwnerMoves w.queue (o, q', ps, rs)
    → Inv w
    → Inv (owner_moved w (o, q', ps, rs))
owner_moved-Inv w o q' ps rs (m, k) v = record {
  valid = m.valid;
  whole = whole-Moved w.queue q' ps rs w.removed w.published m v.whole;
  head = omega (arith, m.head, v.head, length-append w.removed rs);
  owner = k;
  thieves = λ i. Knows-Later w.queue q' (w.thieves i) m.later (v.thieves i);
}

-- The owner moves as `r` says.
effect-Inv :
    (w : World) (r : Owner × RunQueue × List Coroutine × List Coroutine)
    → OwnerMoves w.queue r
    → Inv w
    → Inv (owner_moved w r)
effect-Inv w r m v = owner_moved-Inv w r.0 r.1 r.2 r.3 m v

at-Knows :
    (q : RunQueue) (ts : ℕ → Thief) (i : ℕ) (t : Thief)
    → Knows q t
    → ((j : ℕ) → Knows q (ts j))
    → (j : ℕ) → Knows q (at ts i t j)
unfolding at
at-Knows q ts i t k ks j = elim (Bool-cases (j == i)) [ inl e ↦ rw e k | inr e ↦ rw e (ks j) ]

thief_moved-Inv :
    (w : World) (i : ℕ) (t : Thief) (q' : RunQueue) (rs : List Coroutine)
    → Moved w.queue q' [] rs
    → Knows q' t
    → (q'.queue ≡ w.queue.queue) × (q'.queue_tail ≡ w.queue.queue_tail)
    → Inv w
    → Inv (thief_moved w i (t, q', rs))
thief_moved-Inv w i t q' rs m k same v = record {
  valid = m.valid;
  whole = whole-Moved w.queue q' [] rs w.removed w.published m v.whole ∙ append-nil w.published;
  head = omega (arith, m.head, v.head, length-append w.removed rs);
  owner = IsAt-Shorter w.queue q' w.owner m.later (shorter w.queue q' rs m same) v.owner;
  thieves =
      at-Knows q' w.thieves i t k λ j. Knows-Later w.queue q' (w.thieves j) m.later (v.thieves j);
}

Step-Inv : {w w' : World} → Step w w' → length w.published < usize_mod → Inv w → Inv w'
unfolding window
Step-Inv {w} (pops r e) small v = begins-Inv w popping tt v
Step-Inv {w} (pushes r c e) small v = begins-Inv w (pushing c) tt v
Step-Inv {w} (fills r cs e le) small v = begins-Inv w (filling [] cs) (omega arith, refl) v
Step-Inv {w} (steals r e empty) small v = begins-Inv w (stealing []) (empty, omega arith, refl) v
Step-Inv {w} (copies done c e lt) small v =
    effect-Inv w (steal_copy c done w.queue)
      (steal_copy-OwnerMoves w.queue done c v.valid lt (subst (IsAt w.queue) e v.owner)) v
Step-Inv {w} (loses done e) small v =
    let (empty, _, _) = subst (IsAt w.queue) e v.owner in
    begins-Inv w (stealing []) (empty, omega arith, refl) v
Step-Inv {w} (gives_up done e) small v = begins-Inv w (free []) tt v
Step-Inv {w} (wins done c e) small v =
    effect-Inv w (steal_done done c w.queue)
      (steal_done-OwnerMoves w.queue done c v.valid (subst (IsAt w.queue) e v.owner)) v
Step-Inv {w} owner_moves small v =
    effect-Inv w (owner_step w.owner w.queue)
      (owner_step-OwnerMoves w.owner w.queue v.valid (omega (arith, counted w v)) v.owner) v
Step-Inv {w} (grabs i r e) small v =
    thief_moved-Inv w i grabbing w.queue [] (Moved-refl w.queue v.valid) tt (refl, refl) v
Step-Inv {w} (thief_moves i) small v =
    let (m, k) =
      thief_step-ThiefMoves (w.thieves i) w.queue v.valid (omega (arith, counted w v))
        (v.thieves i) in
    thief_moved-Inv w i (thief_step (w.thieves i) w.queue).0 (thief_step (w.thieves i) w.queue).1
      (thief_step (w.thieves i) w.queue).2 m k (thief_step_same (w.thieves i) w.queue) v

-- The history only grows.
Step-grows : {w w' : World} → Step w w' → length w.published ≤ length w'.published
Step-grows {w} (pops r e) = omega arith
Step-grows {w} (pushes r c e) = omega arith
Step-grows {w} (fills r cs e le) = omega arith
Step-grows {w} (steals r e empty) = omega arith
Step-grows {w} (copies done c e lt) =
    omega (arith, length-append w.published (steal_copy c done w.queue).2)
Step-grows {w} (loses done e) = omega arith
Step-grows {w} (gives_up done e) = omega arith
Step-grows {w} (wins done c e) =
    omega (arith, length-append w.published (steal_done done c w.queue).2)
Step-grows {w} owner_moves = omega (arith, length-append w.published (owner_step w.owner w.queue).2)
Step-grows {w} (grabs i r e) = omega arith
Step-grows {w} (thief_moves i) = omega arith

Reach-Inv_kept : {w : World} → Reach w → length w.published < usize_mod → Inv w
unfolding contents window
Reach-Inv_kept begin small = record {
  valid = omega arith;
  whole = refl;
  head = refl;
  owner = tt;
  thieves = λ i. tt;
}
Reach-Inv_kept (later {w} r st) small =
    let old : length w.published < usize_mod = omega (arith, Step-grows st) in
    Step-Inv st old (Reach-Inv_kept r old)

-- What was taken, then what the queue holds, is what was made available, in that order; the queue is
-- not overfull and its owner has not panicked.
abbrev pub Passes : World → Type 0
Passes w =
    (w.removed ++ batch_from (queue_len w.queue) w.queue.queue w.queue.queue_head ≡ w.published)
    × (queue_len w.queue ≤ queue_size)
    × (w.owner ≢ panicked)

IsAt-panicked : (q : RunQueue) (o : Owner) → IsAt q o → o ≢ panicked
IsAt-panicked q o k e = absurd (omega (arith, subst (IsAt q) e k))

-- In every interleaving of the accesses of a queue's owner, who pops, pushes, also when it is full,
-- writes batches and steals from others, and of any number of thieves, as long as fewer than 2^64
-- coroutines were made available: what was taken, in the order of the compare-and-swaps, and then
-- what the queue holds, are together what was made available, in order, so that none is lost or
-- taken twice; the queue is not overfull and no assertion has failed.
pub Reach-Passes : (w : World) → Reach w → length w.published < usize_mod → Passes w
unfolding contents
Reach-Passes w r small =
    let v = Reach-Inv_kept r small in
    (
      ap (w.removed ++◌) (batch_from-window w.queue.queue w.queue.queue_head (queue_len w.queue))
          ∙ v.whole,
      v.valid.within,
      IsAt-panicked w.queue w.owner v.owner,
    )
