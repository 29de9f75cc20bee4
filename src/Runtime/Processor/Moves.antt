-- ===== src/Runtime/Processor/Moves.antt =====
-- What a step of a processor of src/runtime/processor.rs does to the coroutines in all queues.
use coio_rs.Base.{
  ℕ, ◌+◌, ◌<◌, ◌≡◌, inl, inr, refl, sym, ap, ◌∙◌, subst, some, List, [], ◌∷◌, ◌++◌, length, take,
  drop, get_elem?, set_at, gather, get_elem?-set_at, get_elem?_below, length-set_at, count_of,
  count_of-append, count_of-gather-set_at, take-append-drop, arith,
}
use coio_rs.Runtime.RunQueue.{Coroutine, RunQueue, GlobalQueue}
use coio_rs.Runtime.RunQueue.Window.{contents, IsValid}
use coio_rs.Runtime.RunQueue.Push.{Placed, queue_push_back-Pushes}
use coio_rs.Runtime.RunQueue.Global.{IsCounted}
use mathlib.Core.List.{append-nil}
use coio_rs.Scheduler.GlobalQueue.{push_global_queue_iter}
use coio_rs.Runtime.Processor.{Machines, put_batch, ready, ready_all}

pub record IsSound (w : Machines) : Type 0 where
  pub valid : (i : ℕ) (q : RunQueue) → get_elem? w.queues i ≡ some q → IsValid q
  pub counted : IsCounted w.global

-- How often a coroutine is in the queues.
abbrev pub total : Coroutine → Machines → ℕ
total c w = count_of c (gather contents w.queues) + count_of c w.global.queue

-- From `v` to `w`, `ins` come into the queues and `outs` go out, and nothing else.
pub record Moves (v : Machines) (ins outs : List Coroutine) (w : Machines) : Type 0 where
  pub sound : IsSound w
  pub as_many : length w.queues ≡ length v.queues
  pub conserved : (c : Coroutine) → total c w + count_of c outs ≡ total c v + count_of c ins

pub Moves-refl : (w : Machines) → IsSound w → Moves w [] [] w
Moves-refl w s = record { sound = s; as_many = refl; conserved = λ c. refl }

pub Moves-trans :
    (u v w : Machines) (ins outs more out : List Coroutine)
    → Moves u ins outs v
    → Moves v more out w
    → Moves u (ins ++ more) (outs ++ out) w
Moves-trans u v w ins outs more out m n = record {
  sound = n.sound;
  as_many = n.as_many ∙ m.as_many;
  conserved = λ c.
      omega (
        arith,
        m.conserved c,
        n.conserved c,
        count_of-append c ins more,
        count_of-append c outs out,
      );
}

-- One queue changes, and the global one.
pub Moves-set_at :
    (w : Machines) (id : ℕ) (q q' : RunQueue) (g : GlobalQueue) (ins outs : List Coroutine)
    → IsSound w
    → get_elem? w.queues id ≡ some q
    → IsValid q'
    → IsCounted g
    → ((c : Coroutine)
        → count_of c (contents q') + count_of c g.queue + count_of c outs
          ≡ count_of c (contents q) + count_of c w.global.queue + count_of c ins)
    → Moves w ins outs (record { queues = set_at id q' w.queues; global = g })
Moves-set_at w id q q' g ins outs s e v k h = record {
  sound = record {
    valid = λ i p f. elim (get_elem?-set_at id i q' p w.queues f) [
      | inl same ↦ subst IsValid (sym same) v
      | inr there ↦ s.valid i p there
    ];
    counted = k;
  };
  as_many = length-set_at id q' w.queues;
  conserved = λ c. omega (arith, h c, count_of-gather-set_at contents c id q q' w.queues e);
}

put_batch-queue :
    (batch : List Coroutine) (g : GlobalQueue)
    → IsCounted g
    → ((put_batch batch g).queue ≡ g.queue ++ batch) × IsCounted (put_batch batch g)
unfolding put_batch push_global_queue_iter
put_batch-queue [] g k = (sym (append-nil g.queue), k)
put_batch-queue (c ∷ cs) g k = (refl, record { counted = refl })

-- A push keeps what was there, and the new coroutine.
Placed-count_of :
    (xs : List Coroutine) (coro c : Coroutine) (q : RunQueue) (batch : List Coroutine)
    → Placed xs coro (q, batch)
    → count_of c (contents q) + count_of c batch ≡ count_of c xs + count_of c (coro ∷ [])
unfolding count_of
Placed-count_of xs coro c q batch (inl (none_sent, e)) =
    rw (none_sent, e) (omega (arith, count_of-append c xs (coro ∷ [])))
Placed-count_of xs coro c q batch (inr (full, sent, e)) =
    rw (sent, e)
      (omega (
        arith,
        count_of-append c (take 128 xs) (coro ∷ []),
        count_of-append c (take 128 xs) (drop 128 xs),
        ap (λ ys. count_of c ys) (take-append-drop 128 xs),
      ))

pub ready-Moves :
    (id : ℕ) (coro : Coroutine) (w : Machines)
    → IsSound w
    → id < length w.queues
    → (v : Machines) × (ready id coro w ≡ some v) × Moves w (coro ∷ []) [] v
unfolding ready count_of
ready-Moves id coro w s lt =
    let (q, e) = get_elem?_below id w.queues lt in
    let (n, r, le, pushed, placed, valid) = queue_push_back-Pushes [] q coro (s.valid id q e) tt in
    let nobody : n ≡ 0 = omega arith in
    let placed' = subst (λ n. Placed (drop n (contents q)) coro r) nobody placed in
    let sent = put_batch-queue r.1 w.global s.counted in
    (
      record { queues = set_at id r.0 w.queues; global = put_batch r.1 w.global },
      rw (ready, e, pushed) refl,
      Moves-set_at w id q r.0 (put_batch r.1 w.global) (coro ∷ []) [] s e valid sent.1 λ c. omega (
        arith,
        Placed-count_of (contents q) coro c r.0 r.1 placed',
        ap (λ ys. count_of c ys) sent.0,
        count_of-append c w.global.queue r.1,
      ),
    )

pub ready_all-Moves :
    (id : ℕ) (cs : List Coroutine) (w : Machines)
    → IsSound w
    → id < length w.queues
    → (v : Machines) × (ready_all id cs w ≡ some v) × Moves w cs [] v
unfolding ready_all
ready_all-Moves id [] w s lt = (w, refl, Moves-refl w s)
ready_all-Moves id (c ∷ cs) w s lt =
    let (u, e, m) = ready-Moves id c w s lt in
    let (v, f, n) = ready_all-Moves id cs u m.sound (omega (arith, m.as_many)) in
    (v, rw (ready_all, e, f) refl, Moves-trans w u v (c ∷ []) [] cs [] m n)

-- What comes in and goes out at once.
pub Moves-cancel :
    (v w : Machines) (xs outs : List Coroutine) → Moves v xs (xs ++ outs) w → Moves v [] outs w
unfolding count_of
Moves-cancel v w xs outs m = record {
  sound = m.sound;
  as_many = m.as_many;
  conserved = λ c. omega (arith, m.conserved c, count_of-append c xs outs);
}

pub Moves-count_of :
    (v w : Machines) (ins outs ins' outs' : List Coroutine)
    → Moves v ins outs w
    → ((c : Coroutine) → count_of c outs' + count_of c ins ≡ count_of c outs + count_of c ins')
    → Moves v ins' outs' w
Moves-count_of v w ins outs ins' outs' m h = record {
  sound = m.sound;
  as_many = m.as_many;
  conserved = λ c. omega (arith, m.conserved c, h c);
}
