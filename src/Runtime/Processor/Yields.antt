-- ===== src/Runtime/Processor/Yields.antt =====
-- What `resume` of src/runtime/processor.rs does with the coroutine that yields.
use coio_rs.Base.{
  ℕ, ◌<◌, ◌≡◌, inl, inr, refl, sym, ap, ◌∙◌, subst, true, Option, none, some, List, [], ◌∷◌, ◌++◌,
  length, get_elem?_below, count_of, count_of-append, arith, ◌>>=◌, pure, Bool-cases,
}
use mathlib.Core.Option.{some-injective}
use coio_rs.Runtime.Order.{reset}
use coio_rs.Runtime.RunQueue.{Coroutine, RunQueue, queue_len, queue_empty}
use coio_rs.Runtime.RunQueue.Window.{IsValid}
use coio_rs.Runtime.RunQueue.Pop.{listed}
use coio_rs.Runtime.Processor.{
  Machines, Processor, Yield, suspended, finished, kept, woken, Run, ready, yielded, resume,
}
use coio_rs.Runtime.Processor.Moves.{
  IsSound, Moves, Moves-refl, Moves-trans, Moves-count_of, ready-Moves, ready_all-Moves,
}
use coio_rs.Runtime.Processor.Victim.{IsEmpty}
use coio_rs.Runtime.Processor.Fetch.{IsReset, fetch_foreign_coroutines-Fetches}

-- What leaves the queues for good when a coroutine yields.
abbrev pub left_by : Yield → Coroutine → List Coroutine
left_by suspended coro = []
left_by finished coro = coro ∷ []
left_by kept coro = coro ∷ []
left_by woken coro = []

-- How a coroutine `coro` in hand is run: another one may be in hand then.
abbrev pub Resumes :
    Processor
    → Machines
    → List Coroutine
    → List Coroutine
    → Option (Processor × Option Coroutine × Machines)
    → Type 0
Resumes p w ins outs out =
    (r : Processor × Option Coroutine × Machines) × (out ≡ some r)
    × (r.0.id ≡ p.id)
    × (r.0.rand_order ≡ p.rand_order)
    × Moves w ins (outs ++ listed r.1) r.2

-- Putting the suspended coroutine back.
readied-Resumes :
    (p p' : Processor) (w v : Machines) (coro : Coroutine) (c : Option Coroutine)
    → p'.id ≡ p.id
    → p'.rand_order ≡ p.rand_order
    → p.id < length w.queues
    → Moves w [] (listed c) v
    → Resumes p w (coro ∷ []) [] (ready p.id coro v >>= λ u. pure (p', c, u))
unfolding count_of
readied-Resumes p p' w v coro c e f lt m =
    let (u, g, n) = ready-Moves p.id coro v m.sound (omega (arith, m.as_many)) in
    (
      (p', c, u),
      rw g refl,
      e,
      f,
      Moves-count_of w u (coro ∷ []) (listed c ++ []) (coro ∷ []) (listed c)
          (Moves-trans w v u [] (listed c) (coro ∷ []) [] m n)
          (λ d. omega (arith, count_of-append d (listed c) [])),
    )

empty_len : (q : RunQueue) → IsValid q → queue_empty q ≡ true → queue_len q ≡ 0
unfolding queue_empty
empty_len q v e = ground (arith, v.head_fits)

yielded-Resumes :
    (p : Processor) (w : Machines) (coro : Coroutine) (yields : Yield) (rnds : List ℕ)
    → IsSound w
    → IsReset p w
    → 0 < length rnds
    → Resumes p w (coro ∷ []) (left_by yields coro) (yielded p w coro yields rnds)
unfolding yielded queue_empty count_of
yielded-Resumes p w coro suspended rnds s is_reset some_round =
    let (q, e) = get_elem?_below p.id w.queues is_reset.0 in
    elim (Bool-cases (queue_empty q)) [
      | inl empty ↦
          let own_empty : IsEmpty p.id w = λ q' f.
            subst (λ q. queue_len q ≡ 0) (some-injective q q' (sym e ∙ f))
              (empty_len q (s.valid p.id q e) empty) in
          let (r, f, same_id, same_order, m, none_found) =
            fetch_foreign_coroutines-Fetches p w rnds s is_reset own_empty some_round in
          rw (yielded, e, empty, f)
            (readied-Resumes p r.0 w r.2 coro r.1 same_id same_order is_reset.0 m)
      | inr filled ↦
          rw (yielded, e, filled)
            (readied-Resumes p p w w coro none refl refl is_reset.0 (Moves-refl w s))
    ]
yielded-Resumes p w coro finished rnds s is_reset some_round = (
  (p, none, w),
  refl,
  refl,
  refl,
  Moves-count_of w w [] [] (coro ∷ []) (coro ∷ []) (Moves-refl w s) (λ d. omega arith),
)
yielded-Resumes p w coro kept rnds s is_reset some_round = (
  (p, none, w),
  refl,
  refl,
  refl,
  Moves-count_of w w [] [] (coro ∷ []) (coro ∷ []) (Moves-refl w s) (λ d. omega arith),
)
yielded-Resumes p w coro woken rnds s is_reset some_round =
    readied-Resumes p p w w coro none refl refl is_reset.0 (Moves-refl w s)

pub IsReset-moved :
    (p q : Processor) (w v : Machines)
    → q.id ≡ p.id
    → q.rand_order ≡ p.rand_order
    → length v.queues ≡ length w.queues
    → IsReset p w
    → IsReset q v
IsReset-moved p q w v e f g (lt, small, o, h) =
    (omega arith, omega arith, o, f ∙ h ∙ ap (λ n. reset o n) (sym g))

pub resume-Resumes :
    (p : Processor) (w : Machines) (coro : Coroutine) (run : Run) (rnds : List ℕ)
    → IsSound w
    → IsReset p w
    → 0 < length rnds
    → Resumes p w (run.readied ++ (coro ∷ [])) (left_by run.yields coro) (resume p w coro run rnds)
unfolding resume
resume-Resumes p w coro run rnds s is_reset some_round =
    let (v, e, m) = ready_all-Moves p.id run.readied w s is_reset.0 in
    let (r, f, same_id, same_order, n) =
      yielded-Resumes p v coro run.yields rnds m.sound
        (IsReset-moved p p w v refl refl m.as_many is_reset) some_round in
    (
      r,
      rw (resume, e) f,
      same_id,
      same_order,
      Moves-trans w v r.2 run.readied [] (coro ∷ []) (left_by run.yields coro ++ listed r.1) m n,
    )
