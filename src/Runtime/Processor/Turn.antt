-- ===== src/Runtime/Processor/Turn.antt =====
-- What a turn of the loop of `schedule` of src/runtime/processor.rs does with the coroutines.
use coio_rs.Base.{
  ℕ, ◌<◌, ◌≡◌, ◌⊎◌, inl, inr, refl, sym, ap, ◌∙◌, subst, true, Option, none, some, List, [], ◌∷◌,
  ◌++◌, length, drop, get_elem?_below, count_of, count_of-append, arith, Bool-cases, Option-cases,
  is_some,
}
use mathlib.Core.Option.{none-ne-some}
use coio_rs.Runtime.RunQueue.{Coroutine, queue_pop_front}
use coio_rs.Runtime.RunQueue.Window.{contents, length-contents}
use coio_rs.Runtime.RunQueue.Pop.{listed, queue_pop_front-Pops}
use coio_rs.Runtime.Processor.{
  fetch_foreign_coroutines, Machines, Processor, Run, popped, local_next, Draws, run_or_park, turn,
}
use coio_rs.Runtime.Processor.Moves.{
  IsSound, Moves, Moves-refl, Moves-trans, Moves-set_at, Moves-count_of,
}
use coio_rs.Runtime.Processor.Victim.{IsEmpty, set_at-own}
use coio_rs.Runtime.Processor.Fetch.{NoWork, IsReset, fetch_foreign_coroutines-Fetches}
use coio_rs.Runtime.Processor.Yields.{left_by, IsReset-moved, resume-Resumes}

local_next-Moves :
    (id : ℕ) (run_next : Option Coroutine) (w : Machines)
    → IsSound w
    → id < length w.queues
    → (r : Option Coroutine × Machines) × (local_next id run_next w ≡ some r)
      × Moves w (listed run_next) (listed r.0) r.1
      × (r.0 ≡ none → IsEmpty id r.1)
unfolding local_next count_of
local_next-Moves id (some c) w s lt = (
  (some c, w),
  refl,
  Moves-count_of w w [] [] (c ∷ []) (c ∷ []) (Moves-refl w s) (λ d. omega arith),
  λ e. absurd (none-ne-some c (sym e)),
)
local_next-Moves id none w s lt =
    let (q, e) = get_elem?_below id w.queues lt in
    let (n, le, left, none_left, valid) = queue_pop_front-Pops [] q (s.valid id q e) tt in
    let nobody : n ≡ 0 = omega arith in
    let r = queue_pop_front [] q in
    let left' = subst (λ n. drop n (contents q) ≡ listed r.0 ++ contents r.1) nobody left in
    (
      popped id w r,
      rw e refl,
      Moves-set_at w id q r.1 w.global [] (listed r.0) s e valid s.counted λ c.
          omega
            (arith, ap (λ ys. count_of c ys) left', count_of-append c (listed r.0) (contents r.1)),
      λ got_none. set_at-own id q r.1 w e (
          omega (
            arith,
            length-contents r.1,
            ap (λ (ys : List Coroutine). length ys) (none_left got_none),
          )),
    )

-- What comes into the queues in a turn that has run a coroutine, or none, and what leaves them for good.
abbrev pub entered : Run → Option Coroutine → List Coroutine
entered run none = []
entered run (some coro) = run.readied

abbrev pub left : Run → Option Coroutine → List Coroutine
left run none = []
left run (some coro) = left_by run.yields coro

abbrev pub AllDrawn : Draws → Type 0
AllDrawn draws =
    (0 < length draws.fetching) × (0 < length draws.yielding) × (0 < length draws.parking)

-- How a turn ends that may have run a coroutine: what was in hand or became ready is in the queues, in hand, or
-- left by the coroutine that ran; and with none to run, nothing is left to run.
abbrev pub Turns :
    Processor
    → Machines
    → Option Coroutine
    → Run
    → Option (Processor × Option Coroutine × Machines)
    → Type 0
Turns p w run_next run out =
    (r : Processor × Option Coroutine × Machines) × (ran : Option Coroutine) × (out ≡ some r)
    × (r.0.id ≡ p.id)
    × (r.0.rand_order ≡ p.rand_order)
    × Moves w (listed run_next ++ entered run ran) (left run ran ++ listed r.1) r.2
    × (ran ≡ none → r.1 ≡ none → (r.0.should_finish ≡ true) ⊎ NoWork r.2)

run_or_park-Turns :
    (p : Processor) (c : Option Coroutine) (w : Machines) (run : Run) (draws : Draws)
    → IsSound w
    → IsReset p w
    → AllDrawn draws
    → (c ≡ none → IsEmpty p.id w × ((p.should_finish ≡ true) ⊎ NoWork w))
    → Turns p w c run (run_or_park (p, c, w) run draws)
unfolding run_or_park count_of
run_or_park-Turns p (some c) w run draws s is_reset drawn found =
    let (r, e, same_id, same_order, m) =
      resume-Resumes p w c run draws.yielding s is_reset drawn.1 in
    (
      r,
      some c,
      e,
      same_id,
      same_order,
      Moves-count_of w r.2 (run.readied ++ (c ∷ [])) (left_by run.yields c ++ listed r.1)
          (c ∷ run.readied) (left_by run.yields c ++ listed r.1) m
          (λ d. omega (arith, count_of-append d run.readied (c ∷ []))),
      λ ran_none. absurd (none-ne-some c (sym ran_none)),
    )
run_or_park-Turns p none w run draws s is_reset drawn found =
    let waits : Turns p w none run (some (p, none, w)) =
      ((p, none, w), none, refl, refl, refl, Moves-refl w s, λ ran_none got_none. (found refl).1) in
    elim (Bool-cases draws.is_shutting_down) [
      | inl shutting ↦ rw (run_or_park, shutting) waits
      | inr running ↦ elim (Bool-cases draws.stopped) [
        | inl stopped ↦ rw (run_or_park, running, stopped) waits
        | inr going ↦
            let (r, e, same_id, same_order, m, none_found) =
              fetch_foreign_coroutines-Fetches p w draws.parking s is_reset (found refl).0
                drawn.2 in
            rw (run_or_park, running, going)
              (r, none, e, same_id, same_order, m, λ ran_none got_none. (none_found got_none).1)
      ]
    ]

-- A turn behind a step that has put `c` in hand.
Turns-behind :
    (p q : Processor) (w v : Machines) (run_next c : Option Coroutine) (run : Run)
    (out : Option (Processor × Option Coroutine × Machines))
    → q.id ≡ p.id
    → q.rand_order ≡ p.rand_order
    → Moves w (listed run_next) (listed c) v
    → Turns q v c run out
    → Turns p w run_next run out
Turns-behind p q w v run_next c run out e f m (r, ran, g, same_id, same_order, n, none_left) = (
  r,
  ran,
  g,
  same_id ∙ e,
  same_order ∙ f,
  Moves-count_of w r.2 (listed run_next ++ (listed c ++ entered run ran))
      (listed c ++ (left run ran ++ listed r.1)) (listed run_next ++ entered run ran)
      (left run ran ++ listed r.1)
      (Moves-trans w v r.2 (listed run_next) (listed c) (listed c ++ entered run ran)
        (left run ran ++ listed r.1) m n)
      (λ d. omega (
        arith,
        count_of-append d (listed run_next) (listed c ++ entered run ran),
        count_of-append d (listed c) (entered run ran),
        count_of-append d (listed c) (left run ran ++ listed r.1),
        count_of-append d (listed run_next) (entered run ran),
      )),
  none_left,
)

-- A turn that has found nothing locally.
fetching-Turns :
    (p : Processor) (w v : Machines) (run_next : Option Coroutine) (run : Run) (draws : Draws)
    → IsReset p w
    → AllDrawn draws
    → Moves w (listed run_next) [] v
    → IsEmpty p.id v
    → (q : Processor × Option Coroutine × Machines) × (fetch_foreign_coroutines p v draws.fetching
        ≡ some q)
      × Turns p w run_next run (run_or_park q run draws)
unfolding count_of
fetching-Turns p w v run_next run draws is_reset drawn m empty =
    let (q, f, same_id, same_order, n, none_found) =
      fetch_foreign_coroutines-Fetches p v draws.fetching m.sound
        (IsReset-moved p p w v refl refl m.as_many is_reset) empty drawn.0 in
    let fetched : Moves w (listed run_next) (listed q.1) q.2 =
      Moves-count_of w q.2 (listed run_next ++ []) (listed q.1) (listed run_next) (listed q.1)
        (Moves-trans w v q.2 (listed run_next) [] [] (listed q.1) m n)
        (λ d. omega (arith, count_of-append d (listed run_next) [])) in
    let found : q.1 ≡ none → IsEmpty q.0.id q.2 × ((q.0.should_finish ≡ true) ⊎ NoWork q.2) =
      λ got_none. (
        subst (λ i. IsEmpty i q.2) (sym same_id) (none_found got_none).0,
        (none_found got_none).1,
      ) in
    (
      q,
      f,
      Turns-behind p q.0 w q.2 run_next q.1 run (run_or_park q run draws) same_id same_order fetched
          (run_or_park-Turns q.0 q.1 q.2 run draws n.sound
            (IsReset-moved p q.0 w q.2 same_id same_order fetched.as_many is_reset) drawn found),
    )

-- A turn of the loop of schedule of a processor whose order was reset to the number of processors,
-- for sound queues, at most 2^63 processors and at least one random number for each fetch: it does
-- not panic; every coroutine that was in a queue or in hand, or was made ready by the one that ran,
-- is afterwards as often in a queue or in hand, or was left by the one that ran (finished, or kept
-- where it parked), and all queues are sound again; and a turn that runs nothing and ends with
-- nothing in hand has taken a shutdown message, or has left nothing to run in any queue.
pub turn-Turns :
    (p : Processor) (w : Machines) (run_next : Option Coroutine) (run : Run) (draws : Draws)
    → IsSound w
    → IsReset p w
    → AllDrawn draws
    → Turns p w run_next run (turn p w run_next run draws)
unfolding turn
turn-Turns p w run_next run draws s is_reset drawn =
    let (r, e, m, none_local) = local_next-Moves p.id run_next w s is_reset.0 in
    elim (Option-cases r.0) [
      | inl no_local ↦
          let (q, f, turns) =
            fetching-Turns p w r.1 run_next run draws is_reset drawn
              (subst (λ c. Moves w (listed run_next) (listed c) r.1) no_local m)
              (none_local no_local) in
          rw (turn, e, no_local, f) turns
      | inr (c, local) ↦
          rw (turn, e, ap (λ (o : Option Coroutine). is_some o) local)
            (Turns-behind p p w r.1 run_next r.0 run (run_or_park (p, r.0, r.1) run draws) refl refl
              m
              (run_or_park-Turns p r.0 r.1 run draws m.sound
                (IsReset-moved p p w r.1 refl refl m.as_many is_reset) drawn
                λ no_local. absurd (none-ne-some c (sym no_local ∙ local))))
    ]
