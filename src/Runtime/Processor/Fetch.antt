-- ===== src/Runtime/Processor/Fetch.antt =====
-- What a processor of src/runtime/processor.rs finds elsewhere when its own queue is empty.
use coio_rs.Base.{
  ℕ, suc, ◌-◌, ◌<◌, ◌≤◌, ◌^◌, ◌≡◌, ◌⊎◌, inl, inr, refl, sym, ap, ◌∙◌, subst, true, false, Option,
  none, some, List, [], ◌∷◌, ◌++◌, length, take, drop, get_elem?, get_elem?_below, count_of,
  count_of-append, take-append-drop, arith, ltb, Bool-cases,
}
use mathlib.Core.Option.{none-ne-some}
use coio_rs.Runtime.Order.{RandomProcessorOrder, reset}
use coio_rs.Runtime.Order.Count.{AllBelow}
use coio_rs.Runtime.Order.Visit.{iter_visits_each_once}
use coio_rs.Runtime.RunQueue.{
  Coroutine, RunQueue, GlobalQueue, queue_len, global_queue_get_batch, batch_size,
}
use coio_rs.Runtime.RunQueue.Window.{contents, IsValid}
use coio_rs.Runtime.RunQueue.Pop.{listed}
use coio_rs.Runtime.RunQueue.Global.{Gets, global_queue_get_batch-Gets}
use coio_rs.Runtime.Processor.{
  Machines, Processor, or_go_on, steal_round, visits, fetched, steal_from_global,
  fetch_foreign_coroutines,
}
use coio_rs.Runtime.Processor.Moves.{IsSound, Moves, Moves-refl, Moves-set_at}
use coio_rs.Runtime.Processor.Theft.{or_go_on-Finds, steal_round-Finds}
use coio_rs.Runtime.Processor.Victim.{IsEmpty, Stays, Finds, set_at-IsEmpty}

fetched-Finds :
    (id : ℕ) (w : Machines) (q : RunQueue) (r : Option Coroutine × GlobalQueue × RunQueue)
    (xs : List Coroutine)
    → w.global.queue ≡ xs
    → IsSound w
    → get_elem? w.queues id ≡ some q
    → queue_len q ≡ 0
    → Gets (length w.queues) xs q r
    → Finds (λ v. Stays w v × (v.global.queue ≡ [])) w (some (fetched w r id))
unfolding count_of
fetched-Finds id w q r [] f s e empty (none_got, rest, same, counted) = (
  fetched w r id,
  refl,
  Moves-set_at w id q r.2 r.1 [] (listed r.0) s e (subst IsValid (sym same) (s.valid id q e))
      counted λ c. rw (none_got, rest, same, f) refl,
  λ got_none. (λ i h. set_at-IsEmpty id i r.2 w (ap (λ p. queue_len p) same ∙ empty) h, rest),
)
fetched-Finds id w q r (c ∷ cs) f s e empty (got, filled, rest, counted, valid) =
    let n = batch_size (suc (length cs)) (length w.queues) q in
    (
      fetched w r id,
      refl,
      Moves-set_at w id q r.2 r.1 [] (listed r.0) s e valid counted λ d. omega (
        arith,
        ap (λ ys. count_of d ys) filled,
        ap (λ ys. count_of d ys) rest,
        ap (λ ys. count_of d ys) f,
        count_of-append d (contents q) (take n cs),
        count_of-append d (take n cs) (drop n cs),
        ap (λ ys. count_of d ys) (take-append-drop n cs),
        ap (λ o. count_of d (listed o)) got,
      ),
      λ got_none. absurd (none-ne-some c (sym got_none ∙ got)),
    )

steal_from_global-Finds :
    (id : ℕ) (w : Machines)
    → IsSound w
    → id < length w.queues
    → IsEmpty id w
    → Finds (λ v. Stays w v × (v.global.queue ≡ [])) w (steal_from_global id w)
unfolding steal_from_global
steal_from_global-Finds id w s lt empty =
    let (q, e) = get_elem?_below id w.queues lt in
    rw (steal_from_global, e)
      (fetched-Finds id w q (global_queue_get_batch (length w.queues) w.global q) w.global.queue
        refl s e (empty q e)
        (global_queue_get_batch-Gets (length w.queues) w.global q s.counted (s.valid id q e)))

AllBelow-append : (n : ℕ) (xs ys : List ℕ) → AllBelow n xs → AllBelow n ys → AllBelow n (xs ++ ys)
AllBelow-append n [] ys h k = k
AllBelow-append n (x ∷ xs) ys h k = (h.0, AllBelow-append n xs ys h.1 k)

-- For the order of the processors that a `reset` to their number has made, the rounds visit only them.
visits-AllBelow :
    (o : RandomProcessorOrder) (count : ℕ) (rnds : List ℕ)
    → 0 < count
    → count ≤ 2 ^ 63
    → (xs : List ℕ) × (visits (reset o count) rnds ≡ some xs)
      × AllBelow count xs
      × (0 < length rnds → (j : ℕ) → j < count → 0 < count_of j xs)
unfolding visits reset
visits-AllBelow o count [] pos small = ([], refl, tt, λ some_round. absurd (omega arith))
visits-AllBelow o count (rnd ∷ rnds) pos small =
    let (it, xs, e, f, below, len, once) = iter_visits_each_once o count rnd pos small in
    let (ys, g, below', all) = visits-AllBelow o count rnds pos small in
    (
      xs ++ ys,
      rw (e, f, g) refl,
      AllBelow-append count xs ys below below',
      λ some_round j lt. omega (arith, once j lt, count_of-append j xs ys),
    )

-- All queues are empty.
abbrev pub NoWork : Machines → Type 0
NoWork w = ((i : ℕ) → i < length w.queues → IsEmpty i w) × (w.global.queue ≡ [])

-- The processor's order is that of the number of processors.
abbrev pub IsReset : Processor → Machines → Type 0
IsReset p w =
    (p.id < length w.queues)
    × (length w.queues ≤ 2 ^ 63)
    × (o : RandomProcessorOrder) × (p.rand_order ≡ reset o (length w.queues))

-- How `fetch_foreign_coroutines` ends: what it finds goes out of the queues; if it finds nothing, there
-- is nothing, or it took a shutdown message.
abbrev pub Fetches :
    Processor → Machines → Option (Processor × Option Coroutine × Machines) → Type 0
Fetches p w out =
    (r : Processor × Option Coroutine × Machines) × (out ≡ some r)
    × (r.0.id ≡ p.id)
    × (r.0.rand_order ≡ p.rand_order)
    × Moves w [] (listed r.1) r.2
    × (r.1 ≡ none → IsEmpty p.id r.2 × ((r.0.should_finish ≡ true) ⊎ NoWork r.2))

fetch_foreign_coroutines-steps :
    (p : Processor) (w : Machines) (rnds xs : List ℕ) (r r' : Option Coroutine × Machines)
    → ltb 0 p.shutdowns ≡ false
    → visits p.rand_order rnds ≡ some xs
    → steal_round p.id xs w ≡ some r
    → or_go_on r (λ v. steal_from_global p.id v) ≡ some r'
    → fetch_foreign_coroutines p w rnds ≡ some (p, r'.0, r'.1)
unfolding fetch_foreign_coroutines
fetch_foreign_coroutines-steps p w rnds xs r r' none_sent visited stole ended =
    rw (none_sent, visited, stole, ended) refl

-- The rounds over an order that has every processor, and then the global queue.
rounds-Finds :
    (id : ℕ) (xs : List ℕ) (w : Machines)
    → IsSound w
    → id < length w.queues
    → AllBelow (length w.queues) xs
    → IsEmpty id w
    → ((j : ℕ) → j < length w.queues → 0 < count_of j xs)
    → (r : Option Coroutine × Machines) × (steal_round id xs w ≡ some r)
      × Finds NoWork w (or_go_on r (λ v. steal_from_global id v))
rounds-Finds id xs w s lt below empty all =
    let (r, g, m, stolen_none) = steal_round-Finds id xs w s lt below empty in
    (
      r,
      g,
      or_go_on-Finds NoWork w r.1 r.0 (λ v. steal_from_global id v) m
          λ none_yet.
            let (stays, all_empty) = stolen_none none_yet in
            let (q, h, n, global_none) =
              steal_from_global-Finds id r.1 m.sound (omega (arith, m.as_many)) (stays id empty) in
            let nothing : q.0 ≡ none → NoWork q.1 = λ got_none. (
              λ i lt_i.
                  (global_none got_none).0 i
                    (all_empty i (all i (omega (arith, m.as_many, n.as_many)))),
              (global_none got_none).1,
            ) in
            (q, h, n, nothing),
    )

-- With an empty queue, a fetch does not panic and ends as `Fetches` says.
pub fetch_foreign_coroutines-Fetches :
    (p : Processor) (w : Machines) (rnds : List ℕ)
    → IsSound w
    → IsReset p w
    → IsEmpty p.id w
    → 0 < length rnds
    → Fetches p w (fetch_foreign_coroutines p w rnds)
unfolding fetch_foreign_coroutines
fetch_foreign_coroutines-Fetches p w rnds s (lt, small, o, e) empty some_round =
    elim (Bool-cases (ltb 0 p.shutdowns)) [
      | inl shut ↦
          let q : Processor = record p { shutdowns = p.shutdowns - 1; should_finish = true } in
          rw (fetch_foreign_coroutines, shut)
            ((q, none, w), refl, refl, refl, Moves-refl w s, λ got_none. (empty, inl refl))
      | inr none_sent ↦
          let (xs, f, below, all) = visits-AllBelow o (length w.queues) rnds (omega arith) small in
          let (r, g, finds) = rounds-Finds p.id xs w s lt below empty (all some_round) in
          let (r', g', m, found_none) = finds in
          let visited : visits p.rand_order rnds ≡ some xs =
            subst (λ o. visits o rnds ≡ some xs) (sym e) f in
          (
            (p, r'.0, r'.1),
            fetch_foreign_coroutines-steps p w rnds xs r r' none_sent visited g g',
            refl,
            refl,
            m,
            λ got_none.
                let nothing = found_none got_none in
                (nothing.0 p.id (omega (arith, m.as_many)), inr nothing),
          )
    ]
