-- ===== src/Runtime/Processor/Theft.antt =====
-- What a processor of src/runtime/processor.rs finds in the queues that it visits.
use coio_rs.Base.{
  ℕ, ◌<◌, ◌≡◌, inl, inr, refl, sym, ap, subst, Option, none, some, List, [], ◌∷◌, length, drop,
  get_elem?, set_at, get_elem?_below, count_of, length-drop, arith, ◌>>=◌, ◌==◌, Bool-cases, ==_iff,
}
use mathlib.Core.Option.{none-ne-some}
use coio_rs.Runtime.Order.Count.{AllBelow}
use coio_rs.Runtime.RunQueue.{Coroutine, RunQueue, queue_len, queue_grab, steal_end}
use coio_rs.Runtime.RunQueue.Window.{contents, IsValid, length-contents}
use coio_rs.Runtime.RunQueue.Pop.{listed}
use coio_rs.Runtime.RunQueue.Steal.{Halved, queue_grab-Grabs}
use coio_rs.Runtime.Processor.{Machines, self_stolen, steal_from, or_go_on, steal_round}
use coio_rs.Runtime.Processor.Moves.{IsSound, Moves, Moves-refl, Moves-trans, Moves-set_at}
use coio_rs.Runtime.Processor.Victim.{
  IsEmpty, Stays, Finds, Nothing, contents_empty, set_at-IsEmpty, set_at-own, steal_other-Finds,
}

steal_self-Finds :
    (id : ℕ) (w : Machines) (q : RunQueue)
    → IsSound w
    → get_elem? w.queues id ≡ some q
    → queue_len q ≡ 0
    → Finds (Nothing id w) w (
        steal_end (queue_grab [] q q.queue q.queue_tail).1 (queue_grab [] q q.queue q.queue_tail)
        >>= λ r. some (self_stolen id w r))
unfolding count_of
steal_self-Finds id w q s e empty =
    let p = queue_grab [] q q.queue q.queue_tail in
    let (m, le, halved) = queue_grab-Grabs [] q q.queue q.queue_tail (s.valid id q e) tt in
    let nobody : m ≡ 0 = omega arith in
    let (count, slots, left, valid_p) =
      subst (λ n. Halved (drop n (contents q)) q.queue q.queue_tail p) nobody halved in
    let none_here = contents_empty q empty in
    let none_taken : p.0 ≡ 0 =
      omega (arith, count, ap (λ (ys : List Coroutine). length ys) none_here) in
    let none_left : queue_len p.1 ≡ 0 = omega (
      arith,
      length-contents p.1,
      ap (λ (ys : List Coroutine). length ys) left,
      length-drop p.0 (contents q),
      ap (λ (ys : List Coroutine). length ys) none_here,
    ) in
    let q' : RunQueue = record {
      queue = p.2;
      queue_head = p.1.queue_head;
      queue_tail = p.1.queue_tail;
    } in
    let valid' : IsValid q' = record {
      head_fits = valid_p.head_fits;
      tail_fits = valid_p.tail_fits;
      within = valid_p.within;
    } in
    let v : Machines = record w { queues = set_at id q' w.queues } in
    (
      (none, v),
      rw none_taken refl,
      Moves-set_at w id q q' w.global [] [] s e valid' s.counted λ c. omega (
        arith,
        ap (λ ys. count_of c ys) none_here,
        ap (λ ys. count_of c ys) (contents_empty q' none_left),
      ),
      λ got_none. (λ i h. set_at-IsEmpty id i q' w none_left h, set_at-own id q q' w e none_left),
    )

steal_from-Finds :
    (id x : ℕ) (w : Machines)
    → IsSound w
    → id < length w.queues
    → x < length w.queues
    → IsEmpty id w
    → Finds (Nothing x w) w (steal_from id x w)
unfolding steal_from
steal_from-Finds id x w s lt lt' empty =
    let (q, e) = get_elem?_below id w.queues lt in
    let (from, f) = get_elem?_below x w.queues lt' in
    elim (Bool-cases (x == id)) [
      | inl same ↦
          let (r, g, m, found_none) = steal_self-Finds id w q s e (empty q e) in
          let is_own : id ≡ x = sym ((==_iff x id).0 same) in
          rw (steal_from, e, f, same)
            (
              r,
              g,
              m,
              λ got_none. (
                (found_none got_none).0,
                subst (λ y. IsEmpty y r.1) is_own (found_none got_none).1,
              ),
            )
      | inr other ↦
          rw (steal_from, e, f, other)
            (steal_other-Finds id x w q from s (ground arith) e f (empty q e))
    ]

-- A step behind one that may have found a coroutine.
pub or_go_on-Finds :
    (Q : Machines → Type 0) (w v : Machines) (c : Option Coroutine)
    (k : Machines → Option (Option Coroutine × Machines))
    → Moves w [] (listed c) v
    → (c ≡ none → Finds Q v (k v))
    → Finds Q w (or_go_on (c, v) k)
or_go_on-Finds Q w v (some c) k m next =
    ((some c, v), refl, m, λ e. absurd (none-ne-some c (sym e)))
or_go_on-Finds Q w v none k m next =
    let (r, e, n, found_none) = next refl in
    (r, e, Moves-trans w v r.1 [] [] [] (listed r.0) m n, found_none)

abbrev pub AllEmpty : List ℕ → Machines → Type 0
AllEmpty xs w = (x : ℕ) → 0 < count_of x xs → IsEmpty x w

pub steal_round-Finds :
    (id : ℕ) (xs : List ℕ) (w : Machines)
    → IsSound w
    → id < length w.queues
    → AllBelow (length w.queues) xs
    → IsEmpty id w
    → Finds (λ v. Stays w v × AllEmpty xs v) w (steal_round id xs w)
unfolding steal_round count_of
steal_round-Finds id [] w s lt below empty =
    ((none, w), refl, Moves-refl w s, λ e. (λ i h. h, λ x pos. absurd (omega arith)))
steal_round-Finds id (x ∷ xs) w s lt below empty =
    let (r, e, m, here_none) = steal_from-Finds id x w s lt below.0 empty in
    rw (steal_round, e)
      (or_go_on-Finds (λ v. Stays w v × AllEmpty (x ∷ xs) v) w r.1 r.0 (λ v. steal_round id xs v) m
        λ none_yet.
          let (stays, here) = here_none none_yet in
          let (r', e', m', later_none) =
            steal_round-Finds id xs r.1 m.sound (omega (arith, m.as_many))
              (subst (λ n. AllBelow n xs) (sym m.as_many) below.1) (stays id empty) in
          (
            r',
            e',
            m',
            λ got_none.
                let (stays', there) = later_none got_none in
                (
                  λ i h. stays' i (stays i h),
                  λ j pos. elim (Bool-cases (x == j)) [
                    | inl same ↦ subst (λ j. IsEmpty j r'.1) ((==_iff x j).0 same) (stays' x here)
                    | inr other ↦ there j (ground arith)
                  ],
                ),
          ))
