-- ===== src/Runtime/Processor/Victim.antt =====
-- What a processor of src/runtime/processor.rs takes from another one.
use coio_rs.Base.{
  ℕ, ◌≡◌, ◌≢◌, inl, inr, refl, sym, ap, ◌∙◌, subst, Option, none, some, List, [], ◌∷◌, length, take,
  drop, get_elem?, set_at, get_elem?-set_at_other, get_elem?-set_at_same, get_elem?-set_at,
  count_of, count_of-append, take-append-drop, length-append, length-take, length-drop, arith,
  ◌>>=◌,
}
use mathlib.Core.Option.{some-injective}
use coio_rs.Runtime.RunQueue.{Coroutine, RunQueue, queue_len, queue_steal}
use coio_rs.Runtime.RunQueue.Window.{contents, length-contents}
use coio_rs.Runtime.RunQueue.Pop.{listed}
use coio_rs.Runtime.RunQueue.Steal.{half, Stolen, queue_steal-Steals}
use coio_rs.Runtime.Processor.{Machines, stolen}
use coio_rs.Runtime.Processor.Moves.{IsSound, Moves, Moves-trans, Moves-set_at, Moves-cancel}

abbrev pub IsEmpty : ℕ → Machines → Type 0
IsEmpty id w = (q : RunQueue) → get_elem? w.queues id ≡ some q → queue_len q ≡ 0

-- What is empty stays empty.
abbrev pub Stays : Machines → Machines → Type 0
Stays w v = (i : ℕ) → IsEmpty i w → IsEmpty i v

-- A step that may find a coroutine, which goes out of the queues; if not, `Q` holds then.
abbrev pub Finds : (Machines → Type 0) → Machines → Option (Option Coroutine × Machines) → Type 0
Finds Q w out =
    (r : Option Coroutine × Machines) × (out ≡ some r)
    × Moves w [] (listed r.0) r.1
    × (r.0 ≡ none → Q r.1)

-- The queue of `x` is found empty, and no other is filled.
abbrev pub Nothing : ℕ → Machines → Machines → Type 0
Nothing x w v = Stays w v × IsEmpty x v

pub contents_empty : (q : RunQueue) → queue_len q ≡ 0 → contents q ≡ []
contents_empty q e = nothing (contents q) (length-contents q ∙ e)
  where
    nothing : (xs : List Coroutine) → length xs ≡ 0 → xs ≡ []
    nothing [] e = refl
    nothing (x ∷ xs) e = absurd (omega arith)

-- An empty queue is put in its place.
pub set_at-IsEmpty :
    (id i : ℕ) (q : RunQueue) (w : Machines)
    → queue_len q ≡ 0
    → IsEmpty i w
    → IsEmpty i (record w { queues = set_at id q w.queues })
set_at-IsEmpty id i q w empty h p f = elim (get_elem?-set_at id i q p w.queues f) [
  | inl same ↦ subst (λ p. queue_len p ≡ 0) (sym same) empty
  | inr there ↦ h p there
]

pub set_at-own :
    (id : ℕ) (q q' : RunQueue) (w : Machines)
    → get_elem? w.queues id ≡ some q
    → queue_len q' ≡ 0
    → IsEmpty id (record w { queues = set_at id q' w.queues })
set_at-own id q q' w e empty p f =
    subst (λ p. queue_len p ≡ 0)
      (some-injective q' p (sym (get_elem?-set_at_same id q' q w.queues e) ∙ f)) empty

-- The two queues behind a theft.
stolen-Moves :
    (id x : ℕ) (w : Machines) (q from : RunQueue) (r : Option Coroutine × RunQueue × RunQueue)
    → IsSound w
    → id ≢ x
    → get_elem? w.queues id ≡ some q
    → get_elem? w.queues x ≡ some from
    → queue_len q ≡ 0
    → Stolen (contents from) r
    → Moves w [] (listed r.0) (stolen id x w r).1
unfolding count_of
stolen-Moves id x w q from r s ne e f empty (taken_half, left_half, all, valid_q, valid_from) =
    let xs = contents from in
    let batch = take (half xs) xs in
    let v : Machines = record w { queues = set_at x r.2 w.queues } in
    let first : Moves w [] batch v =
      Moves-set_at w x from r.2 w.global [] batch s f valid_from s.counted λ c. omega (
        arith,
        ap (λ ys. count_of c ys) left_half,
        count_of-append c batch (drop (half xs) xs),
        ap (λ ys. count_of c ys) (take-append-drop (half xs) xs),
      ) in
    let second : Moves v batch (listed r.0) (stolen id x w r).1 =
      Moves-set_at v id q r.1 w.global batch (listed r.0) first.sound
        (get_elem?-set_at_other x id r.2 w.queues ne ∙ e) valid_q s.counted
        λ c. omega (
          arith,
          ap (λ ys. count_of c ys) taken_half,
          count_of-append c (contents r.1) (listed r.0),
          ap (λ ys. count_of c ys) (contents_empty q empty),
        ) in
    Moves-cancel w (stolen id x w r).1 batch (listed r.0)
      (Moves-trans w v (stolen id x w r).1 [] batch batch (listed r.0) first second)

stolen-Nothing :
    (id x : ℕ) (w : Machines) (from : RunQueue) (r : Option Coroutine × RunQueue × RunQueue)
    → get_elem? w.queues x ≡ some from
    → Stolen (contents from) r
    → r.0 ≡ none
    → Nothing x w (stolen id x w r).1
stolen-Nothing id x w from r f (taken_half, left_half, all_if_none, valid_q, valid_from) got_none =
    let xs = contents from in
    let own_empty : queue_len r.1 ≡ 0 = omega (
      arith,
      length-append (contents r.1) (listed r.0),
      ap (λ (ys : List Coroutine). length ys) taken_half,
      length-take (half xs) xs,
      ap (λ (ys : List Coroutine). length ys) (all_if_none got_none),
      length-contents r.1,
    ) in
    let other_empty : queue_len r.2 ≡ 0 = omega (
      arith,
      ap (λ (ys : List Coroutine). length ys) left_half,
      length-drop (half xs) xs,
      ap (λ (ys : List Coroutine). length ys) (all_if_none got_none),
      length-contents r.2,
    ) in
    let v : Machines = record w { queues = set_at x r.2 w.queues } in
    (
      λ i h. set_at-IsEmpty id i r.1 v own_empty (set_at-IsEmpty x i r.2 w other_empty h),
      set_at-IsEmpty id x r.1 v own_empty (set_at-own x from r.2 w f other_empty),
    )

pub steal_other-Finds :
    (id x : ℕ) (w : Machines) (q from : RunQueue)
    → IsSound w
    → id ≢ x
    → get_elem? w.queues id ≡ some q
    → get_elem? w.queues x ≡ some from
    → queue_len q ≡ 0
    → Finds (Nothing x w) w (queue_steal [] q from >>= λ r. some (stolen id x w r))
steal_other-Finds id x w q from s ne e f empty =
    let (m, r, le, stole, got) =
      queue_steal-Steals [] q from (s.valid id q e) (s.valid x from f) empty tt in
    let nobody : m ≡ 0 = omega arith in
    let got' = subst (λ n. Stolen (drop n (contents from)) r) nobody got in
    (
      stolen id x w r,
      rw stole refl,
      stolen-Moves id x w q from r s ne e f empty got',
      stolen-Nothing id x w from r f got',
    )
