-- ===== src/Scheduler/Run/Parked.antt =====
-- Who parks and who has the idle mutex and the main coroutine between the steps of `Scheduler::run` of
-- src/scheduler.rs.
use coio_rs.Base.{
  ℕ, ◌+◌, ◌≡◌, ◌≢◌, ◌⊎◌, inl, inr, refl, sym, ap, ◌∙◌, subst, Bool, true, false, some, List, [],
  ◌∷◌, ◌++◌, arith, get_elem?, set_at, get_elem?-set_at_same, get_elem?-set_at_other,
  get_elem?-snoc, ℕ_discrete,
}
use mathlib.Core.Option.{some-injective}
use coio_rs.Scheduler.Run.{
  Caller, pushing, spawning, at_start, looping, sending, stopping, locking, notifying, joining,
  returned, Place, spawned, at_start_barrier, scheduling, running_main, parking, waiting, leaving,
  at_shutdown_barrier, locked_at_barrier, waiting_last, leaving_last, finishing, ended, Machine,
  MainCoro, unborn, queued, running, stored, finished, World, unlocked, calls,
}

-- At the condition variable in the loop, or just behind it.
abbrev pub rests : Place → Bool
rests spawned = false
rests at_start_barrier = false
rests scheduling = false
rests running_main = false
rests parking = false
rests waiting = true
rests leaving = true
rests at_shutdown_barrier = false
rests locked_at_barrier = false
rests waiting_last = false
rests leaving_last = false
rests finishing = false
rests ended = false

abbrev pub at_condvar : Place → Bool
at_condvar spawned = false
at_condvar at_start_barrier = false
at_condvar scheduling = false
at_condvar running_main = false
at_condvar parking = false
at_condvar waiting = true
at_condvar leaving = false
at_condvar at_shutdown_barrier = false
at_condvar locked_at_barrier = false
at_condvar waiting_last = true
at_condvar leaving_last = false
at_condvar finishing = false
at_condvar ended = false

abbrev pub has_main : Place → Bool
has_main spawned = false
has_main at_start_barrier = false
has_main scheduling = false
has_main running_main = true
has_main parking = false
has_main waiting = false
has_main leaving = false
has_main at_shutdown_barrier = false
has_main locked_at_barrier = false
has_main waiting_last = false
has_main leaving_last = false
has_main finishing = false
has_main ended = false

abbrev pub is_queued : MainCoro → Bool
is_queued unborn = false
is_queued queued = true
is_queued running = false
is_queued stored = false
is_queued finished = false

abbrev pub on_processor : MainCoro → Bool
on_processor unborn = false
on_processor queued = false
on_processor running = true
on_processor stored = true
on_processor finished = false

-- Whether the flag is set in the mutex, and whether all were notified.
abbrev pub sets_flag : Caller → Bool
sets_flag pushing = false
sets_flag (spawning k) = false
sets_flag at_start = false
sets_flag looping = false
sets_flag (sending k) = false
sets_flag stopping = false
sets_flag locking = false
sets_flag notifying = true
sets_flag (joining k) = true
sets_flag returned = true

abbrev pub notified_all : Caller → Bool
notified_all pushing = false
notified_all (spawning k) = false
notified_all at_start = false
notified_all looping = false
notified_all (sending k) = false
notified_all stopping = false
notified_all locking = false
notified_all notifying = false
notified_all (joining k) = true
notified_all returned = true

-- What goes with the place of a processor.
pub record PlaceInv (c : Caller) (mc : MainCoro) (s : Bool) (p : Place) : Type 0 where
  pub idle : rests p ≡ true → is_queued mc ≡ false
  pub runs : has_main p ≡ true → on_processor mc ≡ true
  pub free : s ≡ true → unlocked p ≡ true
  pub woken_up : notified_all c ≡ true → at_condvar p ≡ false

-- One processor has the main coroutine.
abbrev pub Main : List Machine → Type 0
Main ms =
    (i : ℕ) × (m : Machine) × (get_elem? ms i ≡ some m)
    × (has_main m.place ≡ true)
    × ((j : ℕ) (n : Machine) → get_elem? ms j ≡ some n → has_main n.place ≡ true → j ≡ i)

pub record Rests {A : Type 0} (w : World A) : Type 0 where
  pub flag : w.stopped ≡ sets_flag w.caller
  pub main : on_processor w.main_coro ≡ true → Main w.machines
  pub places :
      (i : ℕ) (m : Machine)
      → get_elem? w.machines i ≡ some m
      → PlaceInv w.caller w.main_coro w.stopped m.place

-- Who is where when one is replaced.
pub get_elem?-replaced :
    (i j : ℕ) (m m' n : Machine) (ms : List Machine)
    → get_elem? ms i ≡ some m
    → get_elem? (set_at i m' ms) j ≡ some n
    → ((j ≡ i) × (m' ≡ n)) ⊎ ((j ≢ i) × (get_elem? ms j ≡ some n))
get_elem?-replaced i j m m' n ms g f = elim (ℕ_discrete j i) [
  | yes same ↦ inl (
    same,
    some-injective _ _
        (sym (get_elem?-set_at_same i m' m ms g) ∙ ap (get_elem? (set_at i m' ms)) (sym same) ∙ f),
  )
  | no other ↦ inr (other, sym (get_elem?-set_at_other i j m' ms other) ∙ f)
]

set_at-Main :
    (i : ℕ) (m m' : Machine) (ms : List Machine)
    → get_elem? ms i ≡ some m
    → has_main m'.place ≡ has_main m.place
    → Main ms
    → Main (set_at i m' ms)
set_at-Main i m m' ms g same (a, x, h, r, u) =
    let only : (j : ℕ) (n : Machine)
        → get_elem? (set_at i m' ms) j ≡ some n
        → has_main n.place ≡ true
        → j ≡ a =
      λ j n f t. elim (get_elem?-replaced i j m m' n ms g f) [
        | inl (e, is_n) ↦ e ∙ u i m g (sym same ∙ ap (λ y. has_main (y.place)) is_n ∙ t)
        | inr (_, f') ↦ u j n f' t
      ] in
    elim (ℕ_discrete a i) [
      | yes e ↦
          let is_x : m ≡ x = some-injective _ _ (sym g ∙ ap (get_elem? ms) (sym e) ∙ h) in
          (
            a,
            m',
            ap (get_elem? (set_at i m' ms)) e ∙ get_elem?-set_at_same i m' m ms g,
            same ∙ ap (λ y. has_main (y.place)) is_x ∙ r,
            only,
          )
      | no ne ↦ (a, x, get_elem?-set_at_other i a m' ms ne ∙ h, r, only)
    ]

module _ {A : Type 0} where
  -- A processor that goes on, or gets its message.
  pub replaces-Rests :
      (w : World A) (i : ℕ) (m m' : Machine)
      → get_elem? w.machines i ≡ some m
      → has_main m'.place ≡ has_main m.place
      → PlaceInv w.caller w.main_coro w.stopped m'.place
      → Rests w
      → Rests (record w { machines = set_at i m' w.machines })
  replaces-Rests w i m m' g same p v = record {
    flag = v.flag;
    main = λ t. set_at-Main i m m' w.machines g same (v.main t);
    places = λ j n f. elim (get_elem?-replaced i j m m' n w.machines g f) [
      | inl (_, is_n) ↦ subst (λ y. PlaceInv w.caller w.main_coro w.stopped (y.place)) is_n p
      | inr (_, f') ↦ v.places j n f'
    ];
  }

  -- The caller goes on.
  pub calls-Rests :
      (w : World A) (c : Caller)
      → sets_flag c ≡ sets_flag w.caller
      → (notified_all c ≡ true → notified_all w.caller ≡ true)
      → Rests w
      → Rests (calls w c)
  calls-Rests w c same on v = record {
    flag = v.flag ∙ sym same;
    main = v.main;
    places = λ i m g.
        let u = v.places i m g in
        record { idle = u.idle; runs = u.runs; free = u.free; woken_up = λ t. u.woken_up (on t) };
  }

  pub spawned-Rests :
      (w : World A) (k : ℕ)
      → w.caller ≡ spawning k
      → on_processor w.main_coro ≡ false
      → Rests w
      → Rests (record w {
        machines = w.machines ++ (record { place = spawned; mail = false } ∷ []);
        caller = spawning (k + 1);
      })
  unfolding unlocked
  spawned-Rests w k e off v = record {
    flag = v.flag ∙ ap sets_flag e;
    main = λ t. absurd (ground (arith, t, off));
    places = λ i n g. elim (get_elem?-snoc w.machines _ n i g) [
      | inl g' ↦
          let u = v.places i n g' in
          record {
            idle = u.idle;
            runs = u.runs;
            free = u.free;
            woken_up = λ t. absurd (ground (arith, t));
          }
      | inr (_, is_n) ↦
          subst (λ y. PlaceInv (spawning (k + 1)) w.main_coro w.stopped (y.place)) is_n
            (record {
              idle = λ t. absurd (ground (arith, t));
              runs = λ t. absurd (ground (arith, t));
              free = λ t. refl;
              woken_up = λ t. absurd (ground (arith, t));
            })
    ];
  }
