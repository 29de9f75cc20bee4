-- ===== src/Scheduler/Run/Measure.antt =====
-- Every step to the end of `Scheduler::run` of src/scheduler.rs brings it nearer.
use coio_rs.Base.{
  ℕ, zero, suc, refl, ◌+◌, ◌-◌, ◌*◌, ◌<◌, ◌≡◌, inl, inr, ap, subst, true, false, some, List, [],
  ◌∷◌, ◌++◌, arith, ltb, if◌then◌else◌, length, get_elem?, set_at, get_elem?-lt, Bool-cases,
}
use mathlib.Core.Option.{some-injective, none-ne-some}
use coio_rs.Scheduler.Run.{
  Caller, pushing, spawning, at_start, looping, sending, stopping, locking, notifying, joining,
  returned, Place, running_main, parking, waiting, leaving, locked_at_barrier, waiting_last,
  leaving_last, woken, wake, shut, notify_all, fetch_main, running, shuts, notifies, fetches_main,
  finds_main, passes_locked, skips, unparks, unparks_last, spawned, at_start_barrier, scheduling,
  at_shutdown_barrier, finishing, ended, Machine, MainCoro, unborn, queued, stored, finished, World,
  moves, push_main, spawn_machine, run_main, send_shutdown, run_once, send_to, stop, Work, pushes,
  spawns, starts, loops, leaves, sends, stops, joins, returns, arrives, begins, runs_main,
  sends_shutdown, receives, passes, ends,
}
use coio_rs.Base.{Option-cases}
use coio_rs.Scheduler.Run.Phases.{Sized, Inv}

-- How many steps the caller has ahead, with those of the threads that it starts.
abbrev pub caller_left : ℕ → Caller → ℕ
caller_left n pushing = 11 * n + 9
caller_left n (spawning k) = 9 * (n - k) + 2 * n + 8
caller_left n at_start = 2 * n + 7
caller_left n looping = 2 * n + 6
caller_left n (sending k) = n - k + n + 5
caller_left n stopping = n + 4
caller_left n locking = n + 3
caller_left n notifying = n + 2
caller_left n (joining k) = n - k + 1
caller_left n returned = 0

abbrev pub place_left : Place → ℕ
place_left spawned = 8
place_left at_start_barrier = 7
place_left scheduling = 5
place_left running_main = 5
place_left parking = 6
place_left waiting = 6
place_left leaving = 6
place_left at_shutdown_barrier = 4
place_left locked_at_barrier = 4
place_left waiting_last = 3
place_left leaving_last = 3
place_left finishing = 1
place_left ended = 0

abbrev pub coro_left : MainCoro → ℕ
coro_left unborn = 4
coro_left queued = 3
coro_left running = 2
coro_left stored = 1
coro_left finished = 0

abbrev pub machines_left : List Machine → ℕ
machines_left [] = 0
machines_left (m ∷ ms) = place_left m.place + machines_left ms

pub left_of : {A : Type 0} → ℕ → World A → ℕ
left_of n w =
    caller_left n w.caller
    + machines_left w.machines
    + coro_left w.main_coro
    + (if w.is_running then 1 else 0)

machines_left-append :
    (ms : List Machine) (m : Machine)
    → machines_left (ms ++ (m ∷ [])) ≡ machines_left ms + place_left m.place
machines_left-append [] m = omega arith
machines_left-append (x ∷ ms) m = omega (arith, machines_left-append ms m)

machines_left-set_at :
    (i : ℕ) (m n : Machine) (ms : List Machine)
    → get_elem? ms i ≡ some m
    → machines_left (set_at i n ms) + place_left m.place ≡ machines_left ms + place_left n.place
machines_left-set_at i m n [] e = absurd (none-ne-some _ e)
machines_left-set_at zero m n (x ∷ ms) e =
    omega (arith, ap (λ y. place_left (y.place)) (some-injective _ _ e))
machines_left-set_at (suc i) m n (x ∷ ms) e = omega (arith, machines_left-set_at i m n ms e)

module _ {A : Type 0} (workers : ℕ) (outcome : A) where
  moves-fewer :
      (w : World A) (i : ℕ) (m : Machine) (p : Place)
      → get_elem? w.machines i ≡ some m
      → place_left p < place_left m.place
      → left_of workers (moves w i p m.mail) < left_of workers w
  unfolding left_of
  moves-fewer w i m p g lt =
      let n : Machine = record { place = p; mail = m.mail } in
      omega (arith, machines_left-set_at i m n w.machines g, lt)

  spawns-fewer :
      (w : World A) (k : ℕ)
      → w.caller ≡ spawning k
      → left_of workers (spawn_machine workers k w) < left_of workers w
  unfolding left_of spawn_machine
  spawns-fewer w k e =
      let now : caller_left workers w.caller ≡ 9 * (workers - k) + 2 * workers + 8 =
        ap (caller_left workers) e in
      let more = machines_left-append w.machines (record { place = spawned; mail = false }) in
      elim (Bool-cases (ltb k workers)) [
        | inl lt ↦
            let lt' : k < workers = ground (arith, lt) in rw lt (omega (arith, now, more, lt'))
        | inr ge ↦ rw ge (omega (arith, now))
      ]

  sends-fewer :
      (w : World A) (k : ℕ)
      → w.caller ≡ sending k
      → Inv workers outcome w
      → left_of workers (send_to k w) < left_of workers w
  unfolding left_of send_to
  sends-fewer w k e v =
      let now : caller_left workers w.caller ≡ workers - k + workers + 5 =
        ap (caller_left workers) e in
      let size : length w.machines ≡ workers =
        subst (λ c. Sized workers c (length w.machines)) e v.size in
      elim (Option-cases (get_elem? w.machines k)) [
        | inl out ↦ rw (send_to, out) (omega (arith, now))
        | inr (m, g) ↦
            let same =
              machines_left-set_at k m (record { place = m.place; mail = true }) w.machines g in
            rw (send_to, g) (omega (arith, now, size, same, get_elem?-lt w.machines k m g))
      ]

  woken-left : (p : Place) → place_left (woken p) ≡ place_left p
  unfolding woken
  woken-left p = ground arith

  machines_left-wake : (ms : List Machine) → machines_left (wake ms) ≡ machines_left ms
  unfolding wake
  machines_left-wake [] = refl
  machines_left-wake (m ∷ ms) = omega (arith, woken-left m.place, machines_left-wake ms)

  -- Whatever step is done.
  pub Work-fewer :
      {w w' : World A}
      → Work workers outcome w w'
      → Inv workers outcome w
      → left_of workers w' < left_of workers w
  unfolding left_of push_main run_once shut stop notify_all run_main send_shutdown fetch_main
  Work-fewer {w} (pushes e) v =
      let now = ap (caller_left workers) e in
      let unborn_yet : coro_left w.main_coro ≡ 4 = ground (arith, v.born, e) in
      omega (arith, now, unborn_yet)
  Work-fewer {w} (spawns k e) v = spawns-fewer w k e
  Work-fewer {w} (starts e o) v = omega (arith, ap (caller_left workers) e)
  Work-fewer {w} (loops e r f) v = ground (arith, e, r, f)
  Work-fewer {w} (leaves e r) v = omega (arith, ap (caller_left workers) e)
  Work-fewer {w} (sends k e) v = sends-fewer w k e v
  Work-fewer {w} (shuts e) v = omega (arith, ap (caller_left workers) e)
  Work-fewer {w} (stops e o) v = omega (arith, ap (caller_left workers) e)
  Work-fewer {w} (notifies e) v =
      omega (arith, ap (caller_left workers) e, machines_left-wake w.machines)
  Work-fewer {w} (joins k m e g d) v =
      let size : length w.machines ≡ workers =
        subst (λ c. Sized workers c (length w.machines)) e v.size in
      omega (arith, ap (caller_left workers) e, size, get_elem?-lt w.machines k m g)
  Work-fewer {w} (returns k e g) v = omega (arith, ap (caller_left workers) e)
  Work-fewer {w} (arrives i m g e) v =
      moves-fewer w i m at_start_barrier g (omega (arith, ap place_left e))
  Work-fewer {w} (begins i m g e o) v =
      moves-fewer w i m scheduling g (omega (arith, ap place_left e))
  Work-fewer {w} (runs_main i m g e f) v = omega (arith, ap coro_left f)
  Work-fewer {w} (fetches_main i m g e f) v = omega (
    arith,
    ap coro_left f,
    ap place_left e,
    machines_left-set_at i m (record { place = running_main; mail = m.mail }) w.machines g,
  )
  Work-fewer {w} (finds_main i m g e o s b f) v = omega (
    arith,
    ap coro_left f,
    ap place_left e,
    machines_left-set_at i m (record { place = running_main; mail = m.mail }) w.machines g,
  )
  Work-fewer {w} (sends_shutdown i m g e f) v = omega (
    arith,
    ap coro_left f,
    ap place_left e,
    machines_left-set_at i m (record { place = scheduling; mail = m.mail }) w.machines g,
  )
  Work-fewer {w} (receives i m g e b) v =
      moves-fewer w i m at_shutdown_barrier g (omega (arith, ap place_left e))
  Work-fewer {w} (passes i m g e o) v =
      moves-fewer w i m finishing g (omega (arith, ap place_left e))
  Work-fewer {w} (ends i m g e) v = moves-fewer w i m ended g (omega (arith, ap place_left e))
  Work-fewer {w} (passes_locked i m g e o) v =
      moves-fewer w i m waiting_last g (omega (arith, ap place_left e))
  Work-fewer {w} (skips i m g e o s) v =
      moves-fewer w i m scheduling g (omega (arith, ap place_left e))
  Work-fewer {w} (unparks i m g e o) v =
      moves-fewer w i m scheduling g (omega (arith, ap place_left e))
  Work-fewer {w} (unparks_last i m g e o) v =
      moves-fewer w i m finishing g (omega (arith, ap place_left e))
