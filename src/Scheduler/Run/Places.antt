-- ===== src/Scheduler/Run/Places.antt =====
-- Who parks and who has the idle mutex and the main coroutine, in every reachable state of `Scheduler::run`
-- of src/scheduler.rs.
use coio_rs.Base.{ℕ, ◌+◌, ◌≡◌, ◌≢◌, some, get_elem?, refl, sym, ap, true, false, arith}
use mathlib.Core.Option.{none-ne-some}
use coio_rs.Scheduler.Run.{
  unborn, queued, running, stored, finished, MainCoro, Machine, looping, sending, joining, returned,
  scheduling, parking, waiting, leaving, at_start_barrier, at_shutdown_barrier, locked_at_barrier,
  waiting_last, leaving_last, finishing, ended, World, unlocked, run_once, Work, pushes, spawns,
  starts, loops, leaves, sends, shuts, stops, notifies, joins, returns, arrives, begins,
  fetches_main, finds_main, runs_main, sends_shutdown, receives, passes, passes_locked, skips,
  unparks, unparks_last, ends, Step, works, parks, receives_locked, finds, waits, wakes, wakes_last,
  Reach, begin, later,
}
use coio_rs.Scheduler.Run.Phases.{Inv}
use coio_rs.Scheduler.Run.Steps.{Reach-Inv_run}
use coio_rs.Scheduler.Run.Parked.{sets_flag, notified_all, is_queued, Rests, calls-Rests}
use coio_rs.Scheduler.Run.Resting.{
  pushes-Rests, spawns-Rests, sends-Rests, shuts-Rests, stops-Rests, notifies-Rests,
  fetch_main-Rests, run_main-Rests, send_shutdown-Rests, moves-Rests, unnotified, gone,
}

module _ {A : Type 0} (workers : ℕ) (outcome : A) where
  loops-Rests : (w : World A) → Rests w → Rests (run_once w)
  unfolding run_once
  loops-Rests w r = record { flag = r.flag; main = r.main; places = r.places }

  not_queued : (c : MainCoro) → c ≢ queued → is_queued c ≡ false
  not_queued unborn q = refl
  not_queued queued q = absurd (q refl)
  not_queued running q = refl
  not_queued stored q = refl
  not_queued finished q = refl

  -- The flag is not set while a processor is at the barrier with the mutex.
  flagless :
      (w : World A) (i : ℕ) (m : Machine)
      → get_elem? w.machines i ≡ some m
      → m.place ≡ locked_at_barrier
      → Rests w
      → notified_all w.caller ≡ true
      → ⊥
  unfolding unlocked
  flagless w i m g e r t = ground (arith, (r.places i m g).free, e, t, r.flag)

  Work-Rests :
      {w w' : World A} → Work workers outcome w w' → Inv workers outcome w → Rests w → Rests w'
  unfolding unlocked
  Work-Rests {w} (pushes e) v r = pushes-Rests workers outcome w e v r
  Work-Rests {w} (spawns k e) v r = spawns-Rests workers outcome w k e v r
  Work-Rests {w} (starts e o) v r =
      calls-Rests w looping (sym (ap sets_flag e)) (λ t. absurd (ground (arith, t))) r
  Work-Rests {w} (loops e on f) v r = loops-Rests w r
  Work-Rests {w} (leaves e off) v r =
      calls-Rests w (sending 0) (sym (ap sets_flag e)) (λ t. absurd (ground (arith, t))) r
  Work-Rests {w} (sends k e) v r = sends-Rests workers outcome w k e r
  Work-Rests {w} (shuts e) v r = shuts-Rests workers outcome w e r
  Work-Rests {w} (stops e o) v r = stops-Rests workers outcome w e o r
  Work-Rests {w} (notifies e) v r =
      notifies-Rests workers outcome w e (gone workers outcome w e v) r
  Work-Rests {w} (joins k m e g d) v r =
      calls-Rests w (joining (k + 1)) (sym (ap sets_flag e)) (λ t. ap notified_all e) r
  Work-Rests {w} (returns k e g) v r =
      calls-Rests w returned (sym (ap sets_flag e)) (λ t. ap notified_all e) r
  Work-Rests {w} (fetches_main i m g e f) v r = fetch_main-Rests workers outcome w i m g f r
  Work-Rests {w} (finds_main i m g e o s b f) v r = fetch_main-Rests workers outcome w i m g f r
  Work-Rests {w} (runs_main i m g e f) v r = run_main-Rests workers outcome w f r
  Work-Rests {w} (sends_shutdown i m g e f) v r = send_shutdown-Rests workers outcome w i m g e f r
  Work-Rests {w} (arrives i m g e) v r =
      moves-Rests workers outcome w i m at_start_barrier g (ground (arith, e))
        (λ t. absurd (ground (arith, t))) refl (λ t. refl) (λ t. refl) r
  Work-Rests {w} (begins i m g e o) v r =
      moves-Rests workers outcome w i m scheduling g (ground (arith, e))
        (λ t. absurd (ground (arith, t))) refl (λ t. refl) (λ t. refl) r
  Work-Rests {w} (receives i m g e b) v r =
      moves-Rests workers outcome w i m at_shutdown_barrier g (ground (arith, e))
        (λ t. absurd (ground (arith, t))) refl (λ t. refl) (λ t. refl) r
  Work-Rests {w} (passes i m g e o) v r =
      moves-Rests workers outcome w i m finishing g (ground (arith, e))
        (λ t. absurd (ground (arith, t))) refl (λ t. refl) (λ t. refl) r
  Work-Rests {w} (passes_locked i m g e o) v r =
      moves-Rests workers outcome w i m waiting_last g (ground (arith, e))
        (λ t. absurd (ground (arith, t))) refl (λ t. refl) (λ t. absurd (flagless w i m g e r t)) r
  Work-Rests {w} (skips i m g e o s) v r =
      moves-Rests workers outcome w i m scheduling g (ground (arith, e))
        (λ t. absurd (ground (arith, t))) refl (λ t. refl) (λ t. refl) r
  Work-Rests {w} (unparks i m g e o) v r =
      moves-Rests workers outcome w i m scheduling g (ground (arith, e))
        (λ t. absurd (ground (arith, t))) refl (λ t. refl) (λ t. refl) r
  Work-Rests {w} (unparks_last i m g e o) v r =
      moves-Rests workers outcome w i m finishing g (ground (arith, e))
        (λ t. absurd (ground (arith, t))) refl (λ t. refl) (λ t. refl) r
  Work-Rests {w} (ends i m g e) v r =
      moves-Rests workers outcome w i m ended g (ground (arith, e))
        (λ t. absurd (ground (arith, t))) refl (λ t. refl) (λ t. refl) r

  Step-Rests :
      {w w' : World A} → Step workers outcome w w' → Inv workers outcome w → Rests w → Rests w'
  unfolding unlocked
  Step-Rests {w} (works st) v r = Work-Rests st v r
  Step-Rests {w} (parks i m g e o) v r =
      moves-Rests workers outcome w i m parking g (ground (arith, e))
        (λ t. absurd (ground (arith, t))) refl (λ t. refl) (λ t. refl) r
  Step-Rests {w} (receives_locked i m g e o s b) v r =
      moves-Rests workers outcome w i m locked_at_barrier g (ground (arith, e))
        (λ t. absurd (ground (arith, t))) refl (λ t. absurd (ground (arith, t, s))) (λ t. refl) r
  Step-Rests {w} (finds i m g e o s b) v r =
      moves-Rests workers outcome w i m scheduling g (ground (arith, e))
        (λ t. absurd (ground (arith, t))) refl (λ t. refl) (λ t. refl) r
  Step-Rests {w} (waits i m g e o s b q) v r =
      moves-Rests workers outcome w i m waiting g (ground (arith, e))
        (λ t. not_queued w.main_coro q) refl (λ t. refl)
        (λ t. absurd (unnotified workers outcome w s r t)) r
  Step-Rests {w} (wakes i m g e) v r =
      moves-Rests workers outcome w i m leaving g (ground (arith, e))
        (λ t. (r.places i m g).idle (ground (arith, e))) refl (λ t. refl) (λ t. refl) r
  Step-Rests {w} (wakes_last i m g e) v r =
      moves-Rests workers outcome w i m leaving_last g (ground (arith, e))
        (λ t. absurd (ground (arith, t))) refl (λ t. refl) (λ t. refl) r

  pub Reach-Rests : {w : World A} → Reach workers outcome w → Rests w
  Reach-Rests begin = record {
    flag = refl;
    main = λ t. absurd (ground (arith, t));
    places = λ i m g. absurd (none-ne-some _ g);
  }
  Reach-Rests (later r st) = Step-Rests st (Reach-Inv_run workers outcome r) (Reach-Rests r)
