-- ===== src/Scheduler/Run/Steps.antt =====
-- The steps of `Scheduler::run` of src/scheduler.rs keep what holds between them.
use coio_rs.Base.{
  false, some, get_elem?, ◌≢◌, ℕ, ◌≡◌, refl, sym, ap, ◌∙◌, subst, true, arith, length, get_elem?-lt,
}
use mathlib.Core.Option.{none-ne-some}
use coio_rs.Scheduler.Run.{
  pushing, looping, at_start_barrier, scheduling, at_shutdown_barrier, finishing, ended, queued,
  stored, running, running_main, parking, waiting, leaving, locked_at_barrier, waiting_last,
  leaving_last, Machine, Work, works, shuts, notifies, fetches_main, finds_main, passes_locked,
  skips, unparks, unparks_last, parks, receives_locked, finds, waits, wakes, wakes_last, fetch_main,
  World, shut_down, caller_started, push_main, start_open, shutdown_open, run_main, send_shutdown,
  run_once, Step, pushes, spawns, starts, loops, leaves, sends, stops, joins, returns, arrives,
  begins, runs_main, sends_shutdown, receives, passes, ends, Reach, begin, later,
}
use coio_rs.Scheduler.Run.Phases.{Sized, Stores, is_unborn, is_finished, left_start, Inv}
use coio_rs.Scheduler.Run.Threads.{moves-Inv}
use coio_rs.Scheduler.Run.Calls.{
  spawns-Inv, sends-Inv, joins-Inv, returns-Inv, shuts-Inv, notifies-Inv, stops-Inv, starts-Inv,
  leaves-Inv,
}

module _ {A : Type 0} (workers : ℕ) (outcome : A) where
  pushes-Inv :
      (w : World A) → w.caller ≡ pushing → Inv workers outcome w → Inv workers outcome (push_main w)
  unfolding push_main
  pushes-Inv w e v =
      let empty : length w.machines ≡ 0 =
        subst (λ c. Sized workers c (length w.machines)) e v.size in
      record {
        size = (empty, omega arith);
        born = refl;
        stores = tt;
        sent = ground (arith, v.sent, v.born, e);
        running = λ r. v.running r;
        left = λ l. absurd (ground (arith, l));
        each = λ i m g. absurd (omega (arith, get_elem?-lt w.machines i m g, empty));
      }

  runs_main-Inv :
      (w : World A)
      → w.main_coro ≡ running
      → Inv workers outcome w
      → Inv workers outcome (run_main outcome w)
  unfolding run_main
  runs_main-Inv w e v = record {
    size = v.size;
    born = sym (ap is_unborn e) ∙ v.born;
    stores = refl;
    sent = v.sent ∙ ap is_finished e;
    running = v.running;
    left = v.left;
    each = v.each;
  }

  -- A processor goes on with the main coroutine.
  fetch_main-Inv :
      (w : World A) (i : ℕ) (m : Machine)
      → get_elem? w.machines i ≡ some m
      → m.place ≢ ended
      → shut_down m.place ≡ false
      → left_start m.place ≡ true
      → w.main_coro ≡ queued
      → Inv workers outcome w
      → Inv workers outcome (fetch_main i m.mail w)
  unfolding fetch_main shut_down
  fetch_main-Inv w i m g d before on e v =
      let u =
        moves-Inv workers outcome w i m running_main g d (λ t. (v.each i m g).in_turn on)
          (λ t. absurd (ground (arith, t))) (λ t. absurd (ground (arith, t, before)))
          (λ t. absurd (ground (arith, t))) v in
      record {
        size = u.size;
        born = sym (ap is_unborn e) ∙ v.born;
        stores = tt;
        sent = v.sent ∙ ap is_finished e;
        running = u.running;
        left = u.left;
        each = u.each;
      }

  sends_shutdown-Inv :
      (w : World A) (i : ℕ) (m : Machine)
      → get_elem? w.machines i ≡ some m
      → m.place ≡ running_main
      → w.main_coro ≡ stored
      → Inv workers outcome w
      → Inv workers outcome (send_shutdown i m.mail w)
  unfolding send_shutdown shut_down
  sends_shutdown-Inv w i m g here e v =
      let u =
        moves-Inv workers outcome w i m scheduling g (λ d. ground (arith, here, d))
          (λ t. (v.each i m g).in_turn (ground (arith, here))) (λ t. absurd (ground (arith, t)))
          (λ t. absurd (ground (arith, t, here))) (λ t. absurd (ground (arith, t))) v in
      record {
        size = u.size;
        born = sym (ap is_unborn e) ∙ v.born;
        stores = subst (λ c. Stores outcome c w.result) e v.stores;
        sent = refl;
        running = λ r. refl;
        left = u.left;
        each = u.each;
      }

  loops-Inv :
      (w : World A)
      → w.caller ≡ looping
      → w.shutdown_sent ≡ true
      → Inv workers outcome w
      → Inv workers outcome (run_once w)
  unfolding run_once
  loops-Inv w e f v = record {
    size = v.size;
    born = v.born;
    stores = v.stores;
    sent = v.sent;
    running = λ r. f;
    left = λ l. absurd (ground (arith, l, e));
    each = v.each;
  }

  start_open-caller : (w : World A) → start_open w ≡ true → caller_started w.caller ≡ true
  unfolding start_open
  start_open-caller w e = ground (arith, e)

  pub Work-Inv :
      {w w' : World A} → Work workers outcome w w' → Inv workers outcome w → Inv workers outcome w'
  unfolding shutdown_open shut_down
  Work-Inv {w} (pushes e) v = pushes-Inv w e v
  Work-Inv {w} (spawns k e) v = spawns-Inv workers outcome w k e v
  Work-Inv {w} (starts e o) v = starts-Inv workers outcome w e v
  Work-Inv {w} (loops e r f) v = loops-Inv w e f v
  Work-Inv {w} (leaves e r) v = leaves-Inv workers outcome w e r v
  Work-Inv {w} (sends k e) v = sends-Inv workers outcome w k e v
  Work-Inv {w} (shuts e) v = shuts-Inv workers outcome w e v
  Work-Inv {w} (stops e o) v = stops-Inv workers outcome w e v
  Work-Inv {w} (notifies e) v = notifies-Inv workers outcome w e v
  Work-Inv {w} (joins k m e g d) v = joins-Inv workers outcome w k m e g d v
  Work-Inv {w} (returns k e g) v = returns-Inv workers outcome w k e g v
  Work-Inv {w} (arrives i m g e) v =
      moves-Inv workers outcome w i m at_start_barrier g (λ d. ground (arith, e, d))
        (λ t. absurd (ground (arith, t))) (λ t. absurd (ground (arith, t)))
        (λ t. absurd (ground (arith, t, e))) (λ t. absurd (ground (arith, t))) v
  Work-Inv {w} (begins i m g e o) v =
      moves-Inv workers outcome w i m scheduling g (λ d. ground (arith, e, d))
        (λ t. start_open-caller w o) (λ t. absurd (ground (arith, t)))
        (λ t. absurd (ground (arith, t, e))) (λ t. absurd (ground (arith, t))) v
  Work-Inv {w} (runs_main i m g e f) v = runs_main-Inv w f v
  Work-Inv {w} (fetches_main i m g e f) v =
      fetch_main-Inv w i m g (λ d. ground (arith, e, d)) (ground (arith, e)) (ground (arith, e)) f v
  Work-Inv {w} (finds_main i m g e o s b f) v =
      fetch_main-Inv w i m g (λ d. ground (arith, e, d)) (ground (arith, e)) (ground (arith, e)) f v
  Work-Inv {w} (sends_shutdown i m g e f) v = sends_shutdown-Inv w i m g e f v
  Work-Inv {w} (receives i m g e b) v =
      moves-Inv workers outcome w i m at_shutdown_barrier g (λ d. ground (arith, e, d))
        (λ t. (v.each i m g).in_turn (ground (arith, e))) (λ t. b) (λ t. refl)
        (λ t. absurd (ground (arith, t))) v
  Work-Inv {w} (passes i m g e o) v =
      moves-Inv workers outcome w i m finishing g (λ d. ground (arith, e, d))
        (λ t. (v.each i m g).in_turn (ground (arith, e)))
        (λ t. (v.each i m g).took (ground (arith, e))) (λ t. refl) (λ t. o) v
  Work-Inv {w} (ends i m g e) v =
      moves-Inv workers outcome w i m ended g (λ d. ground (arith, e, d))
        (λ t. (v.each i m g).in_turn (ground (arith, e)))
        (λ t. (v.each i m g).took (ground (arith, e))) (λ t. refl)
        (λ t. (v.each i m g).passed (ground (arith, e))) v
  Work-Inv {w} (passes_locked i m g e o) v =
      moves-Inv workers outcome w i m waiting_last g (λ d. ground (arith, e, d))
        (λ t. (v.each i m g).in_turn (ground (arith, e)))
        (λ t. (v.each i m g).took (ground (arith, e))) (λ t. refl) (λ t. o) v
  Work-Inv {w} (skips i m g e o s) v =
      moves-Inv workers outcome w i m scheduling g (λ d. ground (arith, e, d))
        (λ t. (v.each i m g).in_turn (ground (arith, e))) (λ t. absurd (ground (arith, t)))
        (λ t. absurd (ground (arith, t, e))) (λ t. absurd (ground (arith, t))) v
  Work-Inv {w} (unparks i m g e o) v =
      moves-Inv workers outcome w i m scheduling g (λ d. ground (arith, e, d))
        (λ t. (v.each i m g).in_turn (ground (arith, e))) (λ t. absurd (ground (arith, t)))
        (λ t. absurd (ground (arith, t, e))) (λ t. absurd (ground (arith, t))) v
  Work-Inv {w} (unparks_last i m g e o) v =
      moves-Inv workers outcome w i m finishing g (λ d. ground (arith, e, d))
        (λ t. (v.each i m g).in_turn (ground (arith, e)))
        (λ t. (v.each i m g).took (ground (arith, e))) (λ t. refl)
        (λ t. (v.each i m g).passed (ground (arith, e))) v

  pub Step-Inv :
      {w w' : World A} → Step workers outcome w w' → Inv workers outcome w → Inv workers outcome w'
  unfolding shut_down
  Step-Inv (works st) v = Work-Inv st v
  Step-Inv {w} (parks i m g e o) v =
      moves-Inv workers outcome w i m parking g (λ d. ground (arith, e, d))
        (λ t. (v.each i m g).in_turn (ground (arith, e))) (λ t. absurd (ground (arith, t)))
        (λ t. absurd (ground (arith, t, e))) (λ t. absurd (ground (arith, t))) v
  Step-Inv {w} (receives_locked i m g e o s b) v =
      moves-Inv workers outcome w i m locked_at_barrier g (λ d. ground (arith, e, d))
        (λ t. (v.each i m g).in_turn (ground (arith, e))) (λ t. b) (λ t. refl)
        (λ t. absurd (ground (arith, t))) v
  Step-Inv {w} (finds i m g e o s b) v =
      moves-Inv workers outcome w i m scheduling g (λ d. ground (arith, e, d))
        (λ t. (v.each i m g).in_turn (ground (arith, e))) (λ t. absurd (ground (arith, t)))
        (λ t. absurd (ground (arith, t, e))) (λ t. absurd (ground (arith, t))) v
  Step-Inv {w} (waits i m g e o s b q) v =
      moves-Inv workers outcome w i m waiting g (λ d. ground (arith, e, d))
        (λ t. (v.each i m g).in_turn (ground (arith, e))) (λ t. absurd (ground (arith, t)))
        (λ t. absurd (ground (arith, t, e))) (λ t. absurd (ground (arith, t))) v
  Step-Inv {w} (wakes i m g e) v =
      moves-Inv workers outcome w i m leaving g (λ d. ground (arith, e, d))
        (λ t. (v.each i m g).in_turn (ground (arith, e))) (λ t. absurd (ground (arith, t)))
        (λ t. absurd (ground (arith, t, e))) (λ t. absurd (ground (arith, t))) v
  Step-Inv {w} (wakes_last i m g e) v =
      moves-Inv workers outcome w i m leaving_last g (λ d. ground (arith, e, d))
        (λ t. (v.each i m g).in_turn (ground (arith, e)))
        (λ t. (v.each i m g).took (ground (arith, e))) (λ t. refl)
        (λ t. (v.each i m g).passed (ground (arith, e))) v

  pub Reach-Inv_run : {w : World A} → Reach workers outcome w → Inv workers outcome w
  Reach-Inv_run begin = record {
    size = refl;
    born = refl;
    stores = tt;
    sent = refl;
    running = λ r. absurd (ground (arith, r));
    left = λ l. absurd (ground (arith, l));
    each = λ i m g. absurd (none-ne-some _ g);
  }
  Reach-Inv_run (later r st) = Step-Inv st (Reach-Inv_run r)
