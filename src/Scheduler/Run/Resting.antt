-- ===== src/Scheduler/Run/Resting.antt =====
-- The steps of `Scheduler::run` of src/scheduler.rs keep who parks and who has the idle mutex and the main
-- coroutine.
use coio_rs.Base.{
  ℕ, ◌+◌, ◌≡◌, inl, inr, refl, sym, ap, ◌∙◌, subst, Bool, true, false, some, ltb, arith, length,
  get_elem?, set_at, get_elem?-lt, get_elem?-set_at_same, Bool-cases, Option-cases,
}
use coio_rs.Scheduler.Run.{
  Caller, MainCoro, pushing, spawning, at_start, sending, stopping, locking, notifying, joining,
  Place, scheduling, running_main, Machine, queued, running, stored, finished, World, unlocked,
  woken, caller_started, moves, push_main, spawn_machine, mutex_free, fetch_main, run_main,
  send_shutdown, send_to, shut, stop, notify_all,
}
use coio_rs.Scheduler.Run.Phases.{Sized, left_start, left_loop, Inv, all_of-get}
use coio_rs.Scheduler.Run.Calls.{get_elem?-wake}
use coio_rs.Scheduler.Run.Parked.{
  rests, at_condvar, has_main, is_queued, on_processor, sets_flag, notified_all, PlaceInv, Rests,
  get_elem?-replaced, replaces-Rests, calls-Rests, spawned-Rests,
}

module _ {A : Type 0} (workers : ℕ) (outcome : A) where
  pub pushes-Rests :
      (w : World A) → w.caller ≡ pushing → Inv workers outcome w → Rests w → Rests (push_main w)
  unfolding push_main
  pushes-Rests w e v r =
      let empty : length w.machines ≡ 0 =
        subst (λ c. Sized workers c (length w.machines)) e v.size in
      record {
        flag = r.flag ∙ ap sets_flag e;
        main = λ t. absurd (ground (arith, t));
        places = λ i m g. absurd (omega (arith, get_elem?-lt w.machines i m g, empty));
      }

  pub spawns-Rests :
      (w : World A) (k : ℕ)
      → w.caller ≡ spawning k
      → Inv workers outcome w
      → Rests w
      → Rests (spawn_machine workers k w)
  unfolding spawn_machine caller_started
  spawns-Rests w k e v r = elim (Bool-cases (ltb k workers)) [
    | inr ge ↦
        rw ge (calls-Rests w at_start (sym (ap sets_flag e)) (λ t. absurd (ground (arith, t))) r)
    | inl lt ↦ elim (Bool-cases (on_processor w.main_coro)) [
      | inr off ↦ rw lt (spawned-Rests w k e off r)
      | inl on ↦
          let (i, m, g, h, _) = r.main on in
          let begun : left_start m.place ≡ true = ground (arith, h) in
          absurd (ground (arith, (v.each i m g).in_turn begun, e))
    ]
  ]

  pub sends-Rests : (w : World A) (k : ℕ) → w.caller ≡ sending k → Rests w → Rests (send_to k w)
  unfolding send_to
  sends-Rests w k e r = elim (Option-cases (get_elem? w.machines k)) [
    | inl out ↦
        rw (send_to, out)
          (calls-Rests w stopping (sym (ap sets_flag e)) (λ t. absurd (ground (arith, t))) r)
    | inr (m, g) ↦
        let m' : Machine = record { place = m.place; mail = true } in
        rw (send_to, g)
          (calls-Rests (record w { machines = set_at k m' w.machines }) (sending (k + 1))
            (sym (ap sets_flag e)) (λ t. absurd (ground (arith, t)))
            (replaces-Rests w k m m' g refl (r.places k m g) r))
  ]

  pub shuts-Rests : (w : World A) → w.caller ≡ stopping → Rests w → Rests (shut w)
  unfolding shut
  shuts-Rests w e r = record {
    flag = r.flag ∙ ap sets_flag e;
    main = r.main;
    places = λ i m g.
        let u = r.places i m g in
        record {
          idle = u.idle;
          runs = u.runs;
          free = u.free;
          woken_up = λ t. absurd (ground (arith, t));
        };
  }

  pub stops-Rests :
      (w : World A) → w.caller ≡ locking → mutex_free w ≡ true → Rests w → Rests (stop w)
  unfolding stop mutex_free
  stops-Rests w e o r = record {
    flag = refl;
    main = r.main;
    places = λ i m g.
        let u = r.places i m g in
        record {
          idle = u.idle;
          runs = u.runs;
          free = λ t. all_of-get unlocked w.machines i m o g;
          woken_up = λ t. absurd (ground (arith, t));
        };
  }

  woken-PlaceInv :
      (c : Caller) (mc : MainCoro) (s : Bool) (p : Place)
      → PlaceInv c mc s p
      → PlaceInv (joining 0) mc s (woken p)
  unfolding woken unlocked
  woken-PlaceInv c mc s p u = record {
    idle = λ t. u.idle (ground (arith, t));
    runs = λ t. u.runs (ground (arith, t));
    free = λ t. ground (arith, u.free t);
    woken_up = λ t. ground arith;
  }

  woken-has_main : (p : Place) → has_main (woken p) ≡ has_main p
  unfolding woken
  woken-has_main p = ground arith

  -- The main coroutine is finished by then.
  pub notifies-Rests :
      (w : World A)
      → w.caller ≡ notifying
      → on_processor w.main_coro ≡ false
      → Rests w
      → Rests (notify_all w)
  unfolding notify_all
  notifies-Rests w e off r = record {
    flag = r.flag ∙ ap sets_flag e;
    main = λ t. absurd (ground (arith, t, off));
    places = λ i n f.
        let (m, g, is_n) = get_elem?-wake w.machines i n f in
        subst (λ y. PlaceInv (joining 0) w.main_coro w.stopped (y.place)) is_n
          (woken-PlaceInv w.caller w.main_coro w.stopped m.place (r.places i m g));
  }

  -- No other processor has the main coroutine.
  pub fetch_main-Rests :
      (w : World A) (i : ℕ) (m : Machine)
      → get_elem? w.machines i ≡ some m
      → w.main_coro ≡ queued
      → Rests w
      → Rests (fetch_main i m.mail w)
  unfolding fetch_main unlocked
  fetch_main-Rests w i m g e r =
      let m' : Machine = record { place = running_main; mail = m.mail } in
      let nobody : (j : ℕ) (n : Machine)
          → get_elem? w.machines j ≡ some n
          → has_main n.place ≡ true
          → ⊥ =
        λ j n f t. ground (arith, (r.places j n f).runs t, e) in
      record {
        flag = r.flag;
        main = λ t. (
          i,
          m',
          get_elem?-set_at_same i m' m w.machines g,
          refl,
          λ j n f t. elim (get_elem?-replaced i j m m' n w.machines g f) [
            | inl (same, _) ↦ same
            | inr (_, f') ↦ absurd (nobody j n f' t)
          ],
        );
        places = λ j n f. elim (get_elem?-replaced i j m m' n w.machines g f) [
          | inl (_, is_n) ↦
              subst (λ y. PlaceInv w.caller running w.stopped (y.place)) is_n
                (record {
                  idle = λ t. refl;
                  runs = λ t. refl;
                  free = λ t. refl;
                  woken_up = λ t. refl;
                })
          | inr (_, f') ↦
              let u = r.places j n f' in
              record { idle = λ t. refl; runs = λ t. refl; free = u.free; woken_up = u.woken_up }
        ];
      }

  pub run_main-Rests : (w : World A) → w.main_coro ≡ running → Rests w → Rests (run_main outcome w)
  unfolding run_main
  run_main-Rests w e r = record {
    flag = r.flag;
    main = λ t. r.main (ap on_processor e);
    places = λ i m g.
        let u = r.places i m g in
        record { idle = λ t. refl; runs = λ t. refl; free = u.free; woken_up = u.woken_up };
  }

  pub send_shutdown-Rests :
      (w : World A) (i : ℕ) (m : Machine)
      → get_elem? w.machines i ≡ some m
      → m.place ≡ running_main
      → w.main_coro ≡ stored
      → Rests w
      → Rests (send_shutdown i m.mail w)
  unfolding send_shutdown unlocked
  send_shutdown-Rests w i m g here e r =
      let m' : Machine = record { place = scheduling; mail = m.mail } in
      let (a, x, h, _, only) = r.main (ap on_processor e) in
      let is_a : i ≡ a = only i m g (ap has_main here) in
      record {
        flag = r.flag;
        main = λ t. absurd (ground (arith, t));
        places = λ j n f. elim (get_elem?-replaced i j m m' n w.machines g f) [
          | inl (_, is_n) ↦
              subst (λ y. PlaceInv w.caller finished w.stopped (y.place)) is_n
                (record {
                  idle = λ t. refl;
                  runs = λ t. absurd (ground (arith, t));
                  free = λ t. refl;
                  woken_up = λ t. refl;
                })
          | inr (other, f') ↦
              let u = r.places j n f' in
              record {
                idle = λ t. refl;
                runs = λ t. absurd (other (only j n f' t ∙ sym is_a));
                free = u.free;
                woken_up = u.woken_up;
              }
        ];
      }

  -- A processor goes on without the main coroutine.
  pub moves-Rests :
      (w : World A) (i : ℕ) (m : Machine) (p : Place)
      → get_elem? w.machines i ≡ some m
      → has_main p ≡ has_main m.place
      → (rests p ≡ true → is_queued w.main_coro ≡ false)
      → has_main p ≡ false
      → (w.stopped ≡ true → unlocked p ≡ true)
      → (notified_all w.caller ≡ true → at_condvar p ≡ false)
      → Rests w
      → Rests (moves w i p m.mail)
  moves-Rests w i m p g same idle none_there free woken_up r =
      replaces-Rests w i m (record { place = p; mail = m.mail }) g same
        (record {
          idle = idle;
          runs = λ t. absurd (ground (arith, t, none_there));
          free = free;
          woken_up = woken_up;
        })
        r

  -- Before the flag is set nobody was notified of it.
  pub unnotified : (w : World A) → w.stopped ≡ false → Rests w → notified_all w.caller ≡ true → ⊥
  unnotified w e r t = ground (arith, r.flag)

  pub gone :
      (w : World A)
      → w.caller ≡ notifying
      → Inv workers outcome w
      → on_processor w.main_coro ≡ false
  gone w e v = ground (arith, v.left (ap left_loop e), v.running, v.sent)
