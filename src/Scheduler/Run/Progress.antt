-- ===== src/Scheduler/Run/Progress.antt =====
-- How the processors of `Scheduler::run` of src/scheduler.rs come to the main coroutine and to the barrier of the
-- message.
use coio_rs.Base.{
  ℕ, suc, ◌<◌, ◌≡◌, ◌⊎◌, inl, inr, refl, sym, ap, ◌∙◌, subst, Bool, true, false, some, List, [],
  ◌∷◌, arith, length, get_elem?, Bool-cases,
}
use coio_rs.Scheduler.Run.{
  looping, locking, Place, running_main, parking, waiting, leaving, locked_at_barrier, waiting_last,
  leaving_last, unlocked, mutex_free, running, Work, fetches_main, finds_main, spawned,
  at_start_barrier, scheduling, at_shutdown_barrier, finishing, ended, Machine, MainCoro, unborn,
  queued, stored, finished, World, started, shut_down, all_of, caller_started, start_open, loops,
  leaves, arrives, begins, runs_main, sends_shutdown, receives,
}
use coio_rs.Base.{get_elem?_below}
use coio_rs.Scheduler.Run.Phases.{Sized, mailed, is_finished, Inv, all_of-false}
use coio_rs.Scheduler.Run.Parked.{has_main, on_processor, sets_flag, Rests}

-- Some step to the end is possible.
abbrev pub Goes : {A : Type 0} → ℕ → A → World A → Type 0
Goes {A} workers outcome w = (w' : World A) × Work workers outcome w w'

-- The caller is in front of the idle mutex, which a processor has that waits at the barrier for another
-- one, and that one is in front of the mutex too, or at the condition variable.
abbrev pub held_back : Place → Bool
held_back spawned = false
held_back at_start_barrier = false
held_back scheduling = false
held_back running_main = false
held_back parking = true
held_back waiting = true
held_back leaving = true
held_back at_shutdown_barrier = false
held_back locked_at_barrier = false
held_back waiting_last = false
held_back leaving_last = false
held_back finishing = false
held_back ended = false

abbrev pub Stuck : {A : Type 0} → World A → Type 0
Stuck w =
    (w.caller ≡ locking)
    × ((i : ℕ) × (m : Machine) × (get_elem? w.machines i ≡ some m) × (m.place ≡ locked_at_barrier))
    × ((j : ℕ) × (n : Machine) × (get_elem? w.machines j ≡ some n) × (held_back n.place ≡ true))

pub all_of-true :
    (f : Place → Bool) (ms : List Machine)
    → ((i : ℕ) (m : Machine) → get_elem? ms i ≡ some m → f m.place ≡ true)
    → all_of f ms ≡ true
unfolding all_of
all_of-true f [] each = refl
all_of-true f (x ∷ ms) each =
    let rest = all_of-true f ms (λ i m g. each (suc i) m g) in ground (arith, each 0 x refl, rest)

not_started : (p : Place) → started p ≡ false → p ≡ spawned
unfolding started
not_started p e = ground arith

module _ {A : Type 0} (workers : ℕ) (outcome : A) where
  -- Somebody gets to the first barrier, or it is open.
  pub at_start-Goes :
      (w : World A)
      → caller_started w.caller ≡ true
      → Goes workers outcome w ⊎ (start_open w ≡ true)
  unfolding start_open
  at_start-Goes w on = elim (Bool-cases (all_of started w.machines)) [
    | inl e ↦ inr (ground (arith, e, on))
    | inr e ↦
        let (i, m, g, f) = all_of-false started w.machines e in
        inl (_, arrives i m g (not_started m.place f))
  ]

  -- A processor that has its message, and is not held back, goes on to the barrier of the message.
  pub mailed-Goes :
      (w : World A) (i : ℕ) (m : Machine) (p : Place)
      → caller_started w.caller ≡ true
      → get_elem? w.machines i ≡ some m
      → m.place ≡ p
      → shut_down p ≡ false
      → m.mail ≡ true
      → on_processor w.main_coro ≡ false
      → Rests w
      → Goes workers outcome w ⊎ (held_back p ≡ true)
  unfolding shut_down
  mailed-Goes w i m spawned on g e f b off r = inl (_, arrives i m g e)
  mailed-Goes w i m at_start_barrier on g e f b off r = elim (at_start-Goes w on) [
    | inl s ↦ inl s
    | inr o ↦ inl (_, begins i m g e o)
  ]
  mailed-Goes w i m scheduling on g e f b off r = inl (_, receives i m g e b)
  mailed-Goes w i m running_main on g e f b off r =
      absurd (ground (arith, (r.places i m g).runs, e, off))
  mailed-Goes w i m parking on g e f b off r = inr refl
  mailed-Goes w i m waiting on g e f b off r = inr refl
  mailed-Goes w i m leaving on g e f b off r = inr refl
  mailed-Goes w i m at_shutdown_barrier on g e f b off r = absurd (ground (arith, f))
  mailed-Goes w i m locked_at_barrier on g e f b off r = absurd (ground (arith, f))
  mailed-Goes w i m waiting_last on g e f b off r = absurd (ground (arith, f))
  mailed-Goes w i m leaving_last on g e f b off r = absurd (ground (arith, f))
  mailed-Goes w i m finishing on g e f b off r = absurd (ground (arith, f))
  mailed-Goes w i m ended on g e f b off r = absurd (ground (arith, f))

  -- Before messages are sent nobody is at their barrier, and the mutex is free.
  unmailed-free : (w : World A) → w.caller ≡ looping → Inv workers outcome w → mutex_free w ≡ true
  unfolding mutex_free unlocked shut_down
  unmailed-free w e v = all_of-true unlocked w.machines λ i m g.
      let u = v.each i m g in
      let unmailed : m.mail ≡ false = u.mails ∙ ap (λ c. mailed c i) e in
      ground (arith, u.took, unmailed)

  -- The main coroutine in the queue is fetched by a processor that comes there.
  queued-Goes :
      (w : World A) (m : Machine) (p : Place)
      → w.caller ≡ looping
      → get_elem? w.machines 0 ≡ some m
      → m.place ≡ p
      → m.mail ≡ false
      → w.main_coro ≡ queued
      → Inv workers outcome w
      → Rests w
      → Goes workers outcome w
  unfolding caller_started shut_down
  queued-Goes w m spawned c g e b q v r = (_, arrives 0 m g e)
  queued-Goes w m at_start_barrier c g e b q v r = elim (at_start-Goes w (ap caller_started c)) [
    | inl s ↦ s
    | inr o ↦ (_, begins 0 m g e o)
  ]
  queued-Goes w m scheduling c g e b q v r = (_, fetches_main 0 m g e q)
  queued-Goes w m running_main c g e b q v r = absurd (ground (arith, (r.places 0 m g).runs, e, q))
  queued-Goes w m parking c g e b q v r =
      (_, finds_main 0 m g e (unmailed-free w c v) (r.flag ∙ ap sets_flag c) b q)
  queued-Goes w m waiting c g e b q v r = absurd (ground (arith, (r.places 0 m g).idle, e, q))
  queued-Goes w m leaving c g e b q v r = absurd (ground (arith, (r.places 0 m g).idle, e, q))
  queued-Goes w m at_shutdown_barrier c g e b q v r =
      absurd (ground (arith, (v.each 0 m g).took, e, b))
  queued-Goes w m locked_at_barrier c g e b q v r =
      absurd (ground (arith, (v.each 0 m g).took, e, b))
  queued-Goes w m waiting_last c g e b q v r = absurd (ground (arith, (v.each 0 m g).took, e, b))
  queued-Goes w m leaving_last c g e b q v r = absurd (ground (arith, (v.each 0 m g).took, e, b))
  queued-Goes w m finishing c g e b q v r = absurd (ground (arith, (v.each 0 m g).took, e, b))
  queued-Goes w m ended c g e b q v r = absurd (ground (arith, (v.each 0 m g).took, e, b))

  has_main-running_main : (p : Place) → has_main p ≡ true → p ≡ running_main
  has_main-running_main p t = ground arith

  main-Goes :
      (w : World A) (c : MainCoro)
      → 0 < workers
      → w.caller ≡ looping
      → w.main_coro ≡ c
      → is_finished c ≡ false
      → Inv workers outcome w
      → Rests w
      → Goes workers outcome w
  main-Goes w unborn pos e f n v r = absurd (ground (arith, v.born, e, f))
  main-Goes w queued pos e f n v r =
      let size : length w.machines ≡ workers =
        subst (λ c. Sized workers c (length w.machines)) e v.size in
      let (m, g) = get_elem?_below 0 w.machines (omega (arith, size, pos)) in
      queued-Goes w m m.place e g refl ((v.each 0 m g).mails ∙ ap (λ c. mailed c 0) e) f v r
  main-Goes w running pos e f n v r =
      let (i, m, g, h, _) = r.main (ap on_processor f) in
      (_, runs_main i m g (has_main-running_main m.place h) f)
  main-Goes w stored pos e f n v r =
      let (i, m, g, h, _) = r.main (ap on_processor f) in
      (_, sends_shutdown i m g (has_main-running_main m.place h) f)
  main-Goes w finished pos e f n v r = absurd (ground (arith, n))

  -- While the event loop runs, the main coroutine is on its way.
  pub looping-Goes :
      (w : World A)
      → 0 < workers
      → w.caller ≡ looping
      → Inv workers outcome w
      → Rests w
      → Goes workers outcome w
  looping-Goes w pos e v r = elim (Bool-cases w.is_running) [
    | inr off ↦ (_, leaves e off)
    | inl on ↦ elim (Bool-cases w.shutdown_sent) [
      | inl sent ↦ (_, loops e on sent)
      | inr unsent ↦ main-Goes w w.main_coro pos e refl (sym v.sent ∙ unsent) v r
    ]
  ]
