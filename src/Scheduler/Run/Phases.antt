-- ===== src/Scheduler/Run/Phases.antt =====
-- What holds between the steps of `Scheduler::run` of src/scheduler.rs.
use coio_rs.Base.{
  ℕ, zero, suc, ◌≤◌, ◌≡◌, inl, inr, refl, Bool, true, false, Option, some, List, [], ◌∷◌, arith,
  ltb, length, get_elem?, set_at, Bool-cases,
}
use mathlib.Core.Option.{none-ne-some}
use coio_rs.Scheduler.Run.{
  Caller, pushing, spawning, at_start, looping, sending, stopping, locking, notifying, joining,
  returned, Place, spawned, at_start_barrier, scheduling, running_main, parking, waiting, leaving,
  locked_at_barrier, waiting_last, leaving_last, at_shutdown_barrier, finishing, ended, Machine,
  MainCoro, unborn, queued, running, stored, finished, World, shut_down, all_of, caller_started,
}

abbrev pub Sized : ℕ → Caller → ℕ → Type 0
Sized workers pushing n = n ≡ 0
Sized workers (spawning k) n = (n ≡ k) × (k ≤ workers)
Sized workers at_start n = n ≡ workers
Sized workers looping n = n ≡ workers
Sized workers (sending k) n = n ≡ workers
Sized workers stopping n = n ≡ workers
Sized workers locking n = n ≡ workers
Sized workers notifying n = n ≡ workers
Sized workers (joining k) n = n ≡ workers
Sized workers returned n = n ≡ workers

abbrev pub is_pushing : Caller → Bool
is_pushing pushing = true
is_pushing (spawning k) = false
is_pushing at_start = false
is_pushing looping = false
is_pushing (sending k) = false
is_pushing stopping = false
is_pushing locking = false
is_pushing notifying = false
is_pushing (joining k) = false
is_pushing returned = false

abbrev pub left_loop : Caller → Bool
left_loop pushing = false
left_loop (spawning k) = false
left_loop at_start = false
left_loop looping = false
left_loop (sending k) = true
left_loop stopping = true
left_loop locking = true
left_loop notifying = true
left_loop (joining k) = true
left_loop returned = true

-- Whether the message was sent to a processor, and whether its thread was joined.
abbrev pub mailed : Caller → ℕ → Bool
mailed pushing i = false
mailed (spawning k) i = false
mailed at_start i = false
mailed looping i = false
mailed (sending k) i = ltb i k
mailed stopping i = true
mailed locking i = true
mailed notifying i = true
mailed (joining k) i = true
mailed returned i = true

abbrev pub joined : Caller → ℕ → Bool
joined pushing i = false
joined (spawning k) i = false
joined at_start i = false
joined looping i = false
joined (sending k) i = false
joined stopping i = false
joined locking i = false
joined notifying i = false
joined (joining k) i = ltb i k
joined returned i = true

abbrev pub left_start : Place → Bool
left_start spawned = false
left_start at_start_barrier = false
left_start scheduling = true
left_start running_main = true
left_start parking = true
left_start waiting = true
left_start leaving = true
left_start locked_at_barrier = true
left_start waiting_last = true
left_start leaving_last = true
left_start at_shutdown_barrier = true
left_start finishing = true
left_start ended = true

abbrev pub left_shutdown : Place → Bool
left_shutdown spawned = false
left_shutdown at_start_barrier = false
left_shutdown scheduling = false
left_shutdown running_main = false
left_shutdown parking = false
left_shutdown waiting = false
left_shutdown leaving = false
left_shutdown locked_at_barrier = false
left_shutdown waiting_last = true
left_shutdown leaving_last = true
left_shutdown at_shutdown_barrier = false
left_shutdown finishing = true
left_shutdown ended = true

abbrev pub Stores {ℓ} : {A : Type ℓ} → A → MainCoro → Option A → Type ℓ
Stores outcome unborn r = Unit
Stores outcome queued r = Unit
Stores outcome running r = Unit
Stores outcome stored r = r ≡ some outcome
Stores outcome finished r = r ≡ some outcome

abbrev pub is_unborn : MainCoro → Bool
is_unborn unborn = true
is_unborn queued = false
is_unborn running = false
is_unborn stored = false
is_unborn finished = false

abbrev pub is_finished : MainCoro → Bool
is_finished unborn = false
is_finished queued = false
is_finished running = false
is_finished stored = false
is_finished finished = true

-- What holds of the processor of number `i`.
pub record MachineInv (c : Caller) (ms : List Machine) (i : ℕ) (m : Machine) : Type 0 where
  pub mails : m.mail ≡ mailed c i
  pub in_turn : left_start m.place ≡ true → caller_started c ≡ true
  pub took : shut_down m.place ≡ true → m.mail ≡ true
  pub passed : left_shutdown m.place ≡ true → all_of shut_down ms ≡ true
  pub done : joined c i ≡ true → m.place ≡ ended

pub record Inv {A : Type 0} (workers : ℕ) (outcome : A) (w : World A) : Type 0 where
  pub size : Sized workers w.caller (length w.machines)
  pub born : is_unborn w.main_coro ≡ is_pushing w.caller
  pub stores : Stores outcome w.main_coro w.result
  pub sent : w.shutdown_sent ≡ is_finished w.main_coro
  pub running : w.is_running ≡ false → w.shutdown_sent ≡ true
  pub left : left_loop w.caller ≡ true → w.is_running ≡ false
  pub each :
      (i : ℕ) (m : Machine) → get_elem? w.machines i ≡ some m → MachineInv w.caller w.machines i m

pub all_of-get :
    (f : Place → Bool) (ms : List Machine) (i : ℕ) (m : Machine)
    → all_of f ms ≡ true
    → get_elem? ms i ≡ some m
    → f m.place ≡ true
unfolding all_of
all_of-get f [] i m e g = absurd (none-ne-some _ g)
all_of-get f (x ∷ ms) zero m e g = ground (arith, e, g)
all_of-get f (x ∷ ms) (suc i) m e g = all_of-get f ms i m (ground (arith, e)) g

pub all_of-set_at :
    (f : Place → Bool) (ms : List Machine) (i : ℕ) (m : Machine)
    → all_of f ms ≡ true
    → f m.place ≡ true
    → all_of f (set_at i m ms) ≡ true
unfolding all_of
all_of-set_at f [] i m e g = refl
all_of-set_at f (x ∷ ms) zero m e g = ground (arith, e, g)
all_of-set_at f (x ∷ ms) (suc i) m e g =
    let rest = all_of-set_at f ms i m (ground (arith, e)) g in ground (arith, e, rest)

pub all_of-false :
    (f : Place → Bool) (ms : List Machine)
    → all_of f ms ≡ false
    → (i : ℕ) × (m : Machine) × (get_elem? ms i ≡ some m) × (f m.place ≡ false)
unfolding all_of
all_of-false f [] e = absurd (ground (arith, e))
all_of-false f (x ∷ ms) e = elim (Bool-cases (f x.place)) [
  | inr h ↦ (0, x, refl, h)
  | inl h ↦ let (i, m, g, k) = all_of-false f ms (ground (arith, e, h)) in (suc i, m, g, k)
]
