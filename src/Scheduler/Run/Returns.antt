-- ===== src/Scheduler/Run/Returns.antt =====
-- `Scheduler::run` of src/scheduler.rs comes to its end.
use coio_rs.Base.{ℕ, ◌<◌, ◌≡◌, ◌⊎◌, Bool, true, false, some}
use coio_rs.Scheduler.Run.{
  returned, Place, running_main, parking, waiting, leaving, locked_at_barrier, waiting_last,
  leaving_last, Work, spawned, at_start_barrier, scheduling, at_shutdown_barrier, finishing, ended,
  World, all_of,
}
use coio_rs.Scheduler.Run.Measure.{left_of}
use coio_rs.Scheduler.Run.Progress.{Stuck}

abbrev pub is_ended : Place → Bool
is_ended spawned = false
is_ended at_start_barrier = false
is_ended scheduling = false
is_ended running_main = false
is_ended parking = false
is_ended waiting = false
is_ended leaving = false
is_ended locked_at_barrier = false
is_ended waiting_last = false
is_ended leaving_last = false
is_ended at_shutdown_barrier = false
is_ended finishing = false
is_ended ended = true

-- What `run` must have done when it returns.
abbrev pub Returned : {A : Type 0} → A → World A → Type 0
Returned outcome w =
    (w.caller ≡ returned) × (w.result ≡ some outcome) × (all_of is_ended w.machines ≡ true)

module _ {A : Type 0} (workers : ℕ) (outcome : A) where
  -- `run` has returned, or a step to the end is possible, which leaves fewer to do, or it is stuck.
  abbrev pub Runs : World A → Type 0
  Runs w =
      Returned outcome w
      ⊎ (((w' : World A) × Work workers outcome w w' × (left_of workers w' < left_of workers w))
          ⊎ Stuck w)
