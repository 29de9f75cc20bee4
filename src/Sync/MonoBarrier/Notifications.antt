-- ===== src/Sync/MonoBarrier/Notifications.antt =====
-- One executor that waits and any number that notify, on a `MonoBarrier` of src/sync/mono_barrier.rs, where
-- the condition variable may wake a thread for no reason.
use coio_rs.Base.{◌≡◌, ◌⊎◌, refl, inl, inr, Bool, true, false, Option, none, some, arith}
use coio_rs.Sync.Semaphore.{Handle}
use coio_rs.Sync.MonoBarrier.{
  State, empty, ready, thread, coroutine, Wait, returns_ok, parks, blocks, returns_err, new,
  wait_round, wait, Woken, no_one, one_thread, one_coroutine, notify,
}

-- Where the executor that waits is: outside of `wait`, parked as a coroutine, on the condition
-- variable, taken off it by `notify_one` but not yet behind the lock again, or with an error.
pub data Waiter : Type 0 where
  outside on_cond off_cond failed : Waiter
  parked_as : Handle → Waiter

-- `pending` is the specification: a notification that no `wait` has used yet. `spurious` is set when
-- the condition variable has woken a thread for no reason.
pub record World : Type 0 where
  pub state : State
  pub waiter : Waiter
  pub pending : Bool
  pub spurious : Bool

abbrev pub world : State → Waiter → Bool → Bool → World
world s w p u = record { state = s; waiter = w; pending = p; spurious = u }

abbrev pub after_wait : Bool → Bool → Option Handle → Wait × State → World
after_wait p u caller (returns_ok, s) = world s outside false u
after_wait p u none (parks, s) = world s failed p u
after_wait p u (some coro) (parks, s) = world s (parked_as coro) p u
after_wait p u caller (blocks, s) = world s on_cond p u
after_wait p u caller (returns_err e, s) = world s failed p u

-- Who `notify_one` takes off the condition variable, if anyone is on it.
abbrev pub off : Waiter → Waiter
off on_cond = off_cond
off outside = outside
off off_cond = off_cond
off failed = failed
off (parked_as coro) = parked_as coro

-- A coroutine that is made ready returns from `wait` with the notification.
abbrev pub after_notify : Waiter → Bool → Woken × State → World
after_notify w u (no_one, s) = world s w true u
after_notify w u (one_thread, s) = world s (off w) true u
after_notify w u (one_coroutine h, s) = world s outside false u

-- An executor with an error may wait again.
pub data Step (s : World) : World → Type 0 where
  waits :
      (caller : Option Handle)
      → (s.waiter ≡ outside) ⊎ (s.waiter ≡ failed)
      → Step s (after_wait s.pending s.spurious caller (wait false caller s.state))
  wakes :
      s.waiter ≡ off_cond → Step s (after_wait s.pending s.spurious none (wait_round none s.state))
  wakes_early :
      s.waiter ≡ on_cond → Step s (after_wait s.pending true none (wait_round none s.state))
  notifies : Step s (after_notify s.waiter s.spurious (notify s.state))

pub data Reach : World → Type 0 where
  begin : Reach (world new outside false false)
  later : {s t : World} → Reach s → Step s t → Reach t

-- An error that a wake-up for no reason explains.
abbrev pub FailedEarly : World → Type 0
FailedEarly s = (s.waiter ≡ failed) × (s.spurious ≡ true)

-- Which waiters go with a state and a notification.
abbrev pub Agrees : World → Type 0
Agrees s = elim s.state [
  | empty ↦ ((s.waiter ≡ outside) ⊎ FailedEarly s) × (s.pending ≡ false)
  | ready ↦ ((s.waiter ≡ outside) ⊎ ((s.waiter ≡ off_cond) ⊎ FailedEarly s)) × (s.pending ≡ true)
  | thread ↦ ((s.waiter ≡ on_cond) ⊎ FailedEarly s) × (s.pending ≡ false)
  | coroutine coro ↦ (s.waiter ≡ parked_as coro) × (s.pending ≡ false)
]

wait-Agrees :
    (st : State) (w : Waiter) (p u : Bool) (caller : Option Handle)
    → (w ≡ outside) ⊎ (w ≡ failed)
    → Agrees (world st w p u)
    → Agrees (after_wait p u caller (wait false caller st))
unfolding wait wait_round
wait-Agrees empty w p u none e v = (inl refl, v.1)
wait-Agrees empty w p u (some c) e v = (refl, v.1)
wait-Agrees ready w p u none e v = (inl refl, refl)
wait-Agrees ready w p u (some c) e v = (inl refl, refl)
wait-Agrees thread w p u none e v = ground arith
wait-Agrees thread w p u (some c) e v = ground arith
wait-Agrees (coroutine c) w p u caller e v = ground arith

wake-Agrees :
    (st : State) (w : Waiter) (p u : Bool)
    → w ≡ off_cond
    → Agrees (world st w p u)
    → Agrees (after_wait p u none (wait_round none st))
unfolding wait_round
wake-Agrees empty w p u e v = ground arith
wake-Agrees ready w p u e v = (inl refl, refl)
wake-Agrees thread w p u e v = ground arith
wake-Agrees (coroutine c) w p u e v = ground arith

wake_early-Agrees :
    (st : State) (w : Waiter) (p u : Bool)
    → w ≡ on_cond
    → Agrees (world st w p u)
    → Agrees (after_wait p true none (wait_round none st))
unfolding wait_round
wake_early-Agrees empty w p u e v = ground arith
wake_early-Agrees ready w p u e v = ground arith
wake_early-Agrees thread w p u e v = (inr (refl, refl), v.1)
wake_early-Agrees (coroutine c) w p u e v = ground arith

notify-Agrees :
    (st : State) (w : Waiter) (p u : Bool)
    → Agrees (world st w p u)
    → Agrees (after_notify w u (notify st))
unfolding notify
notify-Agrees empty w p u (inl o, e) = (inl o, refl)
notify-Agrees empty w p u (inr f, e) = (inr (inr f), refl)
notify-Agrees ready w p u v = (v.0, refl)
notify-Agrees thread w p u v = ground arith
notify-Agrees (coroutine c) w p u v = (inl refl, refl)

Step-Agrees : {s t : World} → Step s t → Agrees s → Agrees t
Step-Agrees {s} (waits caller e) v = wait-Agrees s.state s.waiter s.pending s.spurious caller e v
Step-Agrees {s} (wakes e) v = wake-Agrees s.state s.waiter s.pending s.spurious e v
Step-Agrees {s} (wakes_early e) v = wake_early-Agrees s.state s.waiter s.pending s.spurious e v
Step-Agrees {s} notifies v = notify-Agrees s.state s.waiter s.pending s.spurious v

-- MonoBarrier with one executor that waits, as a thread or as a coroutine, and may wait again
-- behind an error, any notifications, and a condition variable that may also wake a thread for no
-- reason: the barrier is ready exactly while a notification is unused; a coroutine is recorded
-- exactly while it is parked, and a thread on the condition variable is recorded; a thread is
-- recorded that is not there, and a wait fails, only behind a wake-up for no reason.
pub Reach-Agrees : {s : World} → Reach s → Agrees s
unfolding new
Reach-Agrees begin = (inl refl, refl)
Reach-Agrees (later r st) = Step-Agrees st (Reach-Agrees r)
