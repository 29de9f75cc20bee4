-- ===== src/Scheduler/ReadyStates/Events.antt =====
-- Coroutines that wait for events, and the event loop that notifies, on one `ReadyStates` of
-- src/scheduler.rs.
use coio_rs.Base.{◌≡◌, ◌⊎◌, refl, inl, inr, ap, Bool, false, none, arith}
use coio_rs.Sync.Semaphore.{Handle}
use coio_rs.Scheduler.ReadyStates.{
  ReadyType, readable, writable, error, hup, same, ReadyStates, new, wait, wait_parked, notify,
}
use coio_rs.Scheduler.ReadyStates.Notify.{notify_lem}

-- A coroutine waits in two steps, and anything may come between them.
pub data Step (s : ReadyStates) : ReadyStates → Type 0 where
  waits : (t : ReadyType) → Step s (wait t s).1
  waits_parked : (t : ReadyType) (coro : Handle) → Step s (wait_parked t coro s).1
  notifies : (event_set : ReadyType → Bool) → Step s (notify event_set s).1

pub data Reach : ReadyStates → Type 0 where
  begin : Reach new
  later : {s t : ReadyStates} → Reach s → Step s t → Reach t

-- No coroutine stands in a slot whose event is set.
abbrev pub Awake : ReadyStates → ReadyType → Type 0
Awake s u = (s.events u ≡ false) ⊎ (s.handles u ≡ none)

wait-Awake : (t u : ReadyType) (s : ReadyStates) → Awake s u → Awake (wait t s).1 u
unfolding wait
wait-Awake t u s v = ground arith

same_cases : (t u : ReadyType) → (t ≡ u) ⊎ (same t u ≡ false)
same_cases readable readable = inl refl
same_cases readable writable = inr refl
same_cases readable error = inr refl
same_cases readable hup = inr refl
same_cases writable readable = inr refl
same_cases writable writable = inl refl
same_cases writable error = inr refl
same_cases writable hup = inr refl
same_cases error readable = inr refl
same_cases error writable = inr refl
same_cases error error = inl refl
same_cases error hup = inr refl
same_cases hup readable = inr refl
same_cases hup writable = inr refl
same_cases hup error = inr refl
same_cases hup hup = inl refl

wait_parked-Awake :
    (t u : ReadyType) (coro : Handle) (s : ReadyStates)
    → (t ≡ u) ⊎ (same t u ≡ false)
    → Awake s u
    → Awake (wait_parked t coro s).1 u
unfolding wait_parked
wait_parked-Awake t u coro s (inl e) v = ground (arith, ap s.events e)
wait_parked-Awake t u coro s (inr e) v = ground arith

notify-Awake :
    (event_set : ReadyType → Bool) (u : ReadyType) (s : ReadyStates)
    → Awake s u
    → Awake (notify event_set s).1 u
notify-Awake event_set u s v = ground (arith, (notify_lem event_set s).1 u)

-- Whatever coroutines wait for and whatever events come, in any order, also between the two steps of a
-- wait: no coroutine stands in a slot whose event is set, so that no event is missed.
pub Reach-Awake : {s : ReadyStates} (u : ReadyType) → Reach s → Awake s u
unfolding new
Reach-Awake u begin = inl refl
Reach-Awake u (later {s} r (waits t)) = wait-Awake t u s (Reach-Awake u r)
Reach-Awake u (later {s} r (waits_parked t coro)) =
    wait_parked-Awake t u coro s (same_cases t u) (Reach-Awake u r)
Reach-Awake u (later {s} r (notifies event_set)) = notify-Awake event_set u s (Reach-Awake u r)
