-- ===== src/Scheduler/ReadyStates.antt =====
-- `ReadyStates` of src/scheduler.rs. The spin lock is held through each of these steps; `wait` gives it
-- back between its own two.
pub mod Notify
pub mod Events
mod Tests
use coio_rs.Base.{ℕ, Bool, true, false, Option, none, some, List, [], ◌∷◌, ◌++◌, if◌then◌else◌}
use coio_rs.Sync.Semaphore.{Handle}

pub data ReadyType : Type 0 where
  readable writable error hup : ReadyType

abbrev pub same : ReadyType → ReadyType → Bool
same readable readable = true
same writable writable = true
same error error = true
same hup hup = true
same t u = false

-- The event set, and the array of handles that `ready_type as usize` indexes.
pub record ReadyStates : Type 0 where
  pub events : ReadyType → Bool
  pub handles : ReadyType → Option Handle

unfoldable pub new : ReadyStates
new = record { events = λ _. false; handles = λ _. none }

abbrev pub set_event : ReadyType → Bool → ReadyStates → ReadyStates
set_event t b s = record s { events = λ u. if same t u then b else s.events u }

abbrev pub set_handle : ReadyType → Option Handle → ReadyStates → ReadyStates
set_handle t h s = record s { handles = λ u. if same t u then h else s.handles u }

pub data Wait : Type 0 where
  returns parks : Wait

-- `wait` up to the callback of `park_with`.
unfoldable pub wait : ReadyType → ReadyStates → Wait × ReadyStates
wait t s = if s.events t then (returns, set_event t false s) else (parks, s)

-- The callback. A coroutine that `returns` here is made ready again.
unfoldable pub wait_parked : ReadyType → Handle → ReadyStates → Wait × ReadyStates
wait_parked t coro s =
    if s.events t then (returns, set_event t false s) else (parks, set_handle t (some coro) s)

unfoldable pub make_ready : ReadyType → ReadyStates → ReadyStates
make_ready t s = set_event t true s

-- A round of the loop of `notify`, with the handles that were written so far.
unfoldable pub notify_one :
    (ReadyType → Bool) → ReadyType → List Handle × ReadyStates → List Handle × ReadyStates
notify_one event_set t (found, s) =
    if event_set t
    then elim (s.handles t) [
      | some coro ↦ (found ++ (coro ∷ []), set_handle t none s)
      | none ↦ (found, set_event t true s)
    ]
    else (found, s)

unfoldable pub notify : (ReadyType → Bool) → ReadyStates → List Handle × ReadyStates
notify event_set s = notify_one event_set hup (
    notify_one event_set error
      (notify_one event_set writable (notify_one event_set readable ([], s))))
