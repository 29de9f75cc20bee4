-- ===== src/Scheduler/ReadyStates/Tests.antt =====
-- A coroutine waits for data that arrives between the two steps of its wait.
use coio_rs.Base.{◌≡◌, ◌++◌, refl}
use coio_rs.Scheduler.ReadyStates.{
  ReadyType, readable, writable, error, hup, ReadyStates, new, wait, wait_parked, notify, same,
  returns, notify_one,
}
use coio_rs.Scheduler.ReadyStates.Notify.{notify_lem, Notified, found_at}
use coio_rs.Scheduler.ReadyStates.Events.{
  begin, later, waits, waits_parked, notifies, Awake, Reach-Awake,
}

abbrev data_came : ReadyStates
data_came = (notify (same readable) (wait readable new).1).1

Reach-Awake_example : Awake (wait_parked readable 7 data_came).1 readable
Reach-Awake_example = Reach-Awake readable (
    later (later (later begin (waits readable)) (notifies (same readable)))
      (waits_parked readable 7))

data_came_wait : (wait_parked readable 7 data_came).0 ≡ returns
unfolding wait_parked notify wait new notify_one
data_came_wait = refl

abbrev writer : ReadyStates
writer = (wait_parked writable 8 new).1

notify_lem_example :
    ((notify (same writable) writer).0
      ≡ ((found_at (same writable) writer readable ++ found_at (same writable) writer writable)
          ++ found_at (same writable) writer error)
        ++ found_at (same writable) writer hup)
    × ((t : ReadyType) → Notified (same writable) writer (notify (same writable) writer).1 t)
notify_lem_example = notify_lem (same writable) writer
