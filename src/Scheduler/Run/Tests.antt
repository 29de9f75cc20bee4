-- ===== src/Scheduler/Run/Tests.antt =====
-- One processor, from the first push to the result.
use coio_rs.Base.{ℕ, ◌≡◌, refl, true, false, some}
use coio_rs.Scheduler.Run.{
  parking, waiting, fetch_main, shut, notify_all, wake, woken, looping, sending, joining, returned,
  Place, at_start_barrier, scheduling, at_shutdown_barrier, finishing, ended, Machine, World, fresh,
  calls, moves, push_main, spawn_machine, run_main, send_shutdown, run_once, send_to, stop,
}

abbrev machine : Place → Machine
machine p = record { place = p; mail = false }

abbrev mailed_machine : Place → Machine
mailed_machine p = record { place = p; mail = true }

-- The processor has begun and the caller runs the event loop.
abbrev up : World ℕ
unfolding push_main spawn_machine
up =
    calls
      (moves
        (moves (spawn_machine 1 1 (spawn_machine 1 0 (push_main fresh))) 0 at_start_barrier false) 0
        scheduling false)
      looping

-- The processor parks, finds the main coroutine and ends it, and the event loop has stopped.
abbrev over : World ℕ
unfolding run_once send_shutdown run_main fetch_main
over =
    calls
      (run_once
        (send_shutdown 0 false (run_main 7 (fetch_main 0 false (moves up 0 parking false)))))
      (sending 0)

-- It waits at the condition variable, is notified, and takes the message.
abbrev down : World ℕ
unfolding send_to shut stop notify_all
down =
    let asleep : World ℕ = moves (moves over 0 parking false) 0 waiting false in
    moves (moves (notify_all (stop (shut (send_to 1 (send_to 0 asleep))))) 0 scheduling true) 0
      at_shutdown_barrier true

abbrev through : World ℕ
through = calls (calls (moves (moves down 0 finishing true) 0 ended true) (joining 1)) returned

gives : through.result ≡ some 7
unfolding run_once send_shutdown run_main fetch_main push_main spawn_machine send_to shut stop
    notify_all wake woken
gives = refl
