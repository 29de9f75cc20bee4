-- ===== src/Sync/MonoBarrier/Tests.antt =====
-- Barriers at work: a thread that waits before it is notified, one that wakes for no reason, and a
-- coroutine that waits while two threads notify.
use coio_rs.Base.{◌≡◌, inl, inr, refl, arith, true, false, some, none}
use coio_rs.Sync.MonoBarrier.{thread, wait_round, wait, notify, new, returns_err, occupied}
use coio_rs.Sync.MonoBarrier.Notifications.{
  World, Agrees, Reach, begin, later, waits, wakes_early, notifies, Reach-Agrees, after_wait,
  after_notify,
}
use coio_rs.Sync.MonoBarrier.Notifications as N
use coio_rs.Sync.MonoBarrier.Coro as C
use coio_rs.Sync.MonoBarrier.Coro.Wakeups as W

abbrev waiting : World
waiting = after_wait false false none (wait false none new)

abbrev notified : World
notified = after_notify waiting.waiter waiting.spurious (notify waiting.state)

notified_off_cond : notified.waiter ≡ N.off_cond
unfolding wait wait_round notify new
notified_off_cond = refl

-- The thread is woken for no reason, fails, and waits again.
abbrev early : World
early = after_wait false true none (wait_round none waiting.state)

abbrev again : World
again = after_wait early.pending early.spurious none (wait false none early.state)

early_failed : early.waiter ≡ N.failed
unfolding wait wait_round new
early_failed = refl

Reach-Agrees_example : Agrees (after_notify again.waiter again.spurious (notify again.state))
unfolding wait wait_round notify new
Reach-Agrees_example = Reach-Agrees (
    later
      (later (later (later begin (waits none (inl refl))) (wakes_early refl))
        (waits none (inr refl)))
      notifies)

-- The thread that wakes for no reason finds itself.
wait-spurious : wait_round none (wait false none new).1 ≡ (returns_err occupied, thread)
unfolding wait wait_round new
wait-spurious = refl

abbrev asked : W.World
asked = W.after_wait false (C.wait_begin (some 64) C.new)

abbrev notified_early : W.World
notified_early = W.after_notify asked (C.notify_round 0 asked.lock)

abbrev found_ready : W.World
found_ready = W.after_wait notified_early.pending (C.wait_empty 64 notified_early.lock)

abbrev through : W.World
through = W.after_wait found_ready.pending (C.wait_ready 64 found_ready.lock)

Reach-Fits_example : W.Fits through
unfolding C.wait_begin C.notify_round C.wait_empty C.wait_ready C.new
Reach-Fits_example = W.Reach-Fits (
    W.later
      (W.later (W.later (W.later W.begin (W.begins 64 (omega arith) refl)) (W.notifies 0))
        (W.tries_empty 64 refl))
      (W.tries_ready 64 refl))

notify_round-retry_example :
    ((C.notify_round 0 64).0 ≡ C.retry 64)
    × (C.notify_round 64 (C.notify_round 0 64).1 ≡ (C.wakes_up 64, 0))
unfolding C.notify_round
notify_round-retry_example = (refl, refl)
