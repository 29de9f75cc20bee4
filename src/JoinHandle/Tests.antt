-- ===== src/JoinHandle/Tests.antt =====
-- A coroutine waits for a result; a thread is woken for no reason while it waits for one.
use coio_rs.Base.{ℕ, ◌≡◌, refl, true, false, some, none}
use coio_rs.JoinHandle.{handle_pair, push_write, push_notify, pop, pop_resume, pop_take, pop_waited}
use coio_rs.JoinHandle.Exchange.{
  World, unsent, panicked, after_pop, after_notify, got, Exchanges, begin, later, writes, notifies,
  pops, resumes, Reach-Exchanges,
}
use coio_rs.Sync.MonoBarrier.{wait, wait_round, notify, new}

abbrev parked : World ℕ
parked = after_pop (some 64) unsent false (pop (some 64) handle_pair)

abbrev notified : World ℕ
notified = after_notify parked.receiver false (push_notify (push_write 5 parked.inner))

abbrev received : World ℕ
received = after_pop (some 64) notified.sender false (pop_resume (some 64) notified.inner)

received_5 : received.receiver ≡ got 5
unfolding pop pop_resume pop_take pop_waited wait wait_round notify new handle_pair push_write
    push_notify
received_5 = refl

Reach-Exchanges_example : Exchanges 5 received
unfolding pop pop_resume pop_take pop_waited wait wait_round notify new handle_pair push_write
    push_notify
Reach-Exchanges_example = Reach-Exchanges 5 (
    later (later (later (later begin (pops (some 64) refl)) (writes refl)) (notifies refl))
      (resumes 64 refl))

abbrev blocked : World ℕ
blocked = after_pop none unsent false (pop none handle_pair)

abbrev woken_early : World ℕ
woken_early = after_pop none blocked.sender true (pop_resume none blocked.inner)

woken_early_panics : woken_early.receiver ≡ panicked
unfolding pop pop_resume pop_waited wait wait_round new handle_pair
woken_early_panics = refl
