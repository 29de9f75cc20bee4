-- ===== src/Sync/MonoBarrier/Coro/Wakeups.antt =====
-- One coroutine after the other waits at a `CoroMonoBarrier` of src/sync/mono_barrier.rs, and any
-- number of threads notify at once. A notifier's next guess is what it found last; here it may be any
-- number, which allows for more than the code does.
use coio_rs.Base.{ℕ, ◌<◌, ◌≡◌, ◌⊎◌, refl, inl, Bool, true, false, some, arith, ltb, if◌then◌else◌}
use coio_rs.Sync.MonoBarrier.Coro.{
  Waiting, at_empty, at_ready, in_lock, result_ok, result_err, wait_begin, wait_empty, wait_ready,
  Notifying, retry, done, wakes_up, notify_round, new,
}

-- `pending` is the specification: a notification that no `wait` has used yet.
pub record World : Type 0 where
  pub lock : ℕ
  pub waiter : Waiting
  pub pending : Bool

abbrev pub world : ℕ → Waiting → Bool → World
world l w p = record { lock = l; waiter = w; pending = p }

abbrev pub after_wait : Bool → Waiting × ℕ → World
after_wait p (result_ok, l) = world l result_ok false
after_wait p (w, l) = world l w p

-- The coroutine that is made ready returns from `wait` with the notification.
abbrev pub after_notify : World → Notifying × ℕ → World
after_notify s (retry guess, l) = record s { lock = l }
after_notify s (done, l) = record s { lock = l; pending = true }
after_notify s (wakes_up coro, l) = record s { lock = l; waiter = result_ok }

-- The address of a coroutine is above 1.
pub data Step (s : World) : World → Type 0 where
  begins :
      (coro : ℕ)
      → 1 < coro
      → s.waiter ≡ result_ok
      → Step s (after_wait s.pending (wait_begin (some coro) s.lock))
  tries_empty :
      (coro : ℕ) → s.waiter ≡ at_empty coro → Step s (after_wait s.pending (wait_empty coro s.lock))
  tries_ready :
      (coro : ℕ) → s.waiter ≡ at_ready coro → Step s (after_wait s.pending (wait_ready coro s.lock))
  notifies : (current : ℕ) → Step s (after_notify s (notify_round current s.lock))

pub data Reach : World → Type 0 where
  begin : Reach (world new result_ok false)
  later : {s t : World} → Reach s → Step s t → Reach t

-- Which words and notifications go with a waiter.
abbrev pub Fits : World → Type 0
Fits s = elim s.waiter [
  | result_ok ↦ ((s.lock ≡ 0) × (s.pending ≡ false)) ⊎ ((s.lock ≡ 1) × (s.pending ≡ true))
  | at_empty coro ↦
      (1 < coro) × (((s.lock ≡ 0) × (s.pending ≡ false)) ⊎ ((s.lock ≡ 1) × (s.pending ≡ true)))
  | at_ready coro ↦ (1 < coro) × (s.lock ≡ 1) × (s.pending ≡ true)
  | in_lock coro ↦ (1 < coro) × (s.lock ≡ coro) × (s.pending ≡ false)
  | result_err e ↦ false ≡ true
]

wait_begin-Fits :
    (coro : ℕ) (s : World)
    → 1 < coro
    → s.waiter ≡ result_ok
    → Fits s
    → Fits (after_wait s.pending (wait_begin (some coro) s.lock))
unfolding wait_begin
wait_begin-Fits coro s big e v = ground arith

wait_empty-Fits :
    (coro : ℕ) (s : World)
    → s.waiter ≡ at_empty coro
    → Fits s
    → Fits (after_wait s.pending (wait_empty coro s.lock))
unfolding wait_empty
wait_empty-Fits coro s e v = ground arith

wait_ready-Fits :
    (coro : ℕ) (s : World)
    → s.waiter ≡ at_ready coro
    → Fits s
    → Fits (after_wait s.pending (wait_ready coro s.lock))
unfolding wait_ready
wait_ready-Fits coro s e v = ground arith

notify_round-Fits :
    (current l : ℕ) (w : Waiting) (p : Bool)
    → Fits (world l w p)
    → Fits (after_notify (world l w p) (notify_round current l))
unfolding notify_round
notify_round-Fits current l result_ok p v = ground arith
notify_round-Fits current l (at_empty coro) p v = ground arith
notify_round-Fits current l (at_ready coro) p v = ground arith
notify_round-Fits current l (in_lock coro) p v = ground arith
notify_round-Fits current l (result_err e) p v = ground arith

Step-Fits : {s t : World} → Step s t → Fits s → Fits t
Step-Fits {s} (begins coro big e) v = wait_begin-Fits coro s big e v
Step-Fits {s} (tries_empty coro e) v = wait_empty-Fits coro s e v
Step-Fits {s} (tries_ready coro e) v = wait_ready-Fits coro s e v
Step-Fits {s} (notifies current) v = notify_round-Fits current s.lock s.waiter s.pending v

-- With one coroutine that waits at a time, in every interleaving with notifiers: the word is 1 exactly
-- while there is a notification that no wait has used; a coroutine that is parked for good stands in
-- the word, with no such notification; in front of the second compare-and-swap the word is 1, so that
-- the loop ends there; and no wait fails.
pub Reach-Fits : {s : World} → Reach s → Fits s
unfolding new
Reach-Fits begin = inl (refl, refl)
Reach-Fits (later r st) = Step-Fits st (Reach-Fits r)

-- A round of `notify` that finds the word as it was in the round before ends: a word that is 0 or 1
-- becomes 1, and from any other the coroutine there is made ready and the word becomes 0.
pub notify_round-retry :
    (current lock : ℕ)
    → ((notify_round current lock).0 ≡ retry lock)
        × (notify_round lock (notify_round current lock).1
            ≡ (if ltb 1 lock then (wakes_up lock, 0) else (done, 1)))
      ⊎ ((current ≡ lock)
          × (notify_round current lock ≡ (if ltb 1 lock then (wakes_up lock, 0) else (done, 1))))
unfolding notify_round
notify_round-retry current lock = ground arith
