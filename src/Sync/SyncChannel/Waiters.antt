-- ===== src/Sync/SyncChannel/Waiters.antt =====
-- What the places of the receiver and of the senders say of the wait lists of a bounded channel of
-- src/sync/mpsc.rs.
use coio_rs.Base.{ℕ, ◌+◌, ◌<◌, ◌≤◌, ◌≡◌, ◌⊎◌, Bool, true, false, [], ◌∷◌, ◌++◌, length, not}
use coio_rs.Sync.Semaphore.{Handle}
use coio_rs.Sync.SyncChannel.World.{
  SendLock, saw_full, has_sent, Receiver, saw_empty, parked, took, took_locked, closed, dropping,
  gone, World,
}

-- Senders that are about to wake the receiver, with the lock.
abbrev pub wakers : {A : Type 0} → SendLock A → ℕ
wakers has_sent = 1
wakers l = 0

-- Senders that are about to be parked.
abbrev pub parkers : {A : Type 0} → SendLock A → ℕ
parkers saw_full = 1
parkers l = 0

-- Receivers that are about to wake a sender.
abbrev pub owed : Receiver → ℕ
owed took = 1
owed took_locked = 1
owed r = 0

-- Whether the receiver is parked, or is about to be.
abbrev pub is_waiting : Receiver → Bool
is_waiting saw_empty = true
is_waiting parked = true
is_waiting r = false

abbrev pub is_parked : Receiver → Bool
is_parked parked = true
is_parked r = false

abbrev pub is_closed : Receiver → Bool
is_closed closed = true
is_closed r = false

abbrev pub is_gone : Receiver → Bool
is_gone gone = true
is_gone r = false

abbrev pub is_dropped : Receiver → Bool
is_dropped dropping = true
is_dropped gone = true
is_dropped r = false

abbrev pub waiting : {A : Type 0} → World A → ℕ
waiting s = length s.chan.send_wait_list + parkers s.send_lock

-- The receiver's wait list holds it alone, exactly while it is parked.
abbrev pub Listed : {A : Type 0} → World A → Type 0
Listed s =
    (s.chan.recv_wait_list ≡ []) × (is_parked s.receiver ≡ false)
    ⊎ ((h : Handle) × (s.chan.recv_wait_list ≡ h ∷ []) × (is_parked s.receiver ≡ true))

-- While the receiver waits, the queue is empty or a sender is about to wake it.
abbrev pub Expects : {A : Type 0} → World A → Type 0
Expects s =
    (is_waiting s.receiver ≡ false) ⊎ ((s.chan.queue ≡ []) ⊎ (0 < s.notifying + wakers s.send_lock))

-- While a sender waits, every place in the queue is taken or promised: to a sender that was woken, or
-- by the receiver, which is about to wake one. In its drop the receiver is about to wake all.
abbrev pub Promised : {A : Type 0} → World A → Type 0
Promised s =
    (is_dropped s.receiver ≡ true)
    ⊎ ((waiting s ≡ 0) ⊎ (s.chan.bound ≤ length s.chan.queue + owed s.receiver + s.woken))

-- `recv` fails only with nobody to send and nothing to receive.
abbrev pub Ends : {A : Type 0} → World A → Type 0
Ends s = (is_closed s.receiver ≡ false) ⊎ ((s.chan.senders ≡ 0) × (s.chan.queue ≡ []))

-- When the receiver is gone, no sender waits.
abbrev pub Leaves : {A : Type 0} → World A → Type 0
Leaves s =
    (s.chan.receiver_alive ≡ not (is_dropped s.receiver))
    × ((is_gone s.receiver ≡ false) ⊎ (waiting s ≡ 0))

pub record Serves {A : Type 0} (bound : ℕ) (s : World A) : Type 0 where
  pub in_order : s.sent_log ≡ s.received_log ++ s.chan.queue
  pub same_bound : s.chan.bound ≡ bound
  pub within : length s.chan.queue ≤ bound
  pub listed : Listed s
  pub expects : Expects s
  pub promised : Promised s
  pub ends : Ends s
  pub leaves : Leaves s
