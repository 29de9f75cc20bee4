-- ===== src/Sync/SyncChannel/World.antt =====
-- One receiver and any number of senders at a bounded channel of src/sync/mpsc.rs, in every order of
-- their steps. A step
-- that takes a lock waits until it is free; a sender that is in `send` is not dropped.
use coio_rs.Base.{
  ℕ, ◌+◌, ◌-◌, ◌<◌, ◌≡◌, ◌⊎◌, Bool, true, false, Option, none, some, List, [], ◌∷◌, ◌++◌,
}
use coio_rs.Sync.Semaphore.{Handle}
use coio_rs.Sync.SyncChannel.{
  SyncChannel, sync_channel, TrySend, sent, full, disconnected, inner_try_send, wake_receiver,
  send_push, TryRecv, received, empty, hung_up, inner_try_recv, wake_sender, recv_push, clone,
  drop_sender, drop_sender_wake, drop_sender_count, drop_receiver, drop_receiver_wake,
}

-- The lock of the senders' wait list: free, or held by a sender in the callback of `send`, which is
-- about to try again, has found the queue full, or has sent and is about to wake the receiver.
pub data SendLock (A : Type 0) : Type 0 where
  free saw_full has_sent : SendLock A
  trying : A → SendLock A

-- Where the receiver is: in front of the first inner `try_recv` of `recv` or `try_recv`, or outside; in front of
-- the lock in the callback; with the lock, in front of the second inner `try_recv`; behind that, with
-- the queue found empty; parked; behind an inner `try_recv` that received, without or with the lock;
-- with an error; in the drop, or gone.
pub data Receiver : Type 0 where
  receiving parking trying_again saw_empty parked took took_locked closed dropping gone : Receiver

-- `notifying` senders have sent and are about to wake the receiver, `woken` senders were made ready and
-- are about to try again.
pub record World (A : Type 0) : Type 0 where
  pub chan : SyncChannel A
  pub send_lock : SendLock A
  pub receiver : Receiver
  pub notifying : ℕ
  pub woken : ℕ
  pub sent_log : List A
  pub received_log : List A

abbrev pub start : {A : Type 0} → ℕ → World A
start bound = record {
  chan = sync_channel bound;
  send_lock = free;
  receiver = receiving;
  notifying = 0;
  woken = 0;
  sent_log = [];
  received_log = [];
}

-- Whether the receiver holds the lock of its own wait list.
abbrev pub locks : Receiver → Bool
locks trying_again = true
locks saw_empty = true
locks took_locked = true
locks r = false

abbrev pub is_free : {A : Type 0} → SendLock A → Bool
is_free free = true
is_free l = false

-- `send` or `try_send` of a sender without a lock; `was_woken` is 1 for one that was woken.
abbrev pub after_send : {A : Type 0} → World A → A → ℕ → TrySend × SyncChannel A → World A
after_send s x was_woken (sent, c) = record s {
  chan = c;
  notifying = s.notifying + 1;
  woken = s.woken - was_woken;
  sent_log = s.sent_log ++ (x ∷ []);
}
after_send s x was_woken (full, c) = record s { chan = c; woken = s.woken - was_woken }
after_send s x was_woken (disconnected, c) = record s { chan = c; woken = s.woken - was_woken }

-- The second try, in the callback.
abbrev pub after_try : {A : Type 0} → World A → A → TrySend × SyncChannel A → World A
after_try s x (sent, c) = record s {
  chan = c;
  send_lock = has_sent;
  sent_log = s.sent_log ++ (x ∷ []);
}
after_try s x (full, c) = record s { chan = c; send_lock = saw_full }
after_try s x (disconnected, c) = record s { chan = c; send_lock = free }

-- The receiver's coroutine is the only one in its wait list; made ready, it is in its loop again.
abbrev pub after_wake : {A : Type 0} → World A → Option Handle × SyncChannel A → World A
after_wake s (none, c) = record s { chan = c }
after_wake s (some h, c) = record s { chan = c; receiver = receiving }

-- An inner `try_recv` with what comes next in each case.
abbrev pub after_recv :
    {A : Type 0} → World A → Receiver → Receiver → TryRecv A × SyncChannel A → World A
after_recv s got none_there (received x, c) = record s {
  chan = c;
  receiver = got;
  received_log = s.received_log ++ (x ∷ []);
}
after_recv s got none_there (empty, c) = record s { chan = c; receiver = none_there }
after_recv s got none_there (hung_up, c) = record s { chan = c; receiver = closed }

abbrev pub after_wake_sender : {A : Type 0} → World A → Option Handle × SyncChannel A → World A
after_wake_sender s (none, c) = record s { chan = c; receiver = receiving }
after_wake_sender s (some h, c) = record s { chan = c; receiver = receiving; woken = s.woken + 1 }

abbrev pub after_drop : {A : Type 0} → World A → List Handle × SyncChannel A → World A
after_drop s ([], c) = record s { chan = c }
after_drop s ((h ∷ hs), c) = record s { chan = c; receiver = receiving }

pub data SenderStep {A : Type 0} (s : World A) : World A → Type 0 where
  sends : (x : A) → 0 < s.chan.senders → SenderStep s (after_send s x 0 (inner_try_send x s.chan))
  sends_again :
      (x : A)
      → 0 < s.chan.senders
      → 0 < s.woken
      → SenderStep s (after_send s x 1 (inner_try_send x s.chan))
  locks_list :
      (x : A)
      → 0 < s.chan.senders
      → is_free s.send_lock ≡ true
      → SenderStep s (record s { send_lock = trying x })
  tries_again :
      (x : A)
      → 0 < s.chan.senders
      → s.send_lock ≡ trying x
      → SenderStep s (after_try s x (inner_try_send x s.chan))
  parks :
      (coro : Handle)
      → s.send_lock ≡ saw_full
      → SenderStep s (record s { chan = send_push coro s.chan; send_lock = free })
  wakes :
      0 < s.notifying
      → locks s.receiver ≡ false
      → SenderStep s (after_wake (record s { notifying = s.notifying - 1 }) (wake_receiver s.chan))
  wakes_locked :
      s.send_lock ≡ has_sent
      → locks s.receiver ≡ false
      → SenderStep s (after_wake (record s { send_lock = free }) (wake_receiver s.chan))
  clones : 0 < s.chan.senders → SenderStep s (record s { chan = clone s.chan })
  drops : 0 < s.chan.senders → SenderStep s (record s { chan = drop_sender s.chan })
  drops_wake : locks s.receiver ≡ false → SenderStep s (after_drop s (drop_sender_wake s.chan))
  drops_count : SenderStep s (record s { chan = drop_sender_count s.chan })

pub data ReceiverStep {A : Type 0} (s : World A) : World A → Type 0 where
  receives :
      s.receiver ≡ receiving → ReceiverStep s (after_recv s took parking (inner_try_recv s.chan))
  locks_list : s.receiver ≡ parking → ReceiverStep s (record s { receiver = trying_again })
  tries_again :
      s.receiver ≡ trying_again
      → ReceiverStep s (after_recv s took_locked saw_empty (inner_try_recv s.chan))
  parks :
      (coro : Handle)
      → s.receiver ≡ saw_empty
      → ReceiverStep s (record s { chan = recv_push coro s.chan; receiver = parked })
  wakes :
      (s.receiver ≡ took) ⊎ (s.receiver ≡ took_locked)
      → is_free s.send_lock ≡ true
      → ReceiverStep s (after_wake_sender s (wake_sender s.chan))
  polls :
      s.receiver ≡ receiving → ReceiverStep s (after_recv s took receiving (inner_try_recv s.chan))
  drops :
      (s.receiver ≡ receiving) ⊎ (s.receiver ≡ closed)
      → ReceiverStep s (record s { chan = drop_receiver s.chan; receiver = dropping })
  drops_wake :
      s.receiver ≡ dropping
      → is_free s.send_lock ≡ true
      → ReceiverStep s (record s { chan = (drop_receiver_wake s.chan).1; receiver = gone })

pub data Reach {A : Type 0} (bound : ℕ) : World A → Type 0 where
  begin : Reach bound (start bound)
  sender : {s t : World A} → Reach bound s → SenderStep s t → Reach bound t
  receiver : {s t : World A} → Reach bound s → ReceiverStep s t → Reach bound t
