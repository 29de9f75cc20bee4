-- ===== src/Sync/Mpsc/World.antt =====
-- A channel of src/sync/mpsc.rs with one receiver, any number of senders, and what they may do.
use coio_rs.Base.{
  ℕ, ◌+◌, ◌-◌, ◌<◌, ◌≡◌, ◌⊎◌, Bool, true, false, Option, none, some, List, [], ◌∷◌, ◌++◌,
}
use coio_rs.Sync.Semaphore.{Handle}
use coio_rs.Sync.Mpsc.{
  Channel, channel, clone, send_inner, send_wake, drop_inner, drop_wake, drop_count, Receiver,
  receiving, parking, holding_lock, parked, closed, recv_first, recv_again, recv_push,
}

-- A channel, where its receiver is, the senders in front of the lock in `send`, the values sent so far,
-- those received so far, and the result of the last receive.
pub record World (A : Type 0) : Type 0 where
  pub chan : Channel A
  pub receiver : Receiver
  pub notifying : ℕ
  pub sent_log : List A
  pub received_log : List A

abbrev pub start : {A : Type 0} → World A
start = record {
  chan = channel;
  receiver = receiving;
  notifying = 0;
  sent_log = [];
  received_log = [];
}

abbrev pub after_recv : {A : Type 0} → World A → (Receiver × Option A) × Channel A → World A
after_recv s ((r, none), c) = record s { chan = c; receiver = r }
after_recv s ((r, some x), c) = record s {
  chan = c;
  receiver = r;
  received_log = s.received_log ++ (x ∷ []);
}

-- The receiver's coroutine is the only one that the wait list holds; made ready, it goes on with step 6
-- and the loop.
abbrev pub after_wake : {A : Type 0} → World A → Option Handle × Channel A → World A
after_wake s (none, c) = record s { chan = c; notifying = s.notifying - 1 }
after_wake s (some h, c) = record s { chan = c; notifying = s.notifying - 1; receiver = receiving }

abbrev pub after_drop : {A : Type 0} → World A → List Handle × Channel A → World A
after_drop s ([], c) = record s { chan = c }
after_drop s ((h ∷ hs), c) = record s { chan = c; receiver = receiving }

-- Whether the receiver holds the lock of the wait list.
abbrev pub locks : Receiver → Bool
locks holding_lock = true
locks r = false

pub data Step {A : Type 0} (s : World A) : World A → Type 0 where
  clones : 0 < s.chan.senders → Step s (record s { chan = clone s.chan })
  sends :
      (x : A)
      → 0 < s.chan.senders
      → Step s (record s {
        chan = send_inner x s.chan;
        notifying = s.notifying + 1;
        sent_log = s.sent_log ++ (x ∷ []);
      })
  wakes : 0 < s.notifying → locks s.receiver ≡ false → Step s (after_wake s (send_wake s.chan))
  drops_inner : 0 < s.chan.senders → Step s (record s { chan = drop_inner s.chan })
  drops_wake : locks s.receiver ≡ false → Step s (after_drop s (drop_wake s.chan))
  drops_count : Step s (record s { chan = drop_count s.chan })
  receives : s.receiver ≡ receiving → Step s (after_recv s (recv_first s.chan))
  receives_again : s.receiver ≡ parking → Step s (after_recv s (recv_again s.chan))
  parks :
      (coro : Handle)
      → s.receiver ≡ holding_lock
      → Step s (record s { chan = recv_push coro s.chan; receiver = parked })

pub data Reach {A : Type 0} : World A → Type 0 where
  begin : Reach start
  later : {s t : World A} → Reach s → Step s t → Reach t

-- What goes with the place where the receiver is.
abbrev pub Placed : {A : Type 0} → Channel A → Receiver → ℕ → Type 0
Placed c receiving n = c.wait_list ≡ []
Placed c parking n = c.wait_list ≡ []
Placed c holding_lock n = (c.wait_list ≡ []) × ((c.queue ≡ []) ⊎ (0 < n))
Placed c parked n = (h : Handle) × (c.wait_list ≡ h ∷ []) × ((c.queue ≡ []) ⊎ (0 < n))
Placed c closed n = (c.wait_list ≡ []) × (c.senders ≡ 0) × (c.queue ≡ [])

pub record Delivers {A : Type 0} (s : World A) : Type 0 where
  pub in_order : s.sent_log ≡ s.received_log ++ s.chan.queue
  pub placed : Placed s.chan s.receiver s.notifying
