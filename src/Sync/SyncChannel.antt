-- ===== src/Sync/SyncChannel.antt =====
-- The bounded channel of src/sync/mpsc.rs. The channel of the standard library inside it is its queue,
-- the bound, and who is left at its ends, and works in one step; as it is documented, what is in the
-- queue is received also when no sender is left, whatever the note at `sync_channel` says of an older
-- one. There are two wait lists, and the lock of each may be held across steps. A bound of 0, with
-- which the inner channel hands values over directly, is left out: here nothing is sent then.
pub mod World
pub mod Waiters
pub mod Delivery
mod Tests
use coio_rs.Base.{
  ℕ, ◌+◌, ◌-◌, Bool, true, false, Option, none, some, List, [], ◌∷◌, ◌++◌, length, ltb, leb, ◌==◌,
  if◌then◌else◌,
}
use coio_rs.Sync.Semaphore.{Handle}

pub record SyncChannel (A : Type 0) : Type 0 where
  pub queue : List A
  pub bound : ℕ
  pub senders : ℕ
  pub receiver_alive : Bool
  pub send_wait_list : List Handle
  pub recv_wait_list : List Handle
  pub strong : ℕ

unfoldable pub sync_channel : {A : Type 0} → ℕ → SyncChannel A
sync_channel bound = record {
  queue = [];
  bound = bound;
  senders = 1;
  receiver_alive = true;
  send_wait_list = [];
  recv_wait_list = [];
  strong = 2;
}

-- The inner `try_send`. A value that was not sent stays with the caller.
pub data TrySend : Type 0 where
  sent full disconnected : TrySend

unfoldable pub inner_try_send : {A : Type 0} → A → SyncChannel A → TrySend × SyncChannel A
inner_try_send x c =
    if c.receiver_alive
    then if ltb (length c.queue) c.bound
      then (sent, record c { queue = c.queue ++ (x ∷ []) })
      else (full, c)
    else (disconnected, c)

-- What `try_send` does behind the inner one, if that sent: it pops from the receivers that wait. The
-- coroutine is made ready.
unfoldable pub wake_receiver : {A : Type 0} → SyncChannel A → Option Handle × SyncChannel A
wake_receiver c = elim c.recv_wait_list [
  | [] ↦ (none, c)
  | h ∷ rest ↦ (some h, record c { recv_wait_list = rest })
]

-- The callback of `send` behind an inner `try_send` that found the queue full.
unfoldable pub send_push : {A : Type 0} → Handle → SyncChannel A → SyncChannel A
send_push coro c = record c { send_wait_list = c.send_wait_list ++ (coro ∷ []) }

pub data TryRecv (A : Type 0) : Type 0 where
  received : A → TryRecv A
  empty hung_up : TryRecv A

-- The inner `try_recv`.
unfoldable pub inner_try_recv : {A : Type 0} → SyncChannel A → TryRecv A × SyncChannel A
inner_try_recv c = elim c.queue [
  | x ∷ rest ↦ (received x, record c { queue = rest })
  | [] ↦ if c.senders == 0 then (hung_up, c) else (empty, c)
]

-- What `try_recv` does behind the inner one, if that received.
unfoldable pub wake_sender : {A : Type 0} → SyncChannel A → Option Handle × SyncChannel A
wake_sender c = elim c.send_wait_list [
  | [] ↦ (none, c)
  | h ∷ rest ↦ (some h, record c { send_wait_list = rest })
]

-- The callback of `recv` behind an inner `try_recv` that found the queue empty.
unfoldable pub recv_push : {A : Type 0} → Handle → SyncChannel A → SyncChannel A
recv_push coro c = record c { recv_wait_list = c.recv_wait_list ++ (coro ∷ []) }

-- `Clone` of a sender.
unfoldable pub clone : {A : Type 0} → SyncChannel A → SyncChannel A
clone c = record c { senders = c.senders + 1; strong = c.strong + 1 }

-- The drop of a sender: the inner one, and the wake-up of the receiver if few are left.
unfoldable pub drop_sender : {A : Type 0} → SyncChannel A → SyncChannel A
drop_sender c = record c { senders = c.senders - 1 }

unfoldable pub drop_sender_wake : {A : Type 0} → SyncChannel A → List Handle × SyncChannel A
drop_sender_wake c =
    if leb c.strong 2 then (c.recv_wait_list, record c { recv_wait_list = [] }) else ([], c)

unfoldable pub drop_sender_count : {A : Type 0} → SyncChannel A → SyncChannel A
drop_sender_count c = record c { strong = c.strong - 1 }

-- The drop of the receiver: the inner one, and the wake-up of all senders.
unfoldable pub drop_receiver : {A : Type 0} → SyncChannel A → SyncChannel A
drop_receiver c = record c { receiver_alive = false }

unfoldable pub drop_receiver_wake : {A : Type 0} → SyncChannel A → List Handle × SyncChannel A
drop_receiver_wake c = (c.send_wait_list, record c { send_wait_list = [] })
