-- ===== src/Sync/Mpsc.antt =====
-- The channel without a bound of src/sync/mpsc.rs. The channel of the standard library inside it is
-- its queue and the number of its senders, and works in one step; the lock of the wait list may be
-- held across steps. `strong` is the strong count of the wait list, which every sender and the
-- receiver hold.
pub mod World
pub mod Delivery
mod Tests
use coio_rs.Base.{ℕ, ◌+◌, ◌-◌, Option, none, some, List, [], ◌∷◌, ◌++◌, leb, ◌==◌, if◌then◌else◌}
use coio_rs.Sync.Semaphore.{Handle}

pub record Channel (A : Type 0) : Type 0 where
  pub queue : List A
  pub senders : ℕ
  pub wait_list : List Handle
  pub strong : ℕ

unfoldable pub channel : {A : Type 0} → Channel A
channel = record { queue = []; senders = 1; wait_list = []; strong = 2 }

-- `Clone` of a sender.
unfoldable pub clone : {A : Type 0} → Channel A → Channel A
clone c = record c { senders = c.senders + 1; strong = c.strong + 1 }

-- `send` while there is a receiver, up to the lock.
unfoldable pub send_inner : {A : Type 0} → A → Channel A → Channel A
send_inner x c = record c { queue = c.queue ++ (x ∷ []) }

-- The rest of `send`, behind the lock, with the coroutine that is made ready.
unfoldable pub send_wake : {A : Type 0} → Channel A → Option Handle × Channel A
send_wake c = elim c.wait_list [
  | [] ↦ (none, c)
  | h ∷ rest ↦ (some h, record c { wait_list = rest })
]

-- The drop of a sender: the inner sender, the wake-up, and the count.
unfoldable pub drop_inner : {A : Type 0} → Channel A → Channel A
drop_inner c = record c { senders = c.senders - 1 }

unfoldable pub drop_wake : {A : Type 0} → Channel A → List Handle × Channel A
drop_wake c = if leb c.strong 2 then (c.wait_list, record c { wait_list = [] }) else ([], c)

unfoldable pub drop_count : {A : Type 0} → Channel A → Channel A
drop_count c = record c { strong = c.strong - 1 }

pub data TryRecv (A : Type 0) : Type 0 where
  received : A → TryRecv A
  empty disconnected : TryRecv A

unfoldable pub try_recv : {A : Type 0} → Channel A → TryRecv A × Channel A
try_recv c = elim c.queue [
  | x ∷ rest ↦ (received x, record c { queue = rest })
  | [] ↦ if c.senders == 0 then (disconnected, c) else (empty, c)
]

-- Where the receiver is in `recv`, on a processor: at its loop's first receive, in front of the lock in
-- the callback, behind the second receive with the lock, or parked.
pub data Receiver : Type 0 where
  receiving parking holding_lock parked closed : Receiver

-- Steps 1 and 2.
unfoldable pub recv_first : {A : Type 0} → Channel A → (Receiver × Option A) × Channel A
recv_first c =
    let r = try_recv c in
    elim (r.0) [
      | received x ↦ ((receiving, some x), r.1)
      | empty ↦ ((parking, none), r.1)
      | disconnected ↦ ((closed, none), r.1)
    ]

-- Steps 3 and 4; with a result, also 5.2 and 6.
unfoldable pub recv_again : {A : Type 0} → Channel A → (Receiver × Option A) × Channel A
recv_again c =
    let r = try_recv c in
    elim (r.0) [
      | received x ↦ ((receiving, some x), r.1)
      | empty ↦ ((holding_lock, none), r.1)
      | disconnected ↦ ((closed, none), r.1)
    ]

-- Step 5.1, which gives the lock back.
unfoldable pub recv_push : {A : Type 0} → Handle → Channel A → Channel A
recv_push coro c = record c { wait_list = c.wait_list ++ (coro ∷ []) }
