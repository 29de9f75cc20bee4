-- ===== src/Sync/SyncChannel/Delivery.antt =====
-- What becomes of the values and of the waiting coroutines of a bounded channel of src/sync/mpsc.rs, in
-- every interleaving of the receiver and the senders.
use coio_rs.Base.{
  ℕ, ◌-◌, ◌<◌, ◌≤◌, ◌≡◌, ◌⊎◌, refl, inl, inr, true, false, List, [], ◌∷◌, arith, length-append,
}
use mathlib.Core.List.{append_assoc}
use coio_rs.Sync.Semaphore.{Handle}
use coio_rs.Sync.SyncChannel.{
  sync_channel, inner_try_send, wake_receiver, send_push, inner_try_recv, wake_sender, recv_push,
  clone, drop_sender, drop_sender_wake, drop_sender_count, drop_receiver, drop_receiver_wake,
}
use coio_rs.Sync.SyncChannel.World.{
  free, saw_full, has_sent, trying, Receiver, receiving, parking, trying_again, saw_empty, parked,
  took, took_locked, World, locks, is_free, after_send, after_try, after_wake, after_recv,
  after_wake_sender, after_drop,
}
use coio_rs.Sync.SyncChannel.World.{
  SenderStep, ReceiverStep, Reach, begin, sender, receiver, sends, sends_again, locks_list,
  tries_again, parks, wakes, wakes_locked, clones, drops, drops_wake, drops_count, receives, polls,
}
use coio_rs.Sync.SyncChannel.Waiters.{Serves}

sends-Serves :
    {A : Type 0} (bound : ℕ) (s : World A) (x : A) (was_woken : ℕ)
    → 0 < s.chan.senders
    → was_woken ≤ 1
    → Serves bound s
    → Serves bound (after_send s x was_woken (inner_try_send x s.chan))
unfolding inner_try_send
sends-Serves bound s x was_woken pos le v =
    ground (
      arith,
      append_assoc s.received_log s.chan.queue (x ∷ []),
      length-append s.chan.queue (x ∷ []),
    )

tries-Serves :
    {A : Type 0} (bound : ℕ) (s : World A) (x : A)
    → 0 < s.chan.senders
    → s.send_lock ≡ trying x
    → Serves bound s
    → Serves bound (after_try s x (inner_try_send x s.chan))
unfolding inner_try_send
tries-Serves bound s x pos e v =
    ground (
      arith,
      append_assoc s.received_log s.chan.queue (x ∷ []),
      length-append s.chan.queue (x ∷ []),
    )

parks_sender-Serves :
    {A : Type 0} (bound : ℕ) (s : World A) (coro : Handle)
    → s.send_lock ≡ saw_full
    → Serves bound s
    → Serves bound (record s { chan = send_push coro s.chan; send_lock = free })
unfolding send_push
parks_sender-Serves bound s coro e v =
    ground (arith, length-append s.chan.send_wait_list (coro ∷ []))

wakes-Serves :
    {A : Type 0} (bound : ℕ) (s : World A) (ws : List Handle)
    → s.chan.recv_wait_list ≡ ws
    → 0 < s.notifying
    → locks s.receiver ≡ false
    → Serves bound s
    → Serves bound (after_wake (record s { notifying = s.notifying - 1 }) (wake_receiver s.chan))
unfolding wake_receiver
wakes-Serves bound s [] e pos l v = ground arith
wakes-Serves bound s (h ∷ ws) e pos l v = ground arith

wakes_locked-Serves :
    {A : Type 0} (bound : ℕ) (s : World A) (ws : List Handle)
    → s.chan.recv_wait_list ≡ ws
    → s.send_lock ≡ has_sent
    → locks s.receiver ≡ false
    → Serves bound s
    → Serves bound (after_wake (record s { send_lock = free }) (wake_receiver s.chan))
unfolding wake_receiver
wakes_locked-Serves bound s [] e f l v = ground arith
wakes_locked-Serves bound s (h ∷ ws) e f l v = ground arith

drops_wake-Serves :
    {A : Type 0} (bound : ℕ) (s : World A) (ws : List Handle)
    → s.chan.recv_wait_list ≡ ws
    → Serves bound s
    → Serves bound (after_drop s (drop_sender_wake s.chan))
unfolding drop_sender_wake
drops_wake-Serves bound s [] e v = ground arith
drops_wake-Serves bound s (h ∷ ws) e v = ground arith

receives-Serves :
    {A : Type 0} (bound : ℕ) (s : World A) (q : List A) (again : Receiver)
    → s.chan.queue ≡ q
    → s.receiver ≡ receiving
    → (again ≡ parking) ⊎ (again ≡ receiving)
    → Serves bound s
    → Serves bound (after_recv s took again (inner_try_recv s.chan))
unfolding inner_try_recv
receives-Serves bound s [] again e r a v = ground arith
receives-Serves bound s (x ∷ q) again e r a v =
    ground (arith, append_assoc s.received_log (x ∷ []) q)

receives_again-Serves :
    {A : Type 0} (bound : ℕ) (s : World A) (q : List A)
    → s.chan.queue ≡ q
    → s.receiver ≡ trying_again
    → Serves bound s
    → Serves bound (after_recv s took_locked saw_empty (inner_try_recv s.chan))
unfolding inner_try_recv
receives_again-Serves bound s [] e r v = ground arith
receives_again-Serves bound s (x ∷ q) e r v = ground (arith, append_assoc s.received_log (x ∷ []) q)

parks_receiver-Serves :
    {A : Type 0} (bound : ℕ) (s : World A) (coro : Handle)
    → s.receiver ≡ saw_empty
    → Serves bound s
    → Serves bound (record s { chan = recv_push coro s.chan; receiver = parked })
unfolding recv_push
parks_receiver-Serves bound s coro e v = ground arith

wakes_sender-Serves :
    {A : Type 0} (bound : ℕ) (s : World A) (ws : List Handle)
    → s.chan.send_wait_list ≡ ws
    → (s.receiver ≡ took) ⊎ (s.receiver ≡ took_locked)
    → is_free s.send_lock ≡ true
    → Serves bound s
    → Serves bound (after_wake_sender s (wake_sender s.chan))
unfolding wake_sender
wakes_sender-Serves bound s [] e r l v = ground arith
wakes_sender-Serves bound s (h ∷ ws) e r l v = ground arith

SenderStep-Serves :
    {A : Type 0} (bound : ℕ) (s t : World A) → SenderStep s t → Serves bound s → Serves bound t
unfolding clone drop_sender drop_sender_count
SenderStep-Serves bound s _ (sends x pos) v = sends-Serves bound s x 0 pos (omega arith) v
SenderStep-Serves bound s _ (sends_again x pos woken) v =
    sends-Serves bound s x 1 pos (omega arith) v
SenderStep-Serves bound s _ (locks_list x pos l) v = ground arith
SenderStep-Serves bound s _ (tries_again x pos l) v = tries-Serves bound s x pos l v
SenderStep-Serves bound s _ (parks coro l) v = parks_sender-Serves bound s coro l v
SenderStep-Serves bound s _ (wakes pos l) v =
    wakes-Serves bound s s.chan.recv_wait_list refl pos l v
SenderStep-Serves bound s _ (wakes_locked e l) v =
    wakes_locked-Serves bound s s.chan.recv_wait_list refl e l v
SenderStep-Serves bound s _ (clones pos) v = ground arith
SenderStep-Serves bound s _ (drops pos) v = ground arith
SenderStep-Serves bound s _ (drops_wake l) v =
    drops_wake-Serves bound s s.chan.recv_wait_list refl v
SenderStep-Serves bound s _ drops_count v = ground arith

ReceiverStep-Serves :
    {A : Type 0} (bound : ℕ) (s t : World A) → ReceiverStep s t → Serves bound s → Serves bound t
unfolding drop_receiver drop_receiver_wake
ReceiverStep-Serves bound s _ (receives r) v =
    receives-Serves bound s s.chan.queue parking refl r (inl refl) v
ReceiverStep-Serves bound s _ (locks_list r) v = ground arith
ReceiverStep-Serves bound s _ (tries_again r) v =
    receives_again-Serves bound s s.chan.queue refl r v
ReceiverStep-Serves bound s _ (parks coro r) v = parks_receiver-Serves bound s coro r v
ReceiverStep-Serves bound s _ (wakes r l) v =
    wakes_sender-Serves bound s s.chan.send_wait_list refl r l v
ReceiverStep-Serves bound s _ (polls r) v =
    receives-Serves bound s s.chan.queue receiving refl r (inr refl) v
ReceiverStep-Serves bound s _ (drops r) v = ground arith
ReceiverStep-Serves bound s _ (drops_wake r l) v = ground arith

-- A bounded channel, whose inner channel gives what is in its queue also when no sender is left, as
-- the standard library documents and the note at sync_channel denies, in every interleaving of its
-- receiver and any number of senders, drops included: values are received in the order in which
-- they were sent, each once; the queue never exceeds the bound; the receiver's wait list holds it
-- alone exactly while it is parked, and while it is parked or about to be, the queue is empty or a
-- sender is about to wake it; while senders wait or are about to be parked, every place of the
-- queue is taken or promised to a sender that was woken or is about to be, unless the receiver is
-- being dropped; recv fails only with no sender and nothing in the queue; and no sender waits when
-- the receiver is gone.
pub Reach-Serves : {A : Type 0} (bound : ℕ) (s : World A) → Reach bound s → Serves bound s
unfolding sync_channel
Reach-Serves bound _ begin = ground arith
Reach-Serves bound s (sender {s = r} reach step) =
    SenderStep-Serves bound r s step (Reach-Serves bound r reach)
Reach-Serves bound s (receiver {s = r} reach step) =
    ReceiverStep-Serves bound r s step (Reach-Serves bound r reach)
