-- ===== src/Sync/SyncChannel/Tests.antt =====
-- Two coroutines that each hold a lock and wait for the other's.
use coio_rs.Base.{ℕ, refl, arith, true, [], ◌∷◌}
use coio_rs.Sync.SyncChannel.{sync_channel, inner_try_send, inner_try_recv}
use coio_rs.Sync.SyncChannel.World.{
  World, has_sent, took_locked, Reach, begin, sender, receiver, sends, locks_list, tries_again,
  receives,
}
use coio_rs.Sync.SyncChannel.Waiters.{Serves}
use coio_rs.Sync.SyncChannel.Delivery.{Reach-Serves}

-- The queue holds one value. A sender that found 5 in the queue has the lock of the senders' list, and
-- has sent 6, after the receiver, with the lock of its own list, has received 5. The sender is in front of the
-- receiver's lock, and the receiver in front of the sender's.
abbrev locked : World ℕ
locked = record {
  chan = record {
    queue = 6 ∷ [];
    bound = 1;
    senders = 1;
    receiver_alive = true;
    send_wait_list = [];
    recv_wait_list = [];
    strong = 2;
  };
  send_lock = has_sent;
  receiver = took_locked;
  notifying = 1;
  woken = 0;
  sent_log = 5 ∷ 6 ∷ [];
  received_log = 5 ∷ [];
}

locked-Reach : Reach 1 locked
unfolding sync_channel inner_try_send inner_try_recv
locked-Reach =
    let full =
      sender (sender (receiver begin (receives refl)) (sends 5 (omega arith)))
        (sends 6 (omega arith)) in
    let both_locked = receiver (sender full (locks_list 6 (omega arith) refl)) (locks_list refl) in
    sender (receiver both_locked (tries_again refl)) (tries_again 6 (omega arith) refl)

Reach-Serves_example : Serves 1 locked
Reach-Serves_example = Reach-Serves 1 locked locked-Reach
