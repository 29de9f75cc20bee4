-- ===== src/Sync/Mpsc/Tests.antt =====
-- A value that is sent to a parked receiver, and two senders that are dropped at once.
use coio_rs.Base.{ℕ, refl, arith, [], ◌∷◌}
use coio_rs.Sync.Mpsc.{
  channel, clone, send_inner, send_wake, drop_inner, drop_wake, drop_count, try_recv, recv_first,
  recv_again, recv_push, parked, receiving,
}
use coio_rs.Sync.Mpsc.World.{
  World, Reach, begin, later, sends, wakes, clones, receives, receives_again, parks, drops_inner,
  drops_wake, drops_count, Delivers,
}
use coio_rs.Sync.Mpsc.Delivery.{Reach-Delivers}

-- The value 5 is sent to the receiver while it is parked, and it is woken.
abbrev woken : World ℕ
woken = record {
  chan = record { queue = 5 ∷ []; senders = 1; wait_list = []; strong = 2 };
  receiver = receiving;
  notifying = 0;
  sent_log = 5 ∷ [];
  received_log = [];
}

woken-Reach : Reach woken
unfolding channel send_inner send_wake try_recv recv_first recv_again recv_push
woken-Reach =
    later
      (later (later (later (later begin (receives refl)) (receives_again refl)) (parks 9 refl))
        (sends 5 (omega arith)))
      (wakes (omega arith) refl)

Reach-Delivers_example : Delivers woken
Reach-Delivers_example = Reach-Delivers woken-Reach

-- Both senders find three owners of the wait list before either has given its own up: the receiver
-- stays parked, without a sender.
abbrev stuck : World ℕ
stuck = record {
  chan = record { queue = []; senders = 0; wait_list = 9 ∷ []; strong = 1 };
  receiver = parked;
  notifying = 0;
  sent_log = [];
  received_log = [];
}

stuck-Reach : Reach stuck
unfolding channel clone drop_inner drop_wake drop_count try_recv recv_first recv_again recv_push
stuck-Reach =
    let waiting =
      later
        (later (later (later begin (clones (omega arith))) (receives refl)) (receives_again refl))
        (parks 9 refl) in
    let disconnected =
      later (later waiting (drops_inner (omega arith))) (drops_inner (omega arith)) in
    let found_three = later (later disconnected (drops_wake refl)) (drops_wake refl) in
    later (later found_three drops_count) drops_count
