-- ===== src/Sync/Mpsc/Delivery.antt =====
-- What becomes of the values that go through a channel of src/sync/mpsc.rs, in every interleaving of
-- one receiver and any number of senders.
use coio_rs.Base.{
  ◌+◌, ◌-◌, ◌<◌, ◌≡◌, ◌⊎◌, refl, inl, inr, sym, ap, subst, ◌∙◌, false, List, [], ◌∷◌, ◌++◌, arith,
  leb, Bool-cases,
}
use mathlib.Core.List.{append_assoc}
use coio_rs.Sync.Semaphore.{Handle}
use coio_rs.Sync.Mpsc.{
  Channel, channel, clone, send_inner, send_wake, drop_inner, drop_wake, drop_count, try_recv,
  Receiver, receiving, parking, holding_lock, parked, closed, recv_first, recv_again, recv_push,
}
use coio_rs.Sync.Mpsc.World.{
  World, after_recv, after_wake, after_drop, locks, Step, clones, sends, wakes, drops_inner,
  drops_wake, drops_count, receives, receives_again, parks, Reach, begin, later, Placed, Delivers,
}

sends-Delivers :
    {A : Type 0} (s : World A) (x : A) (r : Receiver)
    → s.receiver ≡ r
    → 0 < s.chan.senders
    → Placed s.chan r s.notifying
    → Placed (send_inner x s.chan) r (s.notifying + 1)
unfolding send_inner
sends-Delivers s x receiving e pos v = v
sends-Delivers s x parking e pos v = v
sends-Delivers s x holding_lock e pos v = (v.0, inr (omega arith))
sends-Delivers s x parked e pos v = (v.0, v.1, inr (omega arith))
sends-Delivers s x closed e pos v = absurd (omega (arith, v.1))

same_place :
    {A : Type 0} (s : World A) (c : Channel A) (r : Receiver)
    → c.wait_list ≡ s.chan.wait_list
    → c.queue ≡ s.chan.queue
    → (c.senders ≡ s.chan.senders) ⊎ (c.senders ≡ s.chan.senders - 1)
    → Placed s.chan r s.notifying
    → Placed c r s.notifying
same_place s c receiving e f g v = e ∙ v
same_place s c parking e f g v = e ∙ v
same_place s c holding_lock e f g v = rw (e, f) v
same_place s c parked e f g v = rw (e, f) v
same_place s c closed e f g v = rw (e, f) (v.0, ground (arith, v.1), v.2)

clones-Placed :
    {A : Type 0} (s : World A) (r : Receiver)
    → 0 < s.chan.senders
    → Placed s.chan r s.notifying
    → Placed (clone s.chan) r s.notifying
unfolding clone
clones-Placed s receiving pos v = v
clones-Placed s parking pos v = v
clones-Placed s holding_lock pos v = v
clones-Placed s parked pos v = v
clones-Placed s closed pos v = absurd (omega (arith, v.1))

-- A wait list and what `Placed` says of it, when a sender takes its head.
wakes-Placed :
    {A : Type 0} (s : World A) (r : Receiver)
    → s.receiver ≡ r
    → locks r ≡ false
    → Placed s.chan r s.notifying
    → Placed
        (after_wake s (send_wake s.chan)).chan
        (after_wake s (send_wake s.chan)).receiver
        (after_wake s (send_wake s.chan)).notifying
unfolding send_wake
wakes-Placed s receiving e free v = rw (send_wake, v, e) v
wakes-Placed s parking e free v = rw (send_wake, v, e) v
wakes-Placed s holding_lock e free v = absurd (ground arith)
wakes-Placed s parked e free v = rw (send_wake, v.1) refl
wakes-Placed s closed e free v = rw (send_wake, v.0, e) v

wakes-log :
    {A : Type 0} (s : World A) (ws : List Handle)
    → s.chan.wait_list ≡ ws
    → ((after_wake s (send_wake s.chan)).chan.queue ≡ s.chan.queue)
      × ((after_wake s (send_wake s.chan)).sent_log ≡ s.sent_log)
      × ((after_wake s (send_wake s.chan)).received_log ≡ s.received_log)
unfolding send_wake
wakes-log s [] e = ground arith
wakes-log s (h ∷ rest) e = ground arith

drops-log :
    {A : Type 0} (s : World A) (ws : List Handle)
    → s.chan.wait_list ≡ ws
    → ((after_drop s (drop_wake s.chan)).chan.queue ≡ s.chan.queue)
      × ((after_drop s (drop_wake s.chan)).sent_log ≡ s.sent_log)
      × ((after_drop s (drop_wake s.chan)).received_log ≡ s.received_log)
      × ((after_drop s (drop_wake s.chan)).notifying ≡ s.notifying)
unfolding drop_wake
drops-log s [] e = ground arith
drops-log s (h ∷ rest) e = ground arith

recv_first-Delivers :
    {A : Type 0} (s : World A) (q : List A)
    → s.chan.queue ≡ q
    → s.receiver ≡ receiving
    → Delivers s
    → Delivers (after_recv s (recv_first s.chan))
unfolding recv_first try_recv
recv_first-Delivers s [] e r v = ground arith
recv_first-Delivers s (x ∷ q) e r v = ground (arith, append_assoc s.received_log (x ∷ []) q)

drops-Placed :
    {A : Type 0} (s : World A) (r : Receiver)
    → s.receiver ≡ r
    → locks r ≡ false
    → Placed s.chan r s.notifying
    → Placed
        (after_drop s (drop_wake s.chan)).chan
        (after_drop s (drop_wake s.chan)).receiver
        s.notifying
unfolding drop_wake
drops-Placed s r e free v = elim (Bool-cases (leb s.chan.strong 2)) [
  | inl few ↦ rw (drop_wake, few) (dropped s r e free v)
  | inr many ↦ rw (drop_wake, many, e) v
]
  where
    dropped :
        {A : Type 0} (s : World A) (r : Receiver)
        → s.receiver ≡ r
        → locks r ≡ false
        → Placed s.chan r s.notifying
        → Placed
            (after_drop s (s.chan.wait_list, record (s.chan) { wait_list = [] })).chan
            (after_drop s (s.chan.wait_list, record (s.chan) { wait_list = [] })).receiver
            s.notifying
    dropped s receiving e free v = rw (v, e) refl
    dropped s parking e free v = rw (v, e) refl
    dropped s holding_lock e free v = absurd (ground arith)
    dropped s parked e free v = rw (v.1) refl
    dropped s closed e free v = rw (v.0, e) (refl, v.1, v.2)

recv_again-Delivers :
    {A : Type 0} (s : World A) (q : List A)
    → s.chan.queue ≡ q
    → s.receiver ≡ parking
    → Delivers s
    → Delivers (after_recv s (recv_again s.chan))
unfolding recv_again try_recv
recv_again-Delivers s [] e r v = ground arith
recv_again-Delivers s (x ∷ q) e r v = ground (arith, append_assoc s.received_log (x ∷ []) q)

parks-Placed :
    {A : Type 0} (s : World A) (coro : Handle)
    → Placed s.chan holding_lock s.notifying
    → Placed (recv_push coro s.chan) parked s.notifying
unfolding recv_push
parks-Placed s coro v = (coro, ap (◌++ (coro ∷ [])) v.0, v.1)

Step-Delivers : {A : Type 0} {s t : World A} → Step s t → Delivers s → Delivers t
unfolding send_inner clone drop_inner drop_count recv_push
Step-Delivers {s = s} (clones pos) v = record {
  in_order = v.in_order;
  placed = clones-Placed s s.receiver pos v.placed;
}
Step-Delivers {s = s} (sends x pos) v = record {
  in_order = ap (◌++ (x ∷ [])) v.in_order ∙ append_assoc s.received_log s.chan.queue (x ∷ []);
  placed = sends-Delivers s x s.receiver refl pos v.placed;
}
Step-Delivers {s = s} (wakes pos free) v =
    let l = wakes-log s s.chan.wait_list refl in
    record {
      in_order = rw (l.0, l.1, l.2) v.in_order;
      placed = wakes-Placed s s.receiver refl free v.placed;
    }
Step-Delivers {s = s} (drops_inner pos) v = record {
  in_order = v.in_order;
  placed = same_place s (drop_inner s.chan) s.receiver refl refl (inr refl) v.placed;
}
Step-Delivers {s = s} (drops_wake free) v =
    let l = drops-log s s.chan.wait_list refl in
    record {
      in_order = rw (l.0, l.1, l.2) v.in_order;
      placed =
          subst
            (Placed (after_drop s (drop_wake s.chan)).chan
              (after_drop s (drop_wake s.chan)).receiver)
            (sym l.3) (drops-Placed s s.receiver refl free v.placed);
    }
Step-Delivers {s = s} drops_count v = record {
  in_order = v.in_order;
  placed = same_place s (drop_count s.chan) s.receiver refl refl (inl refl) v.placed;
}
Step-Delivers {s = s} (receives e) v = recv_first-Delivers s s.chan.queue refl e v
Step-Delivers {s = s} (receives_again e) v = recv_again-Delivers s s.chan.queue refl e v
Step-Delivers {s = s} (parks coro e) v = record {
  in_order = v.in_order;
  placed = parks-Placed s coro (subst (λ r. Placed s.chan r s.notifying) e v.placed);
}

-- In every interleaving, also of drops: the values are received in the order in which they were sent,
-- each once, those left being in the queue; a receiver that is parked stands alone in the wait list and
-- nothing is in the queue then, unless a sender is in front of the lock in `send`, which wakes it; and
-- `recv` fails only when there is no sender and nothing in the queue.
pub Reach-Delivers : {A : Type 0} {s : World A} → Reach s → Delivers s
unfolding channel
Reach-Delivers begin = record { in_order = refl; placed = refl }
Reach-Delivers (later r st) = Step-Delivers st (Reach-Delivers r)
