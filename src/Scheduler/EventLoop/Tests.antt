-- ===== src/Scheduler/EventLoop/Tests.antt =====
-- A slab, and an event loop that gets one message, one timeout and one event.
use coio_rs.Base.{
  ℕ, ◌+◌, ◌-◌, ◌<◌, ◌≡◌, refl, Option, none, some, [], ◌∷◌, arith, ◌==◌, if◌then◌else◌, count_of,
}
use coio_rs.Scheduler.Messages.{
  Token, Error, register_message, timer_message, sleep_delay, full, accepted,
}
use coio_rs.Scheduler.EventLoop.Slab.{Address, SlabOps, Documented, capacity}
use coio_rs.Scheduler.EventLoop.{
  Reply, Objects, EventLoop, start, handle, append_io_handler_to_global_queue, timeout,
}
use coio_rs.Scheduler.EventLoop.Registration.{Registers}
use coio_rs.Scheduler.EventLoop.Requests.{register, register-Registers}
use coio_rs.Scheduler.EventLoop.Conservation.{
  Reach, begin, later, times_out, handles, turns, kept, Reach-Kept,
}

-- A slab that uses every index once.
record Entries : Type 0 where
  get : ℕ → Option Address
  next : ℕ
  used : ℕ
  room : ℕ

abbrev insert : (ℕ → Objects → Option Address × Objects) → Objects → Entries → Objects × Entries
insert f e s = if s.room == 0 then (e, s) else elim (f s.next e).0 [
  | none ↦ ((f s.next e).1, s)
  | some a ↦ (
    (f s.next e).1,
    record {
      get = λ i. if s.next == i then some a else s.get i;
      next = s.next + 1;
      used = s.used + 1;
      room = s.room - 1;
    },
  )
]

abbrev remove : ℕ → Entries → Entries
remove i s = if s.used == 0 then s else elim (s.get i) [
  | none ↦ s
  | some a ↦ record s {
    get = λ j. if i == j then none else s.get j;
    used = s.used - 1;
    room = s.room + 1;
  }
]

abbrev ops : SlabOps Entries Objects
ops = record {
  get = λ i s. s.get i;
  remaining = λ s. s.room;
  count = λ s. s.used;
  grow = λ n s. record s { room = s.room + n };
  insert_with_opt = insert;
  remove = remove;
}

insert-called :
    (s : Entries) (f : ℕ → Objects → Option Address × Objects) (e : Objects)
    → 0 < s.room
    → ((insert f e s).0 ≡ (f s.next e).1)
      × ((a : Address) → (f s.next e).0 ≡ some a → ops.get s.next (insert f e s).1 ≡ some a)
insert-called s f e pos = (ground arith, λ a h. ground arith)

ops-Documented : Documented ops
ops-Documented = record {
  inserts = λ s pos. (s.next, λ f e. insert-called s f e pos);
  grows = λ n s. refl;
  grow_counts = λ n s. refl;
  insert_keeps = λ f e s. ground arith;
  remove_keeps = λ i s. ground arith;
}

-- A full slab with one entry.
abbrev full_slab : Entries
full_slab = record { get = λ i. none; next = 1; used = 1; room = 0 }

-- The loop of mio accepts every descriptor.
abbrev accepts : Token → Option Error
accepts token = none

-- The channel is full at the first attempt.
register-Registers_example :
    (r : Reply × EventLoop Entries) × (token : Token) × (register ops
        (full ∷ accepted ∷ [])
        5
        accepts
        (start full_slab)
      ≡ some r)
    × (r.1.io_handler_queue ≡ 5 ∷ [])
    × Registers ops accepts [] token r
register-Registers_example =
    register-Registers ops (full ∷ accepted ∷ []) 5 accepts (start full_slab) ops-Documented
      (omega arith) refl

-- Coroutine 6 sleeps.
abbrev slept : EventLoop Entries
slept = (handle ops (timer_message 6 10 none) (start full_slab)).1

-- Its timeout, and the registration of coroutine 5.
abbrev woken : EventLoop Entries
woken = (handle ops (register_message 5 accepts) (timeout [] 6 [] slept)).1

abbrev turned : EventLoop Entries
turned = append_io_handler_to_global_queue woken

turned-Reach : Reach ops (6 ∷ 5 ∷ []) [] turned
unfolding timeout handle
turned-Reach =
    later
      (later
        (later (later (begin full_slab (omega arith)) (handles (timer_message 6 10 none)))
          (times_out [] 6 [] refl))
        (handles (register_message 5 accepts)))
      turns

Reach-Kept_example :
    (0 < capacity ops turned.slab)
    × ((c : ℕ) → kept c turned + count_of c [] ≡ count_of c (6 ∷ 5 ∷ []))
Reach-Kept_example = Reach-Kept ops ops-Documented (6 ∷ 5 ∷ []) [] turned turned-Reach

-- One second and 1.999999 milliseconds.
sleeps_1001 : sleep_delay 1 1999999 ≡ 1001
unfolding sleep_delay
sleeps_1001 = refl
