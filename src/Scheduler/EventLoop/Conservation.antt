-- ===== src/Scheduler/EventLoop/Conservation.antt =====
-- Where the coroutines are that the event loop of src/scheduler.rs has been given.
use coio_rs.Base.{
  ℕ, ◌+◌, ◌<◌, ◌≡◌, inl, inr, refl, sym, ap, subst, Bool, false, none, some, List, [], ◌∷◌, ◌++◌,
  get_elem?, arith, Option-cases, set_at, count_of-gather-set_at, count_of, count_of-append,
}
use coio_rs.Scheduler.GlobalQueue.{refilled, push_global_queue_iter}
use coio_rs.Scheduler.Messages.{
  Token, Message, register_message, deregister_message, timer_message, shutdown,
}
use coio_rs.Scheduler.ReadyStates.{ReadyType, ReadyStates, notify, wait_parked}
use coio_rs.Scheduler.EventLoop.Slab.{Address, SlabOps, Documented, capacity}
use coio_rs.Scheduler.EventLoop.{
  Objects, register_callback, reply, EventLoop, start, ready, enqueue, timeout, with_room, handle,
  append_io_handler_to_global_queue, unset,
}
use coio_rs.Scheduler.EventLoop.Registration.{handle-register_message}
use coio_rs.Scheduler.EventLoop.Waiting.{
  handles_of, waiting, notify-count_of, wait_parked-count_of, waiting-append,
}
use coio_rs.Sync.Semaphore.{Handle}

abbrev pub coroutine_of : Message → List Handle
coroutine_of (register_message coro answer) = coro ∷ []
coroutine_of (deregister_message coro token answer) = coro ∷ []
coroutine_of (timer_message coro delay answer) = coro ∷ []
coroutine_of shutdown = []

-- The steps of the event loop, and of the processors that fetch from the global queue and fill it, with
-- the coroutines that come in and those that go out. In `waits` a coroutine is parked in an empty slot; in
-- `times_out` mio gives back one of those it got with a timeout.
pub data Step {S : Type 0} (ops : SlabOps S Objects) (l : EventLoop S)
    : List Handle → List Handle → EventLoop S → Type 0 where
  readies :
      (token : Token) (events : ReadyType → Bool) (m : EventLoop S)
      → ready ops token events l ≡ some m
      → Step ops l [] [] m
  times_out :
      (before : List Handle) (coro : Handle) (behind : List Handle)
      → l.timers ≡ before ++ (coro ∷ behind)
      → Step ops l [] [] (timeout before coro behind l)
  handles : (msg : Message) → Step ops l (coroutine_of msg) [] (handle ops msg l).1
  turns : Step ops l [] [] (append_io_handler_to_global_queue l)
  waits :
      (coro : Handle) (a : Address) (t : ReadyType) (r : ReadyStates)
      → get_elem? l.objects a ≡ some r
      → r.events t ≡ false
      → r.handles t ≡ none
      → Step ops l
          (coro ∷ [])
          []
          (record l { objects = set_at a (wait_parked t coro r).1 l.objects })
  fetches :
      (out rest : List Handle)
      → l.global.queue ≡ out ++ rest
      → Step ops l [] out (record l { global = refilled rest })
  pushes :
      (iter : List Handle)
      → Step ops l iter [] (record l { global = (push_global_queue_iter iter l.global).1 })

pub data Reach {S : Type 0} (ops : SlabOps S Objects)
    : List Handle → List Handle → EventLoop S → Type 0 where
  begin : (s : S) → 0 < capacity ops s → Reach ops [] [] (start s)
  later :
      {ins outs more out : List Handle} {l m : EventLoop S}
      → Reach ops ins outs l
      → Step ops l more out m
      → Reach ops (ins ++ more) (outs ++ out) m

-- How often a coroutine is with the event loop.
abbrev pub kept : {S : Type 0} → Handle → EventLoop S → ℕ
kept c l =
    count_of c (waiting l.objects)
    + count_of c l.io_handler_queue
    + count_of c l.timers
    + count_of c l.global.queue

ready-kept :
    {S : Type 0} (ops : SlabOps S Objects) (c : Handle) (token : Token) (events : ReadyType → Bool)
    (l m : EventLoop S)
    → ready ops token events l ≡ some m
    → kept c m ≡ kept c l
unfolding ready
ready-kept ops c token events l m e = elim (Option-cases (ops.get token l.slab)) [
  | inl gone ↦ absurd (ground arith)
  | inr (a, at) ↦ elim (Option-cases (get_elem? l.objects a)) [
    | inl gone ↦ absurd (ground arith)
    | inr (r, here) ↦
        let is_m : m ≡ record l {
          objects = set_at a (notify events r).1 l.objects;
          io_handler_queue = l.io_handler_queue ++ (notify events r).0;
        } =
          ground arith in
        subst (λ m. kept c m ≡ kept c l) (sym is_m)
          (omega (
            arith,
            count_of-gather-set_at handles_of c a r (notify events r).1 l.objects here,
            notify-count_of c events r,
            count_of-append c l.io_handler_queue (notify events r).0,
          ))
  ]
]

append_io-kept :
    {S : Type 0} (c : Handle) (l : EventLoop S) (queue : List Handle)
    → l.io_handler_queue ≡ queue
    → kept c (append_io_handler_to_global_queue l) ≡ kept c l
unfolding append_io_handler_to_global_queue count_of
append_io-kept c l [] e = ground arith
append_io-kept c l (h ∷ hs) e = ground (arith, count_of-append c l.global.queue l.io_handler_queue)

enqueue-kept :
    {S : Type 0} (c coro : Handle) (l : EventLoop S)
    → kept c (enqueue coro l) ≡ kept c l + count_of c (coro ∷ [])
enqueue-kept c coro l = omega (arith, count_of-append c l.io_handler_queue (coro ∷ []))

timeout-kept :
    {S : Type 0} (c : Handle) (before : List Handle) (coro : Handle) (behind : List Handle)
    (l : EventLoop S)
    → l.timers ≡ before ++ (coro ∷ behind)
    → kept c (timeout before coro behind l) ≡ kept c l
unfolding timeout
timeout-kept c before coro behind l e = omega (
  arith,
  enqueue-kept c coro (record l { timers = before ++ behind }),
  ap (λ hs. count_of c hs) e,
  count_of-append c before (coro ∷ behind),
  count_of-append c (coro ∷ []) behind,
  count_of-append c before behind,
)

handle-kept :
    {S : Type 0} (ops : SlabOps S Objects)
    → Documented ops
    → (c : Handle) (msg : Message) (l : EventLoop S) → 0 < capacity ops l.slab
    → kept c (handle ops msg l).1 ≡ kept c l + count_of c (coroutine_of msg)
unfolding handle reply count_of
handle-kept ops doc c (register_message coro answer) l room =
    let called = handle-register_message ops doc coro answer l room in
    let queued = called.0 in
    omega (
      arith,
      ap (λ hs. count_of c hs) queued,
      ap (λ rs. count_of c (waiting rs)) called.1.1.0,
      waiting-append c l.objects,
      count_of-append c l.io_handler_queue (coro ∷ []),
    )
handle-kept ops doc c (deregister_message coro token answer) l room = enqueue-kept c coro l
handle-kept ops doc c (timer_message coro delay none) l room =
    omega (arith, count_of-append c l.timers (coro ∷ []))
handle-kept ops doc c (timer_message coro delay (some err)) l room = enqueue-kept c coro l
handle-kept ops doc c shutdown l room = omega arith

Step-kept :
    {S : Type 0} (ops : SlabOps S Objects)
    → Documented ops
    → (c : Handle) (more out : List Handle) (l m : EventLoop S) → 0 < capacity ops l.slab
    → Step ops l more out m
    → kept c m + count_of c out ≡ kept c l + count_of c more
unfolding count_of timeout push_global_queue_iter
Step-kept ops doc c _ _ l _ room (readies token events m e) =
    omega (arith, ready-kept ops c token events l m e)
Step-kept ops doc c _ _ l _ room (times_out before coro behind e) =
    omega (arith, timeout-kept c before coro behind l e)
Step-kept ops doc c _ _ l _ room (handles msg) = omega (arith, handle-kept ops doc c msg l room)
Step-kept ops doc c _ _ l _ room turns = omega (arith, append_io-kept c l l.io_handler_queue refl)
Step-kept ops doc c _ _ l _ room (waits coro a t r e f g) = omega (
  arith,
  count_of-gather-set_at handles_of c a r (wait_parked t coro r).1 l.objects e,
  wait_parked-count_of c coro t r f g,
)
Step-kept ops doc c _ _ l _ room (fetches out rest e) =
    omega (arith, ap (λ hs. count_of c hs) e, count_of-append c out rest)
Step-kept ops doc c _ _ l _ room (pushes iter) =
    omega (arith, count_of-append c l.global.queue iter)

handle-room :
    {S : Type 0} (ops : SlabOps S Objects)
    → Documented ops
    → (msg : Message) (l : EventLoop S) → 0 < capacity ops l.slab
    → 0 < capacity ops (handle ops msg l).1.slab
unfolding handle with_room reply
handle-room ops doc (register_message coro answer) l room = ground (
  arith,
  doc.grows (ops.count l.slab) l.slab,
  doc.grow_counts (ops.count l.slab) l.slab,
  doc.insert_keeps (register_callback answer) (record { states = l.objects; ret = unset })
      (with_room ops l.slab),
)
handle-room ops doc (deregister_message coro token answer) l room =
    omega (arith, doc.remove_keeps token l.slab)
handle-room ops doc (timer_message coro delay none) l room = room
handle-room ops doc (timer_message coro delay (some err)) l room = room
handle-room ops doc shutdown l room = room

Step-room :
    {S : Type 0} (ops : SlabOps S Objects)
    → Documented ops
    → (more out : List Handle) (l m : EventLoop S) → 0 < capacity ops l.slab
    → Step ops l more out m
    → 0 < capacity ops m.slab
unfolding ready timeout push_global_queue_iter append_io_handler_to_global_queue
Step-room ops doc _ _ l _ room (readies token events m e) = ground arith
Step-room ops doc _ _ l _ room (times_out before coro behind e) = room
Step-room ops doc _ _ l _ room (handles msg) = handle-room ops doc msg l room
Step-room ops doc _ _ l _ room turns = ground arith
Step-room ops doc _ _ l _ room (waits coro a t r e f g) = room
Step-room ops doc _ _ l _ room (fetches out rest e) = room
Step-room ops doc _ _ l _ room (pushes iter) = room

-- For a slab that behaves as documented and has some capacity at first: in every order of events,
-- timeouts, messages, turns of the event loop, waits in empty slots, fetches and pushes, every
-- coroutine is as often in the slots, the queue of the handler, the timers and the global queue as
-- it came in and did not go out; none is lost or doubled.
pub Reach-Kept :
    {S : Type 0} (ops : SlabOps S Objects)
    → Documented ops
    → (ins outs : List Handle) (l : EventLoop S) → Reach ops ins outs l
    → (0 < capacity ops l.slab) × ((c : Handle) → kept c l + count_of c outs ≡ count_of c ins)
unfolding count_of
Reach-Kept ops doc _ _ _ (begin s room) = (room, λ c. refl)
Reach-Kept ops doc _ _ m (later {ins} {outs} {more} {out} {l} reach step) =
    let before = Reach-Kept ops doc ins outs l reach in
    (
      Step-room ops doc more out l m before.0 step,
      λ c. omega (
        arith,
        before.1 c,
        Step-kept ops doc c more out l m before.0 step,
        count_of-append c ins more,
        count_of-append c outs out,
      ),
    )
