-- ===== src/Scheduler/EventLoop.antt =====
-- The scheduler of src/scheduler.rs as the handler of mio's event loop: who is ready goes to its own queue, and
-- behind each turn to the global queue.
pub mod Slab
pub mod Registration
pub mod Waiting
pub mod Conservation
pub mod Requests
mod Tests
use coio_rs.Base.{
  ℕ, zero, suc, ◌+◌, Bool, true, false, Option, none, some, List, [], ◌∷◌, ◌++◌, length, get_elem?,
  set_at, ◌==◌, if◌then◌else◌,
}
use coio_rs.Runtime.RunQueue.{GlobalQueue}
use coio_rs.Scheduler.GlobalQueue.{refilled}
use coio_rs.Scheduler.Messages.{
  Token, Error, Message, register_message, deregister_message, timer_message, shutdown,
}
use coio_rs.Scheduler.ReadyStates.{ReadyType, ReadyStates, new, notify}
use coio_rs.Scheduler.EventLoop.Slab.{Address, SlabOps}
use coio_rs.Sync.Semaphore.{Handle}

-- What the coroutine of a message finds in its `ret`: `unset` is what it was before.
pub data Reply : Type 0 where
  unset done : Reply
  registered : Token → Address → Reply
  refused : Error → Reply

-- What the callback of `register` works on: the shared `ReadyStates`, each at its address, and `ret`.
pub record Objects : Type 0 where
  pub states : List ReadyStates
  pub ret : Reply

-- The callback of `register`, for the answer of the event loop: whether it has registered the
-- descriptor, and `ret`.
unfoldable pub register_cb : Option Error → Token → Address → Bool × Reply
register_cb none token states = (true, registered token states)
register_cb (some err) token states = (false, refused err)

-- The callback that `notify` gives to the slab: it makes the `ReadyStates`, calls the callback of
-- `register`, and gives the slab its value, or none.
unfoldable pub register_callback :
    (Token → Option Error) → Token → Objects → Option Address × Objects
unfolding new register_cb
register_callback answer token o =
    let states = length o.states in
    let r = register_cb (answer token) token states in
    (if r.0 then some states else none, record { states = o.states ++ (new ∷ []); ret = r.1 })

-- The callback of `deregister`, and the result of a timer.
unfoldable pub reply : Option Error → Reply
reply none = done
reply (some err) = refused err

-- `timers` are the coroutines whose raw pointers the event loop of mio got with a timeout and has not
-- given back.
pub record EventLoop (S : Type 0) : Type 0 where
  pub slab : S
  pub objects : List ReadyStates
  pub io_handler_queue : List Handle
  pub timers : List Handle
  pub global : GlobalQueue
  pub is_running : Bool

abbrev pub start : {S : Type 0} → S → EventLoop S
start slab = record {
  slab = slab;
  objects = [];
  io_handler_queue = [];
  timers = [];
  global = refilled [];
  is_running = true;
}

-- `ready`, of the handler; `none` is its panic. The slab stores only addresses of shared `ReadyStates`.
unfoldable pub ready :
    {S : Type 0}
    → SlabOps S Objects
    → Token
    → (ReadyType → Bool)
    → EventLoop S
    → Option (EventLoop S)
unfolding notify
ready ops token events l = elim (ops.get token l.slab) [
  | none ↦ none
  | some a ↦ elim (get_elem? l.objects a) [
    | none ↦ none
    | some r ↦ some (record l {
      objects = set_at a (notify events r).1 l.objects;
      io_handler_queue = l.io_handler_queue ++ (notify events r).0;
    })
  ]
]

abbrev pub enqueue : {S : Type 0} → Handle → EventLoop S → EventLoop S
enqueue coro l = record l { io_handler_queue = l.io_handler_queue ++ (coro ∷ []) }

-- `timeout`, whose token is the raw pointer of a coroutine that stands between `before` and `behind` in
-- the timers: mio gives it back, and it is queued.
unfoldable pub timeout :
    {S : Type 0} → List Handle → Handle → List Handle → EventLoop S → EventLoop S
timeout before coro behind l = enqueue coro (record l { timers = before ++ behind })

-- The slab behind the test of `notify` for room.
unfoldable pub with_room : {S : Type 0} → SlabOps S Objects → S → S
with_room ops s = if ops.remaining s == 0 then ops.grow (ops.count s) s else s

abbrev pub registering : {S : Type 0} → Handle → EventLoop S → Objects × S → Reply × EventLoop S
registering coro l (o, s) = (o.ret, enqueue coro (record l { slab = s; objects = o.states }))

-- `notify` of the handler: what the coroutine finds in its `ret`, and the event loop.
unfoldable pub handle :
    {S : Type 0} → SlabOps S Objects → Message → EventLoop S → Reply × EventLoop S
unfolding with_room register_callback reply
handle ops (register_message coro answer) l = registering coro l (
    ops.insert_with_opt (register_callback answer) (record { states = l.objects; ret = unset })
      (with_room ops l.slab))
handle ops (deregister_message coro token answer) l =
    (reply answer, enqueue coro (record l { slab = ops.remove token l.slab }))
handle ops (timer_message coro delay none) l = (done, record l { timers = l.timers ++ (coro ∷ []) })
handle ops (timer_message coro delay (some err)) l = (refused err, enqueue coro l)
handle ops shutdown l = (unset, record l { is_running = false })

unfoldable pub append_io_handler_to_global_queue : {S : Type 0} → EventLoop S → EventLoop S
append_io_handler_to_global_queue l = elim l.io_handler_queue [
  | [] ↦ l
  | h ∷ hs ↦ record l {
    global = refilled (l.global.queue ++ l.io_handler_queue);
    io_handler_queue = [];
  }
]
