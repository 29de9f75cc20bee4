-- ===== src/Scheduler/EventLoop/Registration.antt =====
-- What a coroutine that registers with the event loop of src/scheduler.rs gets back.
use coio_rs.Base.{
  ◌<◌, ◌≡◌, ◌⊎◌, inl, inr, refl, Option, none, some, List, [], ◌∷◌, ◌++◌, length, get_elem?, arith,
}
use coio_rs.Scheduler.Messages.{Token, Error, register_message}
use coio_rs.Scheduler.ReadyStates.{ReadyStates, new}
use coio_rs.Scheduler.EventLoop.Slab.{Address, SlabOps, Documented, capacity}
use coio_rs.Scheduler.EventLoop.{
  Reply, unset, registered, refused, Objects, register_callback, register_cb, EventLoop, with_room,
  handle, registering,
}
use coio_rs.Sync.Semaphore.{Handle}

with_room-remaining :
    {S : Type 0} (ops : SlabOps S Objects)
    → Documented ops
    → (s : S) → 0 < capacity ops s
    → 0 < ops.remaining (with_room ops s)
unfolding with_room
with_room-remaining ops doc s pos = ground (arith, doc.grows (ops.count s) s)

get_elem?-last :
    (ss : List ReadyStates) (r : ReadyStates) → get_elem? (ss ++ (r ∷ [])) (length ss) ≡ some r
get_elem?-last [] r = refl
get_elem?-last (s ∷ ss) r = get_elem?-last ss r

-- How the callback of `notify` ends, when the slab calls it with `token`, and what the slab stores then.
abbrev pub Registers :
    {S : Type 0}
    → SlabOps S Objects
    → (Token → Option Error)
    → List ReadyStates
    → Token
    → Reply × EventLoop S
    → Type 0
Registers ops answer objects token (ret, l) =
    (l.objects ≡ objects ++ (new ∷ []))
    × ((answer token ≡ none)
          × (ret ≡ registered token (length objects))
          × (ops.get token l.slab ≡ some (length objects))
        ⊎ ((err : Error) × (answer token ≡ some err) × (ret ≡ refused err)))

registering-Registers :
    {S : Type 0} (ops : SlabOps S Objects) (answer : Token → Option Error)
    (objects : List ReadyStates) (coro : Handle) (l : EventLoop S) (token : Token) (p : Objects × S)
    → p.0 ≡ (register_callback answer token (record { states = objects; ret = unset })).1
    → ((a : Address)
        → (register_callback answer token (record { states = objects; ret = unset })).0 ≡ some a
        → ops.get token p.1 ≡ some a)
    → (o : Option Error) → answer token ≡ o
    → Registers ops answer objects token (registering coro l p)
unfolding register_callback register_cb
registering-Registers ops answer objects coro l token p e f none g =
    rw (e, register_callback, register_cb, g)
      (refl, inl (refl, refl, f (length objects) (rw (register_callback, register_cb, g) refl)))
registering-Registers ops answer objects coro l token p e f (some err) g =
    rw (e, register_callback, register_cb, g) (refl, inr (err, refl, refl))

pub handle-register_message :
    {S : Type 0} (ops : SlabOps S Objects)
    → Documented ops
    → (coro : Handle) (answer : Token → Option Error) (l : EventLoop S) → 0 < capacity ops l.slab
    → ((handle ops (register_message coro answer) l).1.io_handler_queue
        ≡ l.io_handler_queue ++ (coro ∷ []))
      × ((token : Token) × Registers ops answer l.objects token
            (handle ops (register_message coro answer) l))
unfolding handle
handle-register_message ops doc coro answer l pos =
    let room = doc.inserts (with_room ops l.slab) (with_room-remaining ops doc l.slab pos) in
    let o : Objects = record { states = l.objects; ret = unset } in
    let called = room.1 (register_callback answer) o in
    (
      refl,
      (
        room.0,
        registering-Registers ops answer l.objects coro l room.0
            (ops.insert_with_opt (register_callback answer) o (with_room ops l.slab)) called.0
            called.1 (answer room.0) refl,
      ),
    )
