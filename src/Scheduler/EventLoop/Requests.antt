-- ===== src/Scheduler/EventLoop/Requests.antt =====
-- What a coroutine asks of the event loop of src/scheduler.rs, from the request to the result that it
-- finds when it is resumed.
use coio_rs.Base.{
  ℕ, ◌<◌, ◌≡◌, refl, Bool, true, false, Option, some, List, [], ◌∷◌, ◌++◌, ◌>>=◌, pure, arith,
}
use coio_rs.Scheduler.Messages.{
  Token, Error, Message, register_message, deregister_message, timer_message, Notify, accepted,
  full, failed, send, sleep_delay,
}
use coio_rs.Scheduler.EventLoop.{Reply, Objects, EventLoop, handle}
use coio_rs.Scheduler.EventLoop.Slab.{SlabOps, Documented, capacity}
use coio_rs.Scheduler.EventLoop.Registration.{Registers, handle-register_message}
use coio_rs.Sync.Semaphore.{Handle}

-- `answers` are those of the channel; `none` is a message that was given up, with its coroutine.
module _ {S : Type 0} (ops : SlabOps S Objects) (answers : List Notify) (coro : Handle) where
  unfoldable pub register : (Token → Option Error) → EventLoop S → Option (Reply × EventLoop S)
  unfolding send handle
  register answer l = do msg ← send answers (register_message coro answer); pure (handle ops msg l)

  unfoldable pub deregister : Token → Option Error → EventLoop S → Option (Reply × EventLoop S)
  unfolding send handle
  deregister token answer l = do
    msg ← send answers (deregister_message coro token answer)
    pure (handle ops msg l)

  unfoldable pub sleep_ms : ℕ → Option Error → EventLoop S → Option (Reply × EventLoop S)
  unfolding send handle
  sleep_ms delay answer l = do
    msg ← send answers (timer_message coro delay answer)
    pure (handle ops msg l)

  unfoldable pub sleep : ℕ → ℕ → Option Error → EventLoop S → Option (Reply × EventLoop S)
  unfolding sleep_ms sleep_delay
  sleep secs nanos answer l = sleep_ms (sleep_delay secs nanos) answer l

-- Whether the channel takes the message in the end.
abbrev pub never_fails : List Notify → Bool
never_fails [] = true
never_fails (accepted ∷ answers) = true
never_fails (full ∷ answers) = never_fails answers
never_fails (failed ∷ answers) = false

pub send-never_fails :
    (answers : List Notify) (msg : Message)
    → never_fails answers ≡ true
    → send answers msg ≡ some msg
unfolding send
send-never_fails [] msg e = refl
send-never_fails (accepted ∷ answers) msg e = refl
send-never_fails (full ∷ answers) msg e = send-never_fails answers msg e
send-never_fails (failed ∷ answers) msg e = absurd (ground arith)

-- A register whose message the channel takes in the end, for a slab that behaves as documented and
-- has some capacity: the coroutine is queued to be resumed, and finds the token for which the event
-- loop accepted its descriptor, with the new ReadyStates that the slab has stored under that token,
-- or the error with which the event loop refused it; it never finds the value that ret had before.
pub register-Registers :
    {S : Type 0} (ops : SlabOps S Objects) (answers : List Notify) (coro : Handle)
    (answer : Token → Option Error) (l : EventLoop S)
    → Documented ops
    → 0 < capacity ops l.slab
    → never_fails answers ≡ true
    → (r : Reply × EventLoop S) × (token : Token) × (register ops answers coro answer l ≡ some r)
      × (r.1.io_handler_queue ≡ l.io_handler_queue ++ (coro ∷ []))
      × Registers ops answer l.objects token r
unfolding register
register-Registers ops answers coro answer l doc room sends =
    let (queued, ended) = handle-register_message ops doc coro answer l room in
    (
      handle ops (register_message coro answer) l,
      ended.0,
      rw (register, send-never_fails answers (register_message coro answer) sends) refl,
      queued,
      ended.1,
    )
