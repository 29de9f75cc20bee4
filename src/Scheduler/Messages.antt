-- ===== src/Scheduler/Messages.antt =====
-- What a coroutine asks of the event loop of src/scheduler.rs, and how it sends that while it is parked.
use coio_rs.Base.{arith, ◌<◌, ◌≤◌, ℕ, ◌+◌, ◌*◌, ◌/◌, ◌%◌, ◌^◌, Option, none, some, List, [], ◌∷◌}
use coio_rs.Sync.Semaphore.{Handle}

abbrev pub Token : Type 0
Token = ℕ

-- The number of an `io::Error` or of a `TimerError`.
abbrev pub Error : Type 0
Error = ℕ

-- A message with what the event loop of mio answers when the message is handled: `none` is success. The
-- callback of `register` asks it to register the descriptor under a token, that of `deregister` to
-- forget it.
pub data Message : Type 0 where
  register_message : (coro : Handle) → (Token → Option Error) → Message
  deregister_message : (coro : Handle) → Token → Option Error → Message
  timer_message : (coro : Handle) → (delay : ℕ) → Option Error → Message
  shutdown : Message

-- The answer of the channel of mio. `failed` gives the message up.
pub data Notify : Type 0 where
  accepted full failed : Notify

-- The callbacks of `register`, `deregister` and `sleep_ms`: for what the channel answers, one after the
-- other, whether the message is in it at the end, or dropped.
unfoldable pub send : List Notify → Message → Option Message
send [] msg = some msg
send (accepted ∷ answers) msg = some msg
send (full ∷ answers) msg = send answers msg
send (failed ∷ answers) msg = none

-- The delay of `sleep` for seconds and nanoseconds, a `u64`.
unfoldable pub sleep_delay : ℕ → ℕ → ℕ
sleep_delay secs nanos = (secs * 1000 % 2 ^ 64 + nanos / 1000000) % 2 ^ 64

-- For less than a second of nanoseconds and a number of seconds whose milliseconds fit, sleep asks
-- for the whole milliseconds in the duration: at most the duration, and less than one millisecond
-- below it.
pub sleep_delay-rounds_down :
    (secs nanos : ℕ)
    → nanos < 1000000000
    → secs * 1000 + 1000 ≤ 2 ^ 64
    → (sleep_delay secs nanos * 1000000 ≤ secs * 1000000000 + nanos)
      × (secs * 1000000000 + nanos < (sleep_delay secs nanos + 1) * 1000000)
unfolding sleep_delay
sleep_delay-rounds_down secs nanos h k = (omega arith, omega arith)
