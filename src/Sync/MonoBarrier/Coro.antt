-- ===== src/Sync/MonoBarrier/Coro.antt =====
-- `CoroMonoBarrier` of src/sync/mono_barrier.rs: one word, 0, 1 or the address of a coroutine. Each
-- compare-and-swap is one step, with what follows it up to the next one.
pub mod Wakeups
use coio_rs.Base.{ℕ, Bool, true, false, Option, none, some, not, ltb, ◌==◌, if◌then◌else◌}

pub data CoroMonoBarrierError : Type 0 where
  missing_processor occupied : CoroMonoBarrierError

abbrev pub coro_empty : ℕ
coro_empty = 0

abbrev pub coro_ready : ℕ
coro_ready = 1

unfoldable pub new : ℕ
new = coro_empty

-- The value that was found, and the word behind it.
abbrev pub compare_and_swap : ℕ → ℕ → ℕ → ℕ × ℕ
compare_and_swap current replacement lock = (lock, if lock == current then replacement else lock)

-- Where a caller of `wait` is: in front of the first or of the second compare-and-swap of the loop of
-- the callback, in the word, or behind `wait` with its result.
pub data Waiting : Type 0 where
  at_empty at_ready in_lock : ℕ → Waiting
  result_ok : Waiting
  result_err : CoroMonoBarrierError → Waiting

-- `wait` up to the callback of `park_with`.
unfoldable pub wait_begin : Option ℕ → ℕ → Waiting × ℕ
wait_begin none lock = (result_err missing_processor, lock)
wait_begin (some coro) lock =
    let cas = compare_and_swap coro_ready coro_empty lock in
    if cas.0 == coro_empty
    then (at_empty coro, cas.1)
    else if not (cas.0 == coro_ready)
    then (result_err occupied, cas.1)
    else (result_ok, cas.1)

-- The first half of the loop of the callback.
unfoldable pub wait_empty : ℕ → ℕ → Waiting × ℕ
wait_empty coro lock =
    let cas = compare_and_swap coro_empty coro lock in
    if cas.0 == coro_empty then (in_lock coro, cas.1) else (at_ready coro, cas.1)

-- The second half. The coroutine is made ready again when the loop ends here.
unfoldable pub wait_ready : ℕ → ℕ → Waiting × ℕ
wait_ready coro lock =
    let cas = compare_and_swap coro_ready coro_empty lock in
    if not (cas.0 == coro_empty)
    then if not (cas.0 == coro_ready) then (result_err occupied, cas.1) else (result_ok, cas.1)
    else (at_empty coro, cas.1)

-- A round of `notify` goes on with another guess, or ends, and then may make a coroutine ready.
pub data Notifying : Type 0 where
  retry : ℕ → Notifying
  done : Notifying
  wakes_up : ℕ → Notifying

unfoldable pub notify_round : ℕ → ℕ → Notifying × ℕ
notify_round current lock =
    let cas =
      compare_and_swap current (if ltb coro_ready current then coro_empty else coro_ready) lock in
    if cas.0 == current
    then if ltb coro_ready (cas.0) then (wakes_up (cas.0), cas.1) else (done, cas.1)
    else (retry (cas.0), cas.1)

-- The drop: the coroutine that is dropped with the barrier, if any.
unfoldable pub drop : ℕ → Option ℕ × ℕ
drop lock = if ltb coro_ready lock then (some lock, coro_empty) else (none, coro_empty)
