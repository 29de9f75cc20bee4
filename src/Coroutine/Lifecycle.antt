-- ===== src/Coroutine/Lifecycle.antt =====
-- The life of a `Coroutine` of src/coroutine.rs: it and its owner hand the control to each other, and each
-- finds the context of the other in `context`. `none` is a panic.
pub mod Alive
mod Tests
use coio_rs.Base.{
  ℕ, ◌+◌, ◌-◌, ◌≡◌, Bool, true, false, not, ◌&&◌, Option, none, some, List, [], ◌∷◌, ◌++◌,
  if◌then◌else◌, ◌>>=◌, pure,
}

pub data State : Type 0 where
  suspended running parked finished dropping : State

abbrev pub is_state_finished : State → Bool
is_state_finished finished = true
is_state_finished s = false

-- The two contexts that one switches between.
pub data Side : Type 0 where
  coroutine owner : Side

abbrev pub is_owner : Side → Bool
is_owner owner = true
is_owner coroutine = false

abbrev pub Stack : Type 0
Stack = ℕ

pub record Coroutine : Type 0 where
  pub context : Option Side
  pub state : State
  pub stack : Option Stack

-- A coroutine, whose context runs, whether the owner is in the drop of the handle, and what its end leaves: the
-- stacks that the pool got back. `work_count` is the global one of a debug build.
pub record Life : Type 0 where
  pub coro : Coroutine
  pub runs : Side
  pub is_dropped : Bool
  pub is_alive : Bool
  pub work_count : ℕ
  pub given_back : List Stack

unfoldable pub take_context : Coroutine → Option (Side × Coroutine)
take_context c = elim c.context [ none ↦ none | some ctx ↦ some (ctx, record c { context = none }) ]

-- `coroutine_entry`, up to its first switch back.
unfoldable pub coroutine_entry : Stack → Coroutine
coroutine_entry stack = record { context = none; state = suspended; stack = some stack }

unfoldable pub create_coroutine : Stack → ℕ → Life
unfolding coroutine_entry
create_coroutine stack work_count = record {
  coro = record (coroutine_entry stack) { context = some coroutine };
  runs = owner;
  is_dropped = false;
  is_alive = true;
  work_count = work_count + 1;
  given_back = [];
}

-- The switch: the side that goes on stores the context of the one that it came from.
unfoldable pub yield_with : State → Life → Option Life
unfolding take_context
yield_with state l = do
  r ← take_context l.coro
  pure (record l { coro = record (r.1) { state = state; context = some l.runs }; runs = r.0 })

unfoldable pub resume : Life → Option Life
unfolding yield_with
resume l = yield_with running l

-- The end of the callback, by its return or by the unwinding. The drop keeps the context that it gets
-- to itself.
unfoldable pub finish : Life → Option Life
unfolding take_context
finish l = do
  r ← take_context (record (l.coro) { state = finished })
  pure (record l {
    coro = record (r.1) { context = if l.is_dropped then none else some l.runs };
    runs = r.0;
  })

-- `coroutine_exit`: the structure is dropped, and its stack goes to the pool of the current processor,
-- if there is one.
unfoldable pub coroutine_exit : Bool → Life → Option Life
coroutine_exit has_processor l = elim l.coro.stack [
  | none ↦
      if has_processor
      then none
      else some (record l { is_alive = false; work_count = l.work_count - 1 })
  | some stack ↦ some (record l {
    coro = record (l.coro) { state = dropping; stack = none };
    is_alive = false;
    work_count = l.work_count - 1;
    given_back = if has_processor then stack ∷ l.given_back else l.given_back;
  })
]

-- `drop` of a handle, up to the unwinding.
unfoldable pub drop_handle : Bool → Life → Option Life
unfolding take_context coroutine_exit
drop_handle has_processor l = do
  r ← take_context l.coro
  if is_state_finished l.coro.state
      then coroutine_exit has_processor (record l { coro = r.1 })
      else pure (record l {
        coro = record (r.1) { context = some l.runs };
        runs = r.0;
        is_dropped = true;
      })

-- Its end, behind the unwinding.
unfoldable pub drop_end : Bool → Life → Option Life
unfolding coroutine_exit
drop_end has_processor l = coroutine_exit has_processor l

-- What the two sides do.
pub data Action : Type 0 where
  resumes suspends parks finishes : Action
  drops ends : (has_processor : Bool) → Action

unfoldable pub act : Action → Life → Option Life
unfolding resume yield_with finish drop_handle drop_end
act resumes l = resume l
act suspends l = yield_with suspended l
act parks l = yield_with parked l
act finishes l = finish l
act (drops has_processor) l = drop_handle has_processor l
act (ends has_processor) l = drop_end has_processor l

-- When each side does it: a finished coroutine is not resumed, as the processor asserts, and one that
-- unwinds does not yield.
abbrev pub may : Action → Life → Bool
may resumes l =
    is_owner l.runs && (l.is_alive && (not l.is_dropped && not (is_state_finished l.coro.state)))
may suspends l = not (is_owner l.runs) && not l.is_dropped
may parks l = not (is_owner l.runs) && not l.is_dropped
may finishes l = not (is_owner l.runs)
may (drops has_processor) l = is_owner l.runs && (l.is_alive && not l.is_dropped)
may (ends has_processor) l = is_owner l.runs && (l.is_alive && l.is_dropped)

pub data Reach (stack work_count : ℕ) : Life → Type 0 where
  begin : Reach stack work_count (create_coroutine stack work_count)
  later :
      {l m : Life} (a : Action)
      → Reach stack work_count l
      → may a l ≡ true
      → act a l ≡ some m
      → Reach stack work_count m
