-- ===== src/Promise.antt =====
-- src/promise.rs, with the parts of src/scheduler.rs on which it stands: `Scheduler::spawn_opts`, which
-- sends what becomes of the function to the join handle, and `JoinHandle::join`. The values and the
-- errors of all promises are in one type each.
--
-- A promise is the number of its coroutine. `join` takes the result out of the pair of
-- src/join_handle.rs; since it takes the handle by value, nobody looks at it again, and the result
-- stays where it is here. The options, of which only the new coroutine knows, are left out.
pub mod Direct
pub mod Sound
pub mod Progress
pub mod Compose
mod Tests
use coio_rs.Base.{
  ℕ, suc, ◌+◌, ◌<◌, Option, none, some, List, [], ◌∷◌, ◌++◌, length, get_elem?, set_at,
}

pub data Result (A B : Type 0) : Type 0 where
  ok : A → Result A B
  err : B → Result A B

-- `thread::Result`: `none` where the function panicked.
abbrev pub Caught : Type 0 → Type 0 → Type 0
Caught A B = Option (Result A B)

-- What a coroutine does: run a function, of which only what becomes of it matters, or join the one
-- with that number, unwrap and run a function on the result.
pub data Body (A B : Type 0) : Type 0 where
  runs : Caught A B → Body A B
  joins : ℕ → (Result A B → Caught A B) → Body A B

-- A coroutine with what was sent to its join handle.
pub record Coroutine (A B : Type 0) : Type 0 where
  pub body : Body A B
  pub sent : Option (Caught A B)

module _ {A B : Type 0} where
  abbrev pub spawned : Body A B → Coroutine A B
  spawned b = record { body = b; sent = none }

  -- `Promise::spawn` and `Promise::spawn_opts`.
  unfoldable pub spawn : Caught A B → Body A B
  spawn f = runs f

  -- `Promise::then`.
  unfoldable pub then_either : ℕ → (A → Caught A B) → (B → Caught A B) → Body A B
  then_either p ft fe = joins p λ r. elim r [ ok t ↦ ft t | err e ↦ fe e ]

  unfoldable pub chain : ℕ → (Result A B → Caught A B) → Body A B
  chain p f = joins p f

  unfoldable pub success : ℕ → (A → Caught A B) → Body A B
  success p f = joins p λ r. elim r [ ok t ↦ f t | err e ↦ some (err e) ]

  unfoldable pub fail : ℕ → (B → Caught A B) → Body A B
  fail p f = joins p λ r. elim r [ ok t ↦ some (ok t) | err e ↦ f e ]

  -- The result of the function, `()`, is a value as any other; the handle is dropped.
  unfoldable pub finally : ℕ → (Result A B → Option A) → Body A B
  finally p f = joins p λ r. elim (f r) [ none ↦ none | some a ↦ some (ok a) ]

  -- What `join` finds: `none` where it waits.
  unfoldable pub join : List (Coroutine A B) → ℕ → Option (Caught A B)
  join cs p = elim (get_elem? cs p) [ none ↦ none | some c ↦ c.sent ]

  -- `Promise::sync`: `none` where it waits, and a panic of the coroutine goes on in the caller.
  unfoldable pub sync : List (Coroutine A B) → ℕ → Option (Caught A B)
  unfolding join
  sync cs p = join cs p

  unfoldable pub finally_sync :
      List (Coroutine A B) → ℕ → (Result A B → Option A) → Option (Option A)
  unfolding sync
  finally_sync cs p f = elim (sync cs p) [
    | none ↦ none
    | some none ↦ some none
    | some (some r) ↦ some (f r)
  ]

  -- What the wrapper of `spawn_opts` has to send, `none` where the coroutine waits: `catch_unwind`
  -- also catches the panic of an `unwrap`.
  unfoldable pub body_result : List (Coroutine A B) → Body A B → Option (Caught A B)
  unfolding join
  body_result cs (runs r) = some r
  body_result cs (joins p f) = elim (join cs p) [
    | none ↦ none
    | some none ↦ some none
    | some (some r) ↦ some (f r)
  ]

  -- The coroutine of that number gets the processor: it goes on if it is not done and does not wait.
  unfoldable pub resume : List (Coroutine A B) → ℕ → List (Coroutine A B)
  unfolding body_result
  resume cs i = elim (get_elem? cs i) [
    | none ↦ cs
    | some c ↦ elim c.sent [
      | some r ↦ cs
      | none ↦ elim (body_result cs c.body) [
        | none ↦ cs
        | some r ↦ set_at i (record { body = c.body; sent = some r }) cs
      ]
    ]
  ]

  -- Who makes a promise from a promise has that one, so that it was made before.
  abbrev pub IsMade : ℕ → Body A B → Type 0
  IsMade n (runs r) = Unit
  IsMade n (joins p f) = p < n

  pub data Reach : List (Coroutine A B) → Type 0 where
    begin : Reach []
    spawns :
        {cs : List (Coroutine A B)} (b : Body A B)
        → Reach cs
        → IsMade (length cs) b
        → Reach (cs ++ (spawned b ∷ []))
    resumes : {cs : List (Coroutine A B)} (i : ℕ) → Reach cs → Reach (resume cs i)
