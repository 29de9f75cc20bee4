-- ===== src/JoinHandle/Exchange.antt =====
-- A result of src/join_handle.rs that is pushed and popped, in every order of the steps of the two sides.
use coio_rs.Base.{◌≡◌, ◌⊎◌, refl, subst, Bool, true, false, Option, none, some, arith}
use coio_rs.Sync.Semaphore.{Handle}
use coio_rs.Sync.MonoBarrier.{
  State, empty, ready, thread, coroutine, Woken, no_one, one_thread, one_coroutine, wait,
  wait_round, notify,
}
use coio_rs.Sync.MonoBarrier as B
use coio_rs.JoinHandle.{
  JoinHandleInner, handle_pair, push_write, push_notify, Pop, popped, panics, waits_parked,
  waits_blocked, pop_take, pop_waited, pop, pop_resume,
}

-- How far the sender is with `push`.
pub data Sender : Type 0 where
  unsent written notified : Sender

-- Where the receiver is: in front of `pop`, parked as a coroutine, made ready again, on the condition
-- variable, taken off it, behind `pop` with a result, or panicking.
pub data Receiver (A : Type 0) : Type 0 where
  outside on_cond off_cond panicked : Receiver A
  parked_as resumed : Handle → Receiver A
  got : A → Receiver A

-- `spurious` is set when the condition variable has woken the receiver for no reason.
pub record World (A : Type 0) : Type 0 where
  pub inner : JoinHandleInner A
  pub sender : Sender
  pub receiver : Receiver A
  pub spurious : Bool

module _ {A : Type 0} where
  abbrev pub start : World A
  start = record { inner = handle_pair; sender = unsent; receiver = outside; spurious = false }

  abbrev pub world : JoinHandleInner A → Sender → Receiver A → Bool → World A
  world i s r u = record { inner = i; sender = s; receiver = r; spurious = u }

  abbrev pub after_pop : Option Handle → Sender → Bool → Pop A × JoinHandleInner A → World A
  after_pop caller s u (popped result, i) = world i s (got result) u
  after_pop caller s u (panics, i) = world i s panicked u
  after_pop none s u (waits_parked, i) = world i s panicked u
  after_pop (some coro) s u (waits_parked, i) = world i s (parked_as coro) u
  after_pop caller s u (waits_blocked, i) = world i s on_cond u

  abbrev pub off : Receiver A → Receiver A
  off on_cond = off_cond
  off outside = outside
  off off_cond = off_cond
  off panicked = panicked
  off (parked_as coro) = parked_as coro
  off (resumed coro) = resumed coro
  off (got result) = got result

  abbrev pub after_notify : Receiver A → Bool → Woken × JoinHandleInner A → World A
  after_notify r u (no_one, i) = world i notified r u
  after_notify r u (one_thread, i) = world i notified (off r) u
  after_notify r u (one_coroutine coro, i) = world i notified (resumed coro) u

module _ {A : Type 0} (result : A) where
  pub data Step (w : World A) : World A → Type 0 where
    writes :
        w.sender ≡ unsent → Step w (world (push_write result w.inner) written w.receiver w.spurious)
    notifies :
        w.sender ≡ written → Step w (after_notify w.receiver w.spurious (push_notify w.inner))
    pops :
        (caller : Option Handle)
        → w.receiver ≡ outside
        → Step w (after_pop caller w.sender w.spurious (pop caller w.inner))
    wakes :
        w.receiver ≡ off_cond
        → Step w (after_pop none w.sender w.spurious (pop_resume none w.inner))
    wakes_early :
        w.receiver ≡ on_cond → Step w (after_pop none w.sender true (pop_resume none w.inner))
    resumes :
        (coro : Handle)
        → w.receiver ≡ resumed coro
        → Step w (after_pop (some coro) w.sender w.spurious (pop_resume (some coro) w.inner))

  pub data Reach : World A → Type 0 where
    begin : Reach start
    later : {v w : World A} → Reach v → Step v w → Reach w

  -- What is in the cell before the receiver has taken it.
  abbrev pub Holds : Sender → Option A → Type 0
  Holds unsent c = c ≡ none
  Holds written c = c ≡ some result
  Holds notified c = c ≡ some result

  -- The barrier of a receiver that has not been woken and of one that is in front of `pop`.
  abbrev pub Waits : State → Sender → State → Type 0
  Waits s unsent b = b ≡ s
  Waits s written b = b ≡ s
  Waits s notified b = ⊥

  abbrev pub Before : Sender → State → Type 0
  Before unsent b = b ≡ empty
  Before written b = b ≡ empty
  Before notified b = b ≡ ready

  -- What goes with each place of the receiver.
  abbrev pub Exchanges : World A → Type 0
  Exchanges w = elim w.receiver [
    | outside ↦ Before w.sender w.inner.barrier × Holds w.sender w.inner.cell
    | on_cond ↦ Waits thread w.sender w.inner.barrier × Holds w.sender w.inner.cell
    | parked_as coro ↦ Waits (coroutine coro) w.sender w.inner.barrier × Holds w.sender w.inner.cell
    | off_cond ↦ (w.sender ≡ notified) × (w.inner.barrier ≡ ready) × (w.inner.cell ≡ some result)
    | resumed coro ↦
        (w.sender ≡ notified) × (w.inner.barrier ≡ empty) × (w.inner.cell ≡ some result)
    | got r ↦
        (r ≡ result) × (w.sender ≡ notified) × (w.inner.barrier ≡ empty) × (w.inner.cell ≡ none)
    | panicked ↦ (w.spurious ≡ true) × ((w.inner.barrier ≡ thread) ⊎ (w.inner.barrier ≡ ready))
  ]

  writes-Exchanges :
      (i : JoinHandleInner A) (r : Receiver A) (u : Bool)
      → Exchanges (world i unsent r u)
      → Exchanges (world (push_write result i) written r u)
  unfolding push_write
  writes-Exchanges i outside u v = (v.0, refl)
  writes-Exchanges i on_cond u v = (v.0, refl)
  writes-Exchanges i (parked_as coro) u v = (v.0, refl)
  writes-Exchanges i off_cond u v = ground arith
  writes-Exchanges i (resumed coro) u v = ground arith
  writes-Exchanges i (got r) u v = ground arith
  writes-Exchanges i panicked u v = v

  notifies-Exchanges :
      (b : State) (c : Option A) (r : Receiver A) (u : Bool)
      → Exchanges (world (record { barrier = b; cell = c }) written r u)
      → Exchanges (after_notify r u (push_notify (record { barrier = b; cell = c })))
  unfolding push_notify notify
  notifies-Exchanges empty c r u v = ground arith
  notifies-Exchanges ready c r u v = ground arith
  notifies-Exchanges thread c r u v = ground arith
  notifies-Exchanges (coroutine coro) c r u v = ground arith

  pops-Exchanges :
      (b : State) (c : Option A) (s : Sender) (caller : Option Handle) (u : Bool)
      → Exchanges (world (record { barrier = b; cell = c }) s outside u)
      → Exchanges (after_pop caller s u (pop caller (record { barrier = b; cell = c })))
  unfolding pop pop_waited pop_take wait wait_round
  pops-Exchanges empty c s none u v = ground arith
  pops-Exchanges empty c s (some coro) u v = ground arith
  pops-Exchanges ready c s none u v = ground arith
  pops-Exchanges ready c s (some coro) u v = ground arith
  pops-Exchanges thread c s caller u v = ground arith
  pops-Exchanges (coroutine coro) c s caller u v = ground arith

  wakes-Exchanges :
      (b : State) (c : Option A) (s : Sender) (u : Bool)
      → Exchanges (world (record { barrier = b; cell = c }) s off_cond u)
      → Exchanges (after_pop none s u (pop_resume none (record { barrier = b; cell = c })))
  unfolding pop_resume pop_waited pop_take wait_round
  wakes-Exchanges b c s u v = ground arith

  wakes_early-Exchanges :
      (b : State) (c : Option A) (s : Sender) (u : Bool)
      → Exchanges (world (record { barrier = b; cell = c }) s on_cond u)
      → Exchanges (after_pop none s true (pop_resume none (record { barrier = b; cell = c })))
  unfolding pop_resume pop_waited pop_take wait_round
  wakes_early-Exchanges b c s u v = ground arith

  resumes-Exchanges :
      (b : State) (c : Option A) (s : Sender) (coro : Handle) (u : Bool)
      → Exchanges (world (record { barrier = b; cell = c }) s (resumed coro) u)
      → Exchanges
          (after_pop (some coro) s u (pop_resume (some coro) (record { barrier = b; cell = c })))
  unfolding pop_resume pop_take
  resumes-Exchanges b c s coro u v = ground arith

  Step-Exchanges : {v w : World A} → Step v w → Exchanges v → Exchanges w
  Step-Exchanges {v} (writes e) h =
      writes-Exchanges v.inner v.receiver v.spurious
        (subst (λ s. Exchanges (world v.inner s v.receiver v.spurious)) e h)
  Step-Exchanges {v} (notifies e) h =
      notifies-Exchanges v.inner.barrier v.inner.cell v.receiver v.spurious
        (subst (λ s. Exchanges (world v.inner s v.receiver v.spurious)) e h)
  Step-Exchanges {v} (pops caller e) h =
      pops-Exchanges v.inner.barrier v.inner.cell v.sender caller v.spurious
        (subst (λ r. Exchanges (world v.inner v.sender r v.spurious)) e h)
  Step-Exchanges {v} (wakes e) h =
      wakes-Exchanges v.inner.barrier v.inner.cell v.sender v.spurious
        (subst (λ r. Exchanges (world v.inner v.sender r v.spurious)) e h)
  Step-Exchanges {v} (wakes_early e) h =
      wakes_early-Exchanges v.inner.barrier v.inner.cell v.sender v.spurious
        (subst (λ r. Exchanges (world v.inner v.sender r v.spurious)) e h)
  Step-Exchanges {v} (resumes coro e) h =
      resumes-Exchanges v.inner.barrier v.inner.cell v.sender coro v.spurious
        (subst (λ r. Exchanges (world v.inner v.sender r v.spurious)) e h)

  -- A pair whose result is pushed once and popped once, by a coroutine or by a thread, in every
  -- order of the steps of both sides, where the condition variable may also wake the receiver for
  -- no reason: a result that pop gives is the one that was pushed, and the pair is left empty; once
  -- push has notified, the receiver is not parked or on the condition variable any more, and if it
  -- is woken and not through, the result is in the cell; pop panics only behind a wake-up for no
  -- reason.
  pub Reach-Exchanges : {w : World A} → Reach w → Exchanges w
  unfolding handle_pair B.new
  Reach-Exchanges begin = (refl, refl)
  Reach-Exchanges (later r st) = Step-Exchanges st (Reach-Exchanges r)
