-- ===== src/Scheduler/EventLoop/Waiting.antt =====
-- The coroutines that wait in the shared `ReadyStates` of src/scheduler.rs.
use coio_rs.Base.{
  ◌+◌, ◌≡◌, refl, ap, ◌∙◌, Bool, false, Option, none, some, List, [], ◌∷◌, ◌++◌, arith, gather,
  count_of, count_of-append,
}
use coio_rs.Scheduler.ReadyStates.{
  ReadyType, readable, writable, error, hup, ReadyStates, new, notify, wait_parked,
}
use coio_rs.Scheduler.ReadyStates.Notify.{found_at, Notified, notify_lem}
use coio_rs.Sync.Semaphore.{Handle}

abbrev pub in_slot : Option Handle → List Handle
in_slot none = []
in_slot (some coro) = coro ∷ []

abbrev pub handles_of : ReadyStates → List Handle
handles_of r =
    ((in_slot (r.handles readable) ++ in_slot (r.handles writable)) ++ in_slot (r.handles error))
    ++ in_slot (r.handles hup)

-- The coroutines that wait for an event.
abbrev pub waiting : List ReadyStates → List Handle
waiting rs = gather handles_of rs

count_of_slots :
    (c : Handle) (ws xs ys zs : List Handle)
    → count_of c (((ws ++ xs) ++ ys) ++ zs)
      ≡ count_of c ws + count_of c xs + count_of c ys + count_of c zs
count_of_slots c ws xs ys zs = omega (
  arith,
  count_of-append c ((ws ++ xs) ++ ys) zs,
  count_of-append c (ws ++ xs) ys,
  count_of-append c ws xs,
)

found_at-count_of :
    (c : Handle) (events : ReadyType → Bool) (r s : ReadyStates) (t : ReadyType)
    → Notified events r s t
    → count_of c (found_at events r t) + count_of c (in_slot (s.handles t))
      ≡ count_of c (in_slot (r.handles t))
unfolding count_of
found_at-count_of c events r s t h = ground arith

pub notify-count_of :
    (c : Handle) (events : ReadyType → Bool) (r : ReadyStates)
    → count_of c (notify events r).0 + count_of c (handles_of (notify events r).1)
      ≡ count_of c (handles_of r)
notify-count_of c events r =
    let s = (notify events r).1 in
    let kept_at = λ (t : ReadyType). found_at-count_of c events r s t ((notify_lem events r).1 t) in
    ap (λ hs. count_of c hs + count_of c (handles_of s)) (notify_lem events r).0
    ∙ omega (
      arith,
      count_of_slots c (found_at events r readable) (found_at events r writable)
          (found_at events r error) (found_at events r hup),
      count_of_slots c (in_slot (s.handles readable)) (in_slot (s.handles writable))
          (in_slot (s.handles error)) (in_slot (s.handles hup)),
      count_of_slots c (in_slot (r.handles readable)) (in_slot (r.handles writable))
          (in_slot (r.handles error)) (in_slot (r.handles hup)),
      kept_at readable,
      kept_at writable,
      kept_at error,
      kept_at hup,
    )

pub wait_parked-count_of :
    (c coro : Handle) (t : ReadyType) (r : ReadyStates)
    → r.events t ≡ false
    → r.handles t ≡ none
    → count_of c (handles_of (wait_parked t coro r).1)
      ≡ count_of c (handles_of r) + count_of c (coro ∷ [])
unfolding wait_parked count_of
wait_parked-count_of c coro readable r e f = ground arith
wait_parked-count_of c coro writable r e f = ground arith
wait_parked-count_of c coro error r e f = ground arith
wait_parked-count_of c coro hup r e f = ground arith

pub waiting-append :
    (c : Handle) (rs : List ReadyStates)
    → count_of c (waiting (rs ++ (new ∷ []))) ≡ count_of c (waiting rs)
unfolding new count_of
waiting-append c [] = refl
waiting-append c (q ∷ rs) = omega (
  arith,
  waiting-append c rs,
  count_of-append c (handles_of q) (waiting rs),
  count_of-append c (handles_of q) (waiting (rs ++ (new ∷ []))),
)
