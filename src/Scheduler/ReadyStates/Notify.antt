-- ===== src/Scheduler/ReadyStates/Notify.antt =====
-- What `notify` of src/scheduler.rs does for each kind of event.
use coio_rs.Base.{
  ◌≡◌, refl, ap, ap₂, ◌∙◌, Bool, true, false, Option, none, some, List, [], ◌∷◌, ◌++◌, arith,
  if◌then◌else◌,
}
use mathlib.Core.List.{append-nil}
use coio_rs.Sync.Semaphore.{Handle}
use coio_rs.Scheduler.ReadyStates.{
  ReadyType, readable, writable, error, hup, same, ReadyStates, notify_one, notify,
}

abbrev pub found_in : Bool → Option Handle → List Handle
found_in false o = []
found_in true none = []
found_in true (some coro) = coro ∷ []

-- What is found in a slot when its event comes.
abbrev pub found_at : (ReadyType → Bool) → ReadyStates → ReadyType → List Handle
found_at event_set s t = found_in (event_set t) (s.handles t)

-- What an event does to its slot: it takes the handle there, or is kept if there is none.
abbrev pub Notified : (ReadyType → Bool) → ReadyStates → ReadyStates → ReadyType → Type 0
Notified event_set s r t =
    (r.handles t ≡ (if event_set t then none else s.handles t))
    × (r.events t ≡ (
        if event_set t
        then elim (s.handles t) [ none ↦ true | some coro ↦ s.events t ]
        else s.events t))

notify_one-found :
    (event_set : ReadyType → Bool) (t : ReadyType) (p : List Handle × ReadyStates)
    → (notify_one event_set t p).0 ≡ p.0 ++ found_at event_set p.1 t
unfolding notify_one
notify_one-found event_set t p = ground (arith, append-nil p.0)

notify_one-Notified :
    (event_set : ReadyType → Bool) (t : ReadyType) (p : List Handle × ReadyStates)
    → same t t ≡ true
    → Notified event_set p.1 (notify_one event_set t p).1 t
unfolding notify_one
notify_one-Notified event_set t p e = ground arith

notify_one-other :
    (event_set : ReadyType → Bool) (t u : ReadyType) (p : List Handle × ReadyStates)
    → same t u ≡ false
    → ((notify_one event_set t p).1.handles u ≡ p.1.handles u)
      × ((notify_one event_set t p).1.events u ≡ p.1.events u)
unfolding notify_one
notify_one-other event_set t u p e = ground arith

module _ (event_set : ReadyType → Bool) (s : ReadyStates) where
  abbrev after_readable : List Handle × ReadyStates
  after_readable = notify_one event_set readable ([], s)

  abbrev after_writable : List Handle × ReadyStates
  after_writable = notify_one event_set writable after_readable

  abbrev after_error : List Handle × ReadyStates
  after_error = notify_one event_set error after_writable

  notify-Notified : (t : ReadyType) → Notified event_set s (notify event_set s).1 t
  unfolding notify
  notify-Notified readable = ground (
    arith,
    notify_one-Notified event_set readable ([], s) refl,
    notify_one-other event_set writable readable after_readable refl,
    notify_one-other event_set error readable after_writable refl,
    notify_one-other event_set hup readable after_error refl,
  )
  notify-Notified writable = ground (
    arith,
    notify_one-other event_set readable writable ([], s) refl,
    notify_one-Notified event_set writable after_readable refl,
    notify_one-other event_set error writable after_writable refl,
    notify_one-other event_set hup writable after_error refl,
  )
  notify-Notified error = ground (
    arith,
    notify_one-other event_set readable error ([], s) refl,
    notify_one-other event_set writable error after_readable refl,
    notify_one-Notified event_set error after_writable refl,
    notify_one-other event_set hup error after_error refl,
  )
  notify-Notified hup = ground (
    arith,
    notify_one-other event_set readable hup ([], s) refl,
    notify_one-other event_set writable hup after_readable refl,
    notify_one-other event_set error hup after_writable refl,
    notify_one-Notified event_set hup after_error refl,
  )

  notify-found :
      (notify event_set s).0
      ≡ ((found_at event_set s readable ++ found_at event_set s writable)
          ++ found_at event_set s error)
        ++ found_at event_set s hup
  unfolding notify
  notify-found =
      let from_writable = (notify_one-other event_set readable writable ([], s) refl).0 in
      let from_error =
        (notify_one-other event_set writable error after_readable refl).0
        ∙ (notify_one-other event_set readable error ([], s) refl).0 in
      let from_hup =
        (notify_one-other event_set error hup after_writable refl).0
        ∙ (notify_one-other event_set writable hup after_readable refl).0
        ∙ (notify_one-other event_set readable hup ([], s) refl).0 in
      notify_one-found event_set hup after_error
      ∙ ap₂ (◌++◌)
          (notify_one-found event_set error after_writable
            ∙ ap₂ (◌++◌)
                (notify_one-found event_set writable after_readable
                  ∙ ap₂ (◌++◌) (notify_one-found event_set readable ([], s))
                      (ap (found_in (event_set writable)) from_writable))
                (ap (found_in (event_set error)) from_error))
          (ap (found_in (event_set hup)) from_hup)

  -- `notify` gives the handles in the slots of the events that it is told, in the order of the slots,
  -- and takes them out; an event whose slot is empty goes to the event set; all else stays.
  pub notify_lem :
      ((notify event_set s).0
        ≡ ((found_at event_set s readable ++ found_at event_set s writable)
            ++ found_at event_set s error)
          ++ found_at event_set s hup)
      × ((t : ReadyType) → Notified event_set s (notify event_set s).1 t)
  notify_lem = (notify-found, notify-Notified)
