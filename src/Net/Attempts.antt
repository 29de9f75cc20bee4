-- ===== src/Net/Attempts.antt =====
-- What the loops of src/net come to: the first answer that ends them, and how often they wait.
use coio_rs.Base.{ℕ, ◌≡◌, refl, ap, ◌∙◌, true, false, Option, none, some, List, [], ◌∷◌}
use coio_rs.Scheduler.ReadyStates.{ReadyType, readable, writable}
use coio_rs.Net.{
  would_block, not_connected, invalid_input, other, Result, ok, err, Event, waits, yields,
  new_guard, disarm, drop_guard, and_waits, io_loop, read, write, flush, mio_loop, send_to,
  recv_from, created, tcp_accept, unix_accept,
}

-- The answers that end a loop, with the result.
abbrev pub of_io : {A : Type 0} → Result A → Option (Result A)
of_io (err would_block) = none
of_io (err not_connected) = none
of_io (err invalid_input) = some (err invalid_input)
of_io (err (other n)) = some (err (other n))
of_io (ok a) = some (ok a)

abbrev pub of_mio : {A : Type 0} → Result (Option A) → Option (Result A)
of_mio (ok none) = none
of_mio (ok (some a)) = some (ok a)
of_mio (err e) = some (err e)

-- The waits for the answers in front of the first that ends, and its result.
abbrev pub later_answer :
    {B : Type 0} → ReadyType → Option (List Event × B) → Option (List Event × B)
later_answer t none = none
later_answer t (some (events, b)) = some (waits t ∷ events, b)

abbrev pub first_answer :
    {A B : Type 0} → ReadyType → (A → Option B) → List A → Option (List Event × B)
first_answer t ends [] = none
first_answer t ends (a ∷ answers) = elim (ends a) [
  | some b ↦ some ([], b)
  | none ↦ later_answer t (first_answer t ends answers)
]

-- One who never waited yields.
abbrev pub or_yields : List Event → List Event
or_yields [] = yields ∷ []
or_yields (e ∷ events) = e ∷ events

-- An operation that retries until an answer ends it.
abbrev pub retried : {B : Type 0} → Option (List Event × Result B) → Option (Result B × List Event)
retried none = none
retried (some (events, b)) = some (b, or_yields events)

-- The same with a guard that was disarmed.
abbrev in_order : {B : Type 0} → Option (List Event × Result B) → Option (Result B × List Event)
in_order none = none
in_order (some (events, b)) = some (b, events)

retried-later :
    {B : Type 0} (t : ReadyType) (o : Option (List Event × Result B))
    → and_waits t (in_order o) ≡ retried (later_answer t o)
retried-later t none = refl
retried-later t (some (events, b)) = refl

in_order-later :
    {B : Type 0} (t : ReadyType) (o : Option (List Event × Result B))
    → and_waits t (in_order o) ≡ in_order (later_answer t o)
in_order-later t none = refl
in_order-later t (some (events, b)) = refl

io_loop-disarmed :
    {A : Type 0} (t : ReadyType) (answers : List (Result A))
    → io_loop t answers false ≡ in_order (first_answer t of_io answers)
unfolding io_loop disarm drop_guard
io_loop-disarmed t [] = refl
io_loop-disarmed t (ok a ∷ answers) = refl
io_loop-disarmed t (err would_block ∷ answers) =
    ap (and_waits t) (io_loop-disarmed t answers) ∙ in_order-later t (first_answer t of_io answers)
io_loop-disarmed t (err not_connected ∷ answers) =
    ap (and_waits t) (io_loop-disarmed t answers) ∙ in_order-later t (first_answer t of_io answers)
io_loop-disarmed t (err invalid_input ∷ answers) = refl
io_loop-disarmed t (err (other n) ∷ answers) = refl

io_loop-retried :
    {A : Type 0} (t : ReadyType) (answers : List (Result A))
    → io_loop t answers true ≡ retried (first_answer t of_io answers)
unfolding io_loop disarm drop_guard
io_loop-retried t [] = refl
io_loop-retried t (ok a ∷ answers) = refl
io_loop-retried t (err would_block ∷ answers) =
    ap (and_waits t) (io_loop-disarmed t answers) ∙ retried-later t (first_answer t of_io answers)
io_loop-retried t (err not_connected ∷ answers) =
    ap (and_waits t) (io_loop-disarmed t answers) ∙ retried-later t (first_answer t of_io answers)
io_loop-retried t (err invalid_input ∷ answers) = refl
io_loop-retried t (err (other n) ∷ answers) = refl

mio_loop-disarmed :
    {A : Type 0} (t : ReadyType) (answers : List (Result (Option A)))
    → mio_loop t answers false ≡ in_order (first_answer t of_mio answers)
unfolding mio_loop disarm drop_guard
mio_loop-disarmed t [] = refl
mio_loop-disarmed t (ok none ∷ answers) =
    ap (and_waits t) (mio_loop-disarmed t answers)
    ∙ in_order-later t (first_answer t of_mio answers)
mio_loop-disarmed t (ok (some a) ∷ answers) = refl
mio_loop-disarmed t (err e ∷ answers) = refl

mio_loop-retried :
    {A : Type 0} (t : ReadyType) (answers : List (Result (Option A)))
    → mio_loop t answers true ≡ retried (first_answer t of_mio answers)
unfolding mio_loop disarm drop_guard
mio_loop-retried t [] = refl
mio_loop-retried t (ok none ∷ answers) =
    ap (and_waits t) (mio_loop-disarmed t answers) ∙ retried-later t (first_answer t of_mio answers)
mio_loop-retried t (ok (some a) ∷ answers) = refl
mio_loop-retried t (err e ∷ answers) = refl

-- Whatever mio answers to one attempt after the other: read, write, flush, send_to, recv_from and
-- both accepts wait once for each answer that says not yet, in front of the first that does not,
-- which is their result, and yield to the scheduler exactly if they have not waited; with no such
-- answer they do not end.
pub operations-retried :
    {Addr Stream B : Type 0} (ns : List (Result ℕ)) (us : List (Result Unit))
    (os : List (Result (Option ℕ))) (ps : List (Result (Option (ℕ × Addr))))
    (ss : List (Result (Option Stream))) (create : Stream → Result B)
    → (read ns ≡ retried (first_answer readable of_io ns))
      × (write ns ≡ retried (first_answer writable of_io ns))
      × (flush us ≡ retried (first_answer writable of_io us))
      × (send_to os ≡ retried (first_answer writable of_mio os))
      × (recv_from ps ≡ retried (first_answer readable of_mio ps))
      × (tcp_accept create ss ≡ created create (retried (first_answer readable of_mio ss)))
      × (unix_accept create ss ≡ created create (retried (first_answer readable of_mio ss)))
unfolding read write flush send_to recv_from tcp_accept unix_accept new_guard
operations-retried ns us os ps ss create = (
  io_loop-retried readable ns,
  io_loop-retried writable ns,
  io_loop-retried writable us,
  mio_loop-retried writable os,
  mio_loop-retried readable ps,
  ap (created create) (mio_loop-retried readable ss),
  ap (created create) (mio_loop-retried readable ss),
)
