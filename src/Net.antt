-- ===== src/Net.antt =====
-- The sockets of src/net: the loops around mio's sockets, which do not block, and the choice among
-- addresses. A socket is the list of what mio answers to one attempt after the other; at its end a
-- coroutine is still parked.
pub mod Attempts
pub mod Addresses
mod Tests
use coio_rs.Base.{ℕ, Bool, true, false, Option, none, some, List, [], ◌∷◌, if◌then◌else◌}
use coio_rs.Scheduler.ReadyStates.{ReadyType, readable, writable}

pub data Error : Type 0 where
  would_block not_connected invalid_input : Error
  other : ℕ → Error

pub data Result (A : Type 0) : Type 0 where
  ok : A → Result A
  err : Error → Result A

abbrev pub and_then : {A B : Type 0} → Result A → (A → Result B) → Result B
and_then (ok a) f = f a
and_then (err e) f = err e

-- What the coroutine does on the way: it waits for its socket, or is suspended.
pub data Event : Type 0 where
  waits : ReadyType → Event
  yields : Event

-- `SyncGuard`, armed or not.
abbrev pub SyncGuard : Type 0
SyncGuard = Bool

unfoldable pub new_guard : SyncGuard
new_guard = true

unfoldable pub disarm : SyncGuard → SyncGuard
disarm guard = false

unfoldable pub drop_guard : SyncGuard → List Event
drop_guard true = yields ∷ []
drop_guard false = []

abbrev pub and_waits :
    {A : Type 0} → ReadyType → Option (Result A × List Event) → Option (Result A × List Event)
and_waits t none = none
and_waits t (some (r, events)) = some (r, waits t ∷ events)

-- The loop of `read`, `write` and `flush` of a `GenericEvented`.
unfoldable pub io_loop :
    {A : Type 0} → ReadyType → List (Result A) → SyncGuard → Option (Result A × List Event)
unfolding disarm drop_guard
io_loop t [] guard = none
io_loop t (ok a ∷ answers) guard = some (ok a, drop_guard guard)
io_loop t (err would_block ∷ answers) guard = and_waits t (io_loop t answers (disarm guard))
io_loop t (err not_connected ∷ answers) guard = and_waits t (io_loop t answers (disarm guard))
io_loop t (err invalid_input ∷ answers) guard = some (err invalid_input, drop_guard guard)
io_loop t (err (other n) ∷ answers) guard = some (err (other n), drop_guard guard)

unfoldable pub read : List (Result ℕ) → Option (Result ℕ × List Event)
unfolding io_loop new_guard
read answers = io_loop readable answers new_guard

unfoldable pub write : List (Result ℕ) → Option (Result ℕ × List Event)
unfolding io_loop new_guard
write answers = io_loop writable answers new_guard

unfoldable pub flush : List (Result Unit) → Option (Result Unit × List Event)
unfolding io_loop new_guard
flush answers = io_loop writable answers new_guard

-- The loop of `send_to` and `recv_from` of a UDP socket and of the two `accept`, where mio's answer
-- `Ok(None)` stands for "not yet".
unfoldable pub mio_loop :
    {A : Type 0} → ReadyType → List (Result (Option A)) → SyncGuard → Option (Result A × List Event)
unfolding disarm drop_guard
mio_loop t [] guard = none
mio_loop t (ok none ∷ answers) guard = and_waits t (mio_loop t answers (disarm guard))
mio_loop t (ok (some a) ∷ answers) guard = some (ok a, drop_guard guard)
mio_loop t (err e ∷ answers) guard = some (err e, drop_guard guard)

unfoldable pub send_to : List (Result (Option ℕ)) → Option (Result ℕ × List Event)
unfolding mio_loop new_guard
send_to answers = mio_loop writable answers new_guard

unfoldable pub recv_from :
    {Addr : Type 0} → List (Result (Option (ℕ × Addr))) → Option (Result (ℕ × Addr) × List Event)
unfolding mio_loop new_guard
recv_from answers = mio_loop readable answers new_guard

-- What is made of the stream that was accepted: `create` is `GenericEvented::new`.
abbrev pub created :
    {A B : Type 0}
    → (A → Result B)
    → Option (Result A × List Event)
    → Option (Result B × List Event)
created create none = none
created create (some (r, events)) = some (and_then r create, events)

unfoldable pub tcp_accept :
    {Stream B : Type 0}
    → (Stream → Result B)
    → List (Result (Option Stream))
    → Option (Result B × List Event)
unfolding mio_loop new_guard
tcp_accept create answers = created create (mio_loop readable answers new_guard)

unfoldable pub unix_accept :
    {Stream B : Type 0}
    → (Stream → Result B)
    → List (Result (Option Stream))
    → Option (Result B × List Event)
unfolding mio_loop new_guard
unix_accept create answers = created create (mio_loop readable answers new_guard)

-- The loop of `each_addr` with `last_err`.
unfoldable pub try_each :
    {Addr T : Type 0} → (Addr → Result T) → List Addr → Option Error → Result T
try_each f [] none = err invalid_input
try_each f [] (some e) = err e
try_each f (addr ∷ addrs) last_err = elim (f addr) [
  | ok t ↦ ok t
  | err e ↦ try_each f addrs (some e)
]

unfoldable pub each_addr : {Addr T : Type 0} → Result (List Addr) → (Addr → Result T) → Result T
unfolding try_each
each_addr resolved f = and_then resolved (λ addrs. try_each f addrs none)

-- `bind` of a listener and `connect` of a stream: mio's own, and `GenericEvented::new` of what it gives.
unfoldable pub tcp_bind :
    {Addr Inner B : Type 0}
    → (Addr → Result Inner)
    → (Inner → Result B)
    → Result (List Addr)
    → Result B
unfolding each_addr
tcp_bind bind create resolved = each_addr resolved (λ addr. and_then (bind addr) create)

unfoldable pub tcp_connect :
    {Addr Inner B : Type 0}
    → (Addr → Result Inner)
    → (Inner → Result B)
    → Result (List Addr)
    → Result B
unfolding each_addr
tcp_connect connect create resolved = each_addr resolved (λ addr. and_then (connect addr) create)

-- `bind` of a UDP socket, which is made for the kind of the address first.
unfoldable pub udp_bind :
    {Addr B : Type 0}
    → (Addr → Bool)
    → Result B
    → Result B
    → (B → Addr → Result Unit)
    → Result (List Addr)
    → Result B
unfolding each_addr
udp_bind is_v4 v4 v6 bind resolved = each_addr resolved (λ addr.
    and_then (if is_v4 addr then v4 else v6) (λ sock. and_then (bind sock addr) (λ _. ok sock)))
