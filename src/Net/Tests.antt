-- ===== src/Net/Tests.antt =====
-- A socket that is ready at the third attempt, and addresses of which the second works.
use coio_rs.Base.{
  ℕ, ◌≡◌, refl, Option, none, some, List, [], ◌∷◌, map, head?, get_last?, ◌==◌, if◌then◌else◌,
}
use coio_rs.Scheduler.ReadyStates.{readable, writable}
use coio_rs.Net.{
  would_block, not_connected, other, Result, ok, err, waits, read, write, flush, io_loop, mio_loop,
  new_guard, disarm, drop_guard, send_to, recv_from, created, tcp_accept, unix_accept, yields,
  each_addr, try_each,
}
use coio_rs.Net.Attempts.{of_io, of_mio, first_answer, retried, operations-retried}
use coio_rs.Net.Addresses.{successes, errors, best_of, each_addr-best_of}

read_third :
    read (err would_block ∷ err not_connected ∷ ok 7 ∷ [])
    ≡ some (ok 7, waits readable ∷ waits readable ∷ [])
unfolding read io_loop new_guard disarm drop_guard
read_third = refl

-- Every stream is registered.
abbrev opened : ℕ → Result ℕ
opened stream = ok stream

accept_first : tcp_accept opened (ok (some 4) ∷ []) ≡ some (ok 4, yields ∷ [])
unfolding tcp_accept mio_loop new_guard drop_guard
accept_first = refl

abbrev reads : List (Result ℕ)
reads = err would_block ∷ err not_connected ∷ ok 7 ∷ []

abbrev sent : List (Result (Option ℕ))
sent = ok none ∷ ok (some 9) ∷ []

abbrev datagrams : List (Result (Option (ℕ × ℕ)))
datagrams = ok none ∷ err (other 5) ∷ []

operations-retried_example :
    (read reads ≡ retried (first_answer readable of_io reads))
    × (write reads ≡ retried (first_answer writable of_io reads))
    × (flush [] ≡ retried (first_answer writable of_io []))
    × (send_to sent ≡ retried (first_answer writable of_mio sent))
    × (recv_from datagrams ≡ retried (first_answer readable of_mio datagrams))
    × (tcp_accept opened sent ≡ created opened (retried (first_answer readable of_mio sent)))
    × (unix_accept opened sent ≡ created opened (retried (first_answer readable of_mio sent)))
operations-retried_example = operations-retried reads [] sent datagrams sent opened

-- Only the address 2 can be bound.
abbrev bound : ℕ → Result ℕ
bound n = if n == 2 then ok 20 else err (other n)

second_works : each_addr (ok (1 ∷ 2 ∷ 3 ∷ [])) bound ≡ ok 20
unfolding each_addr try_each
second_works = refl

each_addr-best_of_example :
    (each_addr (ok (1 ∷ 2 ∷ 3 ∷ [])) bound
      ≡ best_of
          (head? (successes (map bound (1 ∷ 2 ∷ 3 ∷ []))))
          (get_last? (errors (map bound (1 ∷ 2 ∷ 3 ∷ [])))))
    × (each_addr (err (other 1)) bound ≡ err (other 1))
each_addr-best_of_example = each_addr-best_of bound (1 ∷ 2 ∷ 3 ∷ []) (other 1)
