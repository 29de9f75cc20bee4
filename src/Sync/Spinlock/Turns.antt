-- ===== src/Sync/Spinlock/Turns.antt =====
-- Any number of threads at a `TicketSpinlock` of src/sync/spinlock.rs.
use coio_rs.Base.{
  ℕ, zero, suc, ◌+◌, ◌≤◌, ◌<◌, ◌≡◌, ◌⊎◌, ◌↔◌, refl, inl, inr, sym, ap, ◌∙◌, Option, none, some,
  List, [], ◌∷◌, ◌++◌, arith, usize_mod, wrapping_add, length, length-append,
}
use coio_rs.Sync.Spinlock.{TicketSpinlock, new, take_ticket, guard, lock_round, unlock}

-- The lock, the tickets of those that spin in the order in which they were taken, and the guard.
pub record World : Type 0 where
  pub lock : TicketSpinlock
  pub waiting : List ℕ
  pub holder : Option ℕ

abbrev pub world : TicketSpinlock → List ℕ → Option ℕ → World
world l ws h = record { lock = l; waiting = ws; holder = h }

-- There are fewer than 2^64 threads. Any of those that spin may do the next round.
pub data Step (s : World) : World → Type 0 where
  takes :
      suc (length s.waiting) + 1 < usize_mod
      → Step s (world (take_ticket s.lock).1 (s.waiting ++ ((take_ticket s.lock).0 ∷ [])) s.holder)
  enters :
      (xs ys : List ℕ) (t next : ℕ)
      → s.waiting ≡ xs ++ (t ∷ ys)
      → lock_round t s.lock ≡ guard next
      → Step s (world s.lock (xs ++ ys) (some next))
  leaves : (next : ℕ) → s.holder ≡ some next → Step s (world (unlock next s.lock) s.waiting none)

pub data Reach : World → Type 0 where
  begin : Reach (world new [] none)
  later : {s t : World} → Reach s → Step s t → Reach t

abbrev pub tickets : ℕ → ℕ → List ℕ
tickets zero t = []
tickets (suc n) t = t ∷ tickets n (wrapping_add t 1)

abbrev pub held : Option ℕ → ℕ
held none = 0
held (some next) = 1

pub record InTurn (s : World) : Type 0 where
  pub in_turn : s.waiting ≡ tickets (length s.waiting) (wrapping_add s.lock.tock (held s.holder))
  pub next_ticket : s.lock.tick ≡ wrapping_add s.lock.tock (held s.holder + length s.waiting)
  pub word : s.lock.tock < usize_mod
  pub few : held s.holder + length s.waiting < usize_mod
  pub guarded : (s.holder ≡ none) ⊎ (s.holder ≡ some (wrapping_add s.lock.tock 1))

length-tickets : (n t : ℕ) → length (tickets n t) ≡ n
length-tickets zero t = refl
length-tickets (suc n) t = omega (arith, length-tickets n (wrapping_add t 1))

tickets-snoc :
    (n t : ℕ) → t < usize_mod → tickets n t ++ (wrapping_add t n ∷ []) ≡ tickets (suc n) t
tickets-snoc zero t small = ap (◌∷ []) (omega arith)
tickets-snoc (suc n) t small = ap (t ∷◌) (
    ap (λ u. tickets n (wrapping_add t 1) ++ (u ∷ [])) (omega arith)
    ∙ tickets-snoc n (wrapping_add t 1) (omega arith))

-- The ticket behind `xs` in a row of tickets.
tickets-at :
    (xs ys : List ℕ) (n t u : ℕ)
    → t < usize_mod
    → tickets n t ≡ xs ++ (u ∷ ys)
    → u ≡ wrapping_add t (length xs)
tickets-at [] ys zero t u small e = absurd (ground arith)
tickets-at [] ys (suc n) t u small e = ground arith
tickets-at (x ∷ xs) ys zero t u small e = absurd (ground arith)
tickets-at (x ∷ xs) ys (suc n) t u small e =
    let r = tickets-at xs ys n (wrapping_add t 1) u (omega arith) (ground arith) in omega (arith, r)

abbrev tail : List ℕ → List ℕ
tail [] = []
tail (t ∷ ts) = ts

lock_round-guard :
    (t next : ℕ) (l : TicketSpinlock)
    → lock_round t l ≡ guard next
    → (t ≡ l.tock) × (next ≡ wrapping_add l.tock 1)
unfolding lock_round
lock_round-guard t next l e = ground arith

-- The ticket that is served is the first, and nobody holds a guard.
enters-first :
    (s : World) (xs ys : List ℕ) (t next : ℕ)
    → InTurn s
    → s.waiting ≡ xs ++ (t ∷ ys)
    → lock_round t s.lock ≡ guard next
    → (held s.holder ≡ 0) × (length xs ≡ 0)
enters-first s xs ys t next v e g =
    let r = lock_round-guard t next s.lock g in
    let at =
      tickets-at xs ys (length s.waiting) (wrapping_add s.lock.tock (held s.holder)) t (omega arith)
        (sym v.in_turn ∙ e) in
    let n = ap length e ∙ length-append xs (t ∷ ys) in omega (arith, r.0, at, n, v.few, v.word)

takes-InTurn :
    (s : World)
    → suc (length s.waiting) + 1 < usize_mod
    → InTurn s
    → InTurn (world (take_ticket s.lock).1 (s.waiting ++ ((take_ticket s.lock).0 ∷ [])) s.holder)
unfolding take_ticket
takes-InTurn s small v =
    let n = length-append s.waiting (s.lock.tick ∷ []) in
    let one : held s.holder ≤ 1 = ground (arith, v.guarded) in
    record {
      in_turn =
          ap (λ ws. ws ++ (s.lock.tick ∷ [])) v.in_turn
          ∙ ap
              (λ u.
                tickets (length s.waiting) (wrapping_add s.lock.tock (held s.holder)) ++ (u ∷ []))
              (omega (arith, v.next_ticket))
          ∙ tickets-snoc (length s.waiting) (wrapping_add s.lock.tock (held s.holder)) (omega arith)
          ∙ ap (λ k. tickets k (wrapping_add s.lock.tock (held s.holder)))
              {x = suc (length s.waiting)} {y = length (s.waiting ++ (s.lock.tick ∷ []))}
              (omega (arith, n));
      next_ticket = omega (arith, n, v.next_ticket);
      word = v.word;
      few = omega (arith, n, one);
      guarded = v.guarded;
    }

enters-InTurn :
    (s : World) (xs ys : List ℕ) (t next : ℕ)
    → InTurn s
    → s.waiting ≡ xs ++ (t ∷ ys)
    → lock_round t s.lock ≡ guard next
    → InTurn (world s.lock (xs ++ ys) (some next))
enters-InTurn s [] ys t next v e g =
    let r = lock_round-guard t next s.lock g in
    let f = enters-first s [] ys t next v e g in
    let n = ap length e in
    record {
      in_turn =
          sym (ap tail e)
          ∙ ap tail v.in_turn
          ∙ ap (λ k. tail (tickets k (wrapping_add s.lock.tock (held s.holder)))) n
          ∙ ap (tickets (length ys)) (omega (arith, f.0, v.word));
      next_ticket = omega (arith, n, f.0, v.next_ticket);
      word = v.word;
      few = omega (arith, n, f.0, v.few);
      guarded = inr (ap some r.1);
    }
enters-InTurn s (x ∷ xs) ys t next v e g =
    absurd (omega (arith, (enters-first s (x ∷ xs) ys t next v e g).1))

leaves-InTurn :
    (s : World) (next : ℕ)
    → s.holder ≡ some next
    → InTurn s
    → InTurn (world (unlock next s.lock) s.waiting none)
unfolding unlock
leaves-InTurn s next e v =
    let same : next ≡ wrapping_add s.lock.tock 1 = ground (arith, v.guarded) in
    let h : held s.holder ≡ 1 = ap held e in
    record {
      in_turn = v.in_turn ∙ ap (tickets (length s.waiting)) (omega (arith, same, h, v.word));
      next_ticket = omega (arith, same, h, v.next_ticket, v.word);
      word = omega (arith, same);
      few = omega (arith, h, v.few);
      guarded = inl refl;
    }

Step-InTurn : {s t : World} → Step s t → InTurn s → InTurn t
Step-InTurn {s} (takes small) v = takes-InTurn s small v
Step-InTurn {s} (enters xs ys t next e g) v = enters-InTurn s xs ys t next v e g
Step-InTurn {s} (leaves next e) v = leaves-InTurn s next e v

-- The tickets of those that spin are those behind the one that is served, in the order in which they
-- were taken, also when the counters wrap, and a guard holds the ticket behind the one that is served.
Reach-InTurn : {s : World} → Reach s → InTurn s
unfolding new
Reach-InTurn begin = record {
  in_turn = refl;
  next_ticket = refl;
  word = omega arith;
  few = omega arith;
  guarded = inl refl;
}
Reach-InTurn (later r st) = Step-InTurn st (Reach-InTurn r)

-- With fewer than 2^64 threads, however often the counters wrap: a thread leaves the loop of `lock` only
-- when nobody holds a guard, and only if it has waited longest.
pub lock_round-first :
    {s : World} (xs ys : List ℕ) (t next : ℕ)
    → Reach s
    → s.waiting ≡ xs ++ (t ∷ ys)
    → lock_round t s.lock ≡ guard next
    → (s.holder ≡ none) × (xs ≡ [])
lock_round-first {s} xs ys t next r e g =
    let f = enters-first s xs ys t next (Reach-InTurn r) e g in
    (ground (arith, f.0), ground (arith, f.1))

-- When nobody holds a guard and threads spin, the one that has waited longest gets it in its next round.
pub lock_round-served :
    {s : World} (t : ℕ) (ys : List ℕ)
    → Reach s
    → s.waiting ≡ t ∷ ys
    → s.holder ≡ none
    → lock_round t s.lock ≡ guard (wrapping_add t 1)
unfolding lock_round
lock_round-served {s} t ys r e free =
    let v = Reach-InTurn r in
    let h : held s.holder ≡ 0 = ap held free in
    let at =
      tickets-at [] ys (length s.waiting) (wrapping_add s.lock.tock (held s.holder)) t (omega arith)
        (sym v.in_turn ∙ e) in
    let now : s.lock.tock ≡ t = omega (arith, at, h, v.word) in ground (arith, now)

-- TicketSpinlock with fewer than 2^64 threads, however often its counters wrap: a thread leaves the
-- loop of lock in its next round exactly when nobody holds a guard and no other thread has waited
-- longer.
pub lock_round-serves :
    {s : World} (xs ys : List ℕ) (t : ℕ)
    → Reach s
    → s.waiting ≡ xs ++ (t ∷ ys)
    → (lock_round t s.lock ≡ guard (wrapping_add t 1)) ↔ ((s.holder ≡ none) × (xs ≡ []))
lock_round-serves xs ys t r e = (
  lock_round-first xs ys t (wrapping_add t 1) r e,
  λ (free, start). lock_round-served t ys r (e ∙ ap (λ zs. zs ++ (t ∷ ys)) start) free,
)
