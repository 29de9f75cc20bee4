-- ===== src/Coroutine/HandleList.antt =====
-- `HandleList` of src/coroutine.rs: a doubly linked list through the `prev` and `next` fields of the
-- coroutines themselves. A handle is the address of its coroutine. Every function takes the heap
-- and the list, and gives back what it returns, the heap and the list.
pub mod Dll
pub mod Push
pub mod Pop
pub mod Append
pub mod Split
pub mod Iter
mod Tests
use mathlib.Core.Option
use coio_rs.Base.{
  ℕ, zero, suc, ◌+◌, ◌-◌, Option, none, some, List, [], ◌∷◌, Bool, ◌==◌, leb, ltb, if◌then◌else◌,
}

abbrev pub Handle : Type 0
Handle = ℕ

-- The fields of a `Coroutine` that the list uses.
pub record Links : Type 0 where
  pub prev : Option Handle
  pub next : Option Handle

abbrev pub Heap : Type 0
Heap = Handle → Links

unfoldable pub set_prev : Heap → Handle → Option Handle → Heap
set_prev h c p a = if a == c then record { prev = p; next = (h a).next } else h a

unfoldable pub set_next : Heap → Handle → Option Handle → Heap
set_next h c n a = if a == c then record { prev = (h a).prev; next = n } else h a

pub record HandleList : Type 0 where
  pub length : ℕ
  pub head : Option Handle
  pub tail : Option Handle

abbrev pub new : HandleList
new = record { length = 0; head = none; tail = none }

abbrev pub singleton : HandleList → Handle → HandleList
singleton l c = record { length = l.length + 1; head = some c; tail = some c }

-- `length` counts distinct coroutines in memory, so `+ 1` does not overflow; `- 1` runs only on a
-- list with a head or a tail.
unfoldable pub push_front : Heap → HandleList → Handle → Heap × HandleList
unfolding set_prev set_next
push_front h l c = elim l.head [
  | none ↦ (h, singleton l c)
  | some head ↦ (
    set_next (set_prev h head (some c)) c (some head),
    record { length = l.length + 1; head = some c; tail = l.tail },
  )
]

unfoldable pub push_back : Heap → HandleList → Handle → Heap × HandleList
unfolding set_prev set_next
push_back h l c = elim l.tail [
  | none ↦ (h, singleton l c)
  | some tail ↦ (
    set_next (set_prev h c (some tail)) tail (some c),
    record { length = l.length + 1; head = l.head; tail = some c },
  )
]

unfoldable pub pop_front : Heap → HandleList → Option Handle × Heap × HandleList
unfolding set_prev set_next
pop_front h l = elim l.head [
  | none ↦ (none, h, l)
  | some head ↦
      let rest = set_next h head none in
      elim (h head).next [
        | none ↦ (some head, rest, record { length = l.length - 1; head = none; tail = none })
        | some c ↦ (
          some head,
          set_prev rest c none,
          record { length = l.length - 1; head = some c; tail = l.tail },
        )
      ]
]

unfoldable pub pop_back : Heap → HandleList → Option Handle × Heap × HandleList
unfolding set_prev set_next
pop_back h l = elim l.tail [
  | none ↦ (none, h, l)
  | some tail ↦
      let rest = set_prev h tail none in
      elim (h tail).prev [
        | none ↦ (l.head, rest, record { length = l.length - 1; head = none; tail = none })
        | some prev ↦ (
          (rest prev).next,
          set_next rest prev none,
          record { length = l.length - 1; head = l.head; tail = some prev },
        )
      ]
]

-- `self.append(&mut other)`: the heap, `self` and `other` afterwards.
unfoldable pub append : Heap → HandleList → HandleList → Heap × HandleList × HandleList
unfolding set_prev set_next
append h l other = elim l.tail [
  | none ↦
      (h, record { length = l.length + other.length; head = other.head; tail = other.tail }, new)
  | some tail ↦ elim other.head [
    | none ↦ (
      h,
      record { length = l.length + other.length; head = l.head; tail = l.tail },
      record { length = 0; head = none; tail = other.tail },
    )
    | some o_head ↦ (
      set_next (set_prev h o_head (some tail)) tail (some o_head),
      record { length = l.length + other.length; head = l.head; tail = other.tail },
      new,
    )
  ]
]

-- `for _ in 1..n`, the `k` rounds left; `unwrap` panics at the end of the list.
unfoldable pub walk : ℕ → Heap → Handle → Option Handle
walk zero h p = some p
walk (suc k) h p = elim (h p).next [ none ↦ none | some q ↦ walk k h q ]

-- `next_head.as_mut().map(|h| h.prev = None)`
abbrev pub cut : Heap → Option Handle → Heap
cut h none = h
cut h (some q) = set_prev h q none

-- `none` is a panic; otherwise the list that is split off, the heap and `self`.
unfoldable pub split_off_front : Heap → HandleList → ℕ → Option (HandleList × Heap × HandleList)
unfolding set_prev set_next walk
split_off_front h l n =
    if leb l.length n then some (l, h, new) else if n == 0 then some (new, h, l) else elim l.head [
      | none ↦ some (new, h, l)
      | some head ↦
          Option.map
            (λ p. (
              record { length = n; head = some head; tail = some p },
              cut (set_next h p none) (h p).next,
              record { length = l.length - n; head = (h p).next; tail = l.tail },
            ))
            (walk (n - 1) h head)
    ]

pub list_len : HandleList → ℕ
list_len l = l.length

pub is_empty : HandleList → Bool
is_empty l = l.length == 0

-- `HandleListIter`
pub record HandleListIter : Type 0 where
  pub curr : Option Handle
  pub count : ℕ

pub iter : HandleList → HandleListIter
iter l = record { curr = l.head; count = l.length }

abbrev iter_next_at : Heap → HandleListIter → Option Handle → Option Handle × HandleListIter
iter_next_at h it none = (none, it)
iter_next_at h it (some c) = (some c, record { curr = (h c).next; count = it.count - 1 })

pub iter_next : Heap → HandleListIter → Option Handle × HandleListIter
iter_next h it = if ltb 0 it.count then iter_next_at h it it.curr else (none, it)

-- A `for` loop over the iterator: what it sees, `none` for a loop that goes on.
pub iter_collect : ℕ → Heap → HandleListIter → Option (List Handle)
unfolding iter_next
iter_collect zero h it = none
iter_collect (suc fuel) h it =
    let (x, it') = iter_next h it in
    elim x [ none ↦ some [] | some c ↦ Option.map (λ cs. c ∷ cs) (iter_collect fuel h it') ]

-- `while let Some(_) = self.pop_front() {}` of `Drop`, and the loop over `into_iter`: the handles in
-- the order in which they come out, and the list left; `none` for a loop that goes on.
pub drain : ℕ → Heap → HandleList → Option (List Handle × Heap × HandleList)
unfolding pop_front
drain zero h l = none
drain (suc fuel) h l =
    let (x, h', l') = pop_front h l in
    elim x [
      | none ↦ some ([], h', l')
      | some c ↦ Option.map (λ (cs, r, s). (c ∷ cs, r, s)) (drain fuel h' l')
    ]

-- `Extend::extend`
pub extend : Heap → HandleList → List Handle → Heap × HandleList
unfolding push_back
extend h l [] = (h, l)
extend h l (c ∷ cs) = let (h', l') = push_back h l c in extend h' l' cs
