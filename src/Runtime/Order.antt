-- ===== src/Runtime/Order.antt =====
-- `RandomProcessorOrder` of src/runtime/processor.rs: the orders in which a processor that has run
-- out of work visits the others. A panic of the source is `none`.
pub mod Gcd
pub mod Coprimes
pub mod Count
pub mod Visit
mod Tests
use native.Mathlib.Nat.{mod-lt}
use coio_rs.Base.{
  ℕ, zero, suc, ◌+◌, ◌%◌, ◌<◌, ◌++◌, ◌∷◌, [], List, Option, none, some, Bool, true, false, arith,
  ◌==◌, ltb, if◌then◌else◌, dec_lt, dite, length, get_elem?, wrapping_add,
}
use mathlib.Core.Option
use mathlib.Core.WellFounded.{Acc}

-- Every number below a bound is accessible, by recursion on the bound.
bounded_acc : (bound m : ℕ) → m < bound → Acc ◌<◌ m
bounded_acc zero m h = absurd (omega arith)
bounded_acc (suc bound) m h = elim (dec_lt m bound) [
  | yes below ↦ bounded_acc bound m below
  | no last ↦ Acc.intro m (λ j less. bounded_acc bound j (omega arith))
]

-- The second argument of `gcd` falls in each round.
pub lt_acc : (n : ℕ) → Acc ◌<◌ n
unfolding bounded_acc dec_lt
lt_acc n = bounded_acc (n + 1) n (omega arith)

-- `while b != 0 { let t = a % b; a = b; b = t; } a`
unfoldable pub gcd_acc : (a b : ℕ) → Acc ◌<◌ b → ℕ
gcd_acc a b (Acc.intro _ below) =
    dite (dec_lt 0 b) (λ nonzero. let t = a % b in gcd_acc b t (below t (mod-lt a nonzero)))
      (λ _. a)

unfoldable pub gcd : ℕ → ℕ → ℕ
unfolding gcd_acc lt_acc dec_lt
gcd a b = gcd_acc a b (lt_acc b)

pub record RandomProcessorOrder : Type 0 where
  pub count : ℕ
  pub coprimes : List ℕ

pub new : RandomProcessorOrder
new = record { count = 0; coprimes = [] }

-- The body of the `for i in 1..(count + 1)`, on the `n` numbers from `i` on.
unfoldable pub coprimes_from : ℕ → ℕ → ℕ → List ℕ
unfolding gcd
coprimes_from count zero i = []
coprimes_from count (suc n) i =
    let rest = coprimes_from count n (i + 1) in if gcd i count == 1 then i ∷ rest else rest

unfoldable pub reset : RandomProcessorOrder → ℕ → RandomProcessorOrder
unfolding coprimes_from
reset o count = record { count = count; coprimes = coprimes_from count count 1 }

pub record RandomProcessorIter : Type 0 where
  pub i : ℕ
  pub pos : ℕ
  pub inc : ℕ
  pub count : ℕ

-- `iter`: the remainder by zero and the index both panic.
unfoldable pub iter : RandomProcessorOrder → ℕ → Option RandomProcessorIter
iter o start =
    if o.count == 0 then none else elim (get_elem? o.coprimes (start % length o.coprimes)) [
      | none ↦ none
      | some inc ↦ some (record { i = 0; pos = start % o.count; inc = inc; count = o.count })
    ]

unfoldable pub next : RandomProcessorIter → Option ℕ × RandomProcessorIter
next it =
    if ltb it.i it.count
    then (some it.pos, record it { i = it.i + 1; pos = wrapping_add it.pos it.inc % it.count })
    else (none, it)

-- `for x in self.rand_order.iter(rnd)`: what the loop sees, `none` for a loop that goes on.
unfoldable pub collect : ℕ → RandomProcessorIter → Option (List ℕ)
unfolding next
collect zero it = none
collect (suc fuel) it =
    let (x, it') = next it in
    elim x [ none ↦ some [] | some r ↦ Option.map (λ xs. r ∷ xs) (collect fuel it') ]
