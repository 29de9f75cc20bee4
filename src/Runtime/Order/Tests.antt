-- ===== src/Runtime/Order/Tests.antt =====
-- The order of five processors, as in the test `random_processor_order` of the source.
use coio_rs.Base.{count_of, ℕ, ◌<◌, ◌≡◌, refl, List, [], ◌∷◌, Option, none, some, arith, length}
use coio_rs.Runtime.Order.{RandomProcessorIter, new, reset, iter, collect}
use coio_rs.Runtime.Order.Count.{AllBelow}
use coio_rs.Runtime.Order.Visit.{iter_visits_each_once}

abbrev visits : ℕ → Option (List ℕ)
visits start = elim (iter (reset new 5) start) [ none ↦ none | some it ↦ collect 6 it ]

random_processor_order :
    (visits 0 ≡ some (0 ∷ 1 ∷ 2 ∷ 3 ∷ 4 ∷ []))
    × (visits 1 ≡ some (1 ∷ 3 ∷ 0 ∷ 2 ∷ 4 ∷ []))
    × (visits 2 ≡ some (2 ∷ 0 ∷ 3 ∷ 1 ∷ 4 ∷ []))
    × (visits 3 ≡ some (3 ∷ 2 ∷ 1 ∷ 0 ∷ 4 ∷ []))
    × (visits 4 ≡ some (4 ∷ 0 ∷ 1 ∷ 2 ∷ 3 ∷ []))
    × (visits 5 ≡ some (0 ∷ 2 ∷ 4 ∷ 1 ∷ 3 ∷ []))
unfolding new reset iter collect
random_processor_order = (refl, refl, refl, refl, refl, refl)

iter_visits_each_once_example :
    (it : RandomProcessorIter) × (xs : List ℕ) × (iter (reset new 5) 7 ≡ some it)
    × (collect 6 it ≡ some xs)
    × AllBelow 5 xs
    × (length xs ≡ 5)
    × ((j : ℕ) → j < 5 → count_of j xs ≡ 1)
iter_visits_each_once_example = iter_visits_each_once new 5 7 (omega arith) (omega arith)
