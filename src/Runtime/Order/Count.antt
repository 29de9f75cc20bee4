-- ===== src/Runtime/Order/Count.antt =====
-- How often a number stands in a list, and the pigeonhole principle: `n` entries below `n`, none of
-- them twice, are all the numbers below `n`.
use coio_rs.Base.{
  ℕ, zero, suc, ◌+◌, ◌≤◌, ◌<◌, ◌≡◌, refl, ◌∙◌, List, [], ◌∷◌, arith, ◌==◌, ltb, if◌then◌else◌,
  length, count_of,
}

abbrev pub AllBelow : ℕ → List ℕ → Type 0
AllBelow n [] = Unit
AllBelow n (x ∷ xs) = (x < n) × AllBelow n xs

total : ℕ → (ℕ → ℕ) → ℕ
total zero f = 0
total (suc n) f = total n f + f n

total-add : (n : ℕ) (f g : ℕ → ℕ) → total n (λ j. f j + g j) ≡ total n f + total n g
unfolding total
total-add zero f g = refl
total-add (suc n) f g = omega (arith, total-add n f g)

total-zero : (n : ℕ) → total n (λ _. 0) ≡ 0
unfolding total
total-zero zero = refl
total-zero (suc n) = omega (arith, total-zero n)

total_single : (n x : ℕ) → total n (λ j. if x == j then 1 else 0) ≡ (if ltb x n then 1 else 0)
unfolding total
total_single zero x = ground arith
total_single (suc n) x = ground (arith, total_single n x)

total-count_of : (n : ℕ) (xs : List ℕ) → AllBelow n xs → total n (λ j. count_of j xs) ≡ length xs
unfolding count_of
total-count_of n [] h = total-zero n
total-count_of n (x ∷ xs) h =
    total-add n (λ j. if x == j then 1 else 0) (λ j. count_of j xs)
    ∙ ground (arith, total_single n x, total-count_of n xs h.1)

total-le : (n : ℕ) (f : ℕ → ℕ) → ((j : ℕ) → f j ≤ 1) → total n f ≤ n
unfolding total
total-le zero f h = omega arith
total-le (suc n) f h = omega (arith, total-le n f h, h n)

total_full : (n : ℕ) (f : ℕ → ℕ) → ((j : ℕ) → f j ≤ 1) → total n f ≡ n → (j : ℕ) → j < n → f j ≡ 1
unfolding total
total_full zero f h e j lt = absurd (omega arith)
total_full (suc n) f h e j lt =
    ground (arith, total-le n f h, h n, total_full n f h (omega (arith, total-le n f h, h n)) j)

pub count_of_full :
    (n : ℕ) (xs : List ℕ)
    → AllBelow n xs
    → ((j : ℕ) → count_of j xs ≤ 1)
    → length xs ≡ n
    → (j : ℕ) → j < n
    → count_of j xs ≡ 1
count_of_full n xs below once len =
    total_full n (λ j. count_of j xs) once (total-count_of n xs below ∙ len)
