-- ===== src/Base/Lists.antt =====
-- Lists measured and indexed by native numbers, under the library's names.
use Prim.Native.Nat.{ℕ, zero, suc, ◌+◌, ◌-◌, ◌<◌, min}
use mathlib.Core.Path.{◌≡◌, refl, sym, ap}
use mathlib.Core.List.{List, [], ◌∷◌, ◌++◌}
use mathlib.Core.Option.{Option, none, some, some-injective, none-ne-some}
use mathlib.Core.Logic.{◌≢◌, ◌⊎◌, inl, inr}
use native.Mathlib.Omega.{arith}
use coio_rs.Base.Tests.{◌==◌, if◌then◌else◌}

module _ {ℓ} {A : Type ℓ} where
  abbrev pub length : List A → ℕ
  length [] = 0
  length (x ∷ xs) = suc (length xs)

  abbrev pub head? : List A → Option A
  head? [] = none
  head? (x ∷ xs) = some x

  abbrev pub get_last? : List A → Option A
  get_last? [] = none
  get_last? (x ∷ []) = some x
  get_last? (x ∷ (y ∷ xs)) = get_last? (y ∷ xs)

  -- Indexing, `none` where the source panics out of range.
  abbrev pub get_elem? : List A → ℕ → Option A
  get_elem? [] i = none
  get_elem? (x ∷ xs) zero = some x
  get_elem? (x ∷ xs) (suc i) = get_elem? xs i

  abbrev pub take : ℕ → List A → List A
  take zero xs = []
  take (suc n) [] = []
  take (suc n) (x ∷ xs) = x ∷ take n xs

  abbrev pub drop : ℕ → List A → List A
  drop zero xs = xs
  drop (suc n) [] = []
  drop (suc n) (x ∷ xs) = drop n xs

  pub length-append : (xs ys : List A) → length (xs ++ ys) ≡ length xs + length ys
  length-append [] ys = omega arith
  length-append (x ∷ xs) ys = omega (arith, length-append xs ys)

  pub take-append-drop : (n : ℕ) (xs : List A) → take n xs ++ drop n xs ≡ xs
  take-append-drop zero xs = refl
  take-append-drop (suc n) [] = refl
  take-append-drop (suc n) (x ∷ xs) = rw (take-append-drop n xs)

  pub length-take : (n : ℕ) (xs : List A) → length (take n xs) ≡ min n (length xs)
  length-take zero xs = omega arith
  length-take (suc n) [] = omega arith
  length-take (suc n) (x ∷ xs) = omega (arith, length-take n xs)

  pub length-drop : (n : ℕ) (xs : List A) → length (drop n xs) ≡ length xs - n
  length-drop zero xs = omega arith
  length-drop (suc n) [] = omega arith
  length-drop (suc n) (x ∷ xs) = omega (arith, length-drop n xs)

-- Replacing the entry at an index, none out of range.
abbrev pub set_at {ℓ} : {A : Type ℓ} → ℕ → A → List A → List A
set_at i a [] = []
set_at zero a (x ∷ xs) = a ∷ xs
set_at (suc i) a (x ∷ xs) = x ∷ set_at i a xs

-- The lists that a function gives, one after the other.
abbrev pub gather {ℓ m} : {A : Type ℓ} {B : Type m} → (A → List B) → List A → List B
gather f [] = []
gather f (x ∷ xs) = f x ++ gather f xs

pub get_elem?-set_at {ℓ} :
    {A : Type ℓ} (i j : ℕ) (a b : A) (xs : List A)
    → get_elem? (set_at i a xs) j ≡ some b
    → (b ≡ a) ⊎ (get_elem? xs j ≡ some b)
get_elem?-set_at i j a b [] e = inr e
get_elem?-set_at zero zero a b (x ∷ xs) e = inl (sym (some-injective _ _ e))
get_elem?-set_at zero (suc j) a b (x ∷ xs) e = inr e
get_elem?-set_at (suc i) zero a b (x ∷ xs) e = inr e
get_elem?-set_at (suc i) (suc j) a b (x ∷ xs) e = get_elem?-set_at i j a b xs e

pub get_elem?-set_at_other {ℓ} :
    {A : Type ℓ} (i j : ℕ) (a : A) (xs : List A)
    → j ≢ i
    → get_elem? (set_at i a xs) j ≡ get_elem? xs j
get_elem?-set_at_other i j a [] ne = refl
get_elem?-set_at_other zero zero a (x ∷ xs) ne = absurd (ne refl)
get_elem?-set_at_other zero (suc j) a (x ∷ xs) ne = refl
get_elem?-set_at_other (suc i) zero a (x ∷ xs) ne = refl
get_elem?-set_at_other (suc i) (suc j) a (x ∷ xs) ne =
    get_elem?-set_at_other i j a xs (λ e. ne (ap suc e))

pub get_elem?-set_at_same {ℓ} :
    {A : Type ℓ} (i : ℕ) (a b : A) (xs : List A)
    → get_elem? xs i ≡ some b
    → get_elem? (set_at i a xs) i ≡ some a
get_elem?-set_at_same i a b [] e = absurd (none-ne-some _ e)
get_elem?-set_at_same zero a b (x ∷ xs) e = refl
get_elem?-set_at_same (suc i) a b (x ∷ xs) e = get_elem?-set_at_same i a b xs e

pub length-set_at {ℓ} :
    {A : Type ℓ} (i : ℕ) (a : A) (xs : List A) → length (set_at i a xs) ≡ length xs
length-set_at i a [] = refl
length-set_at zero a (x ∷ xs) = refl
length-set_at (suc i) a (x ∷ xs) = ap suc (length-set_at i a xs)

pub get_elem?_below {ℓ} :
    {A : Type ℓ} (i : ℕ) (xs : List A) → i < length xs → (a : A) × (get_elem? xs i ≡ some a)
get_elem?_below i [] lt = absurd (omega arith)
get_elem?_below zero (x ∷ xs) lt = (x, refl)
get_elem?_below (suc i) (x ∷ xs) lt = get_elem?_below i xs (omega arith)

-- How often a number stands in a list.
unfoldable pub count_of : ℕ → List ℕ → ℕ
count_of j [] = 0
count_of j (x ∷ xs) = (if x == j then 1 else 0) + count_of j xs

pub count_of-append :
    (j : ℕ) (xs ys : List ℕ) → count_of j (xs ++ ys) ≡ count_of j xs + count_of j ys
unfolding count_of
count_of-append j [] ys = omega arith
count_of-append j (x ∷ xs) ys = omega (arith, count_of-append j xs ys)

pub count_of-gather-set_at {ℓ} :
    {A : Type ℓ} (f : A → List ℕ) (j i : ℕ) (a b : A) (xs : List A)
    → get_elem? xs i ≡ some a
    → count_of j (gather f (set_at i b xs)) + count_of j (f a)
      ≡ count_of j (gather f xs) + count_of j (f b)
count_of-gather-set_at f j i a b [] e = absurd (none-ne-some _ e)
count_of-gather-set_at f j zero a b (x ∷ xs) e = omega (
  arith,
  count_of-append j (f x) (gather f xs),
  count_of-append j (f b) (gather f xs),
  ap (λ y. count_of j (f y)) (some-injective _ _ e),
)
count_of-gather-set_at f j (suc i) a b (x ∷ xs) e = omega (
  arith,
  count_of-append j (f x) (gather f xs),
  count_of-append j (f x) (gather f (set_at i b xs)),
  count_of-gather-set_at f j i a b xs e,
)
