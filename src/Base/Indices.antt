-- ===== src/Base/Indices.antt =====
-- Indexing into lists that are put together.
use Prim.Native.Nat.{ℕ, zero, suc, ◌<◌}
use mathlib.Core.Path.{◌≡◌, refl, ap}
use mathlib.Core.List.{List, [], ◌∷◌, ◌++◌}
use mathlib.Core.Option.{some, some-injective, none-ne-some}
use mathlib.Core.Logic.{◌⊎◌, inl, inr}
use native.Mathlib.Omega.{arith}
use coio_rs.Base.Lists.{length, get_elem?}

pub get_elem?-left {ℓ} :
    {X : Type ℓ} (xs ys : List X) (i : ℕ) (x : X)
    → get_elem? xs i ≡ some x
    → get_elem? (xs ++ ys) i ≡ some x
get_elem?-left [] ys i x e = absurd (none-ne-some _ e)
get_elem?-left (y ∷ xs) ys zero x e = e
get_elem?-left (y ∷ xs) ys (suc i) x e = get_elem?-left xs ys i x e

pub get_elem?-inside {ℓ} :
    {X : Type ℓ} (xs ys : List X) (i : ℕ) → i < length xs → get_elem? (xs ++ ys) i ≡ get_elem? xs i
get_elem?-inside [] ys i lt = absurd (omega arith)
get_elem?-inside (x ∷ xs) ys zero lt = refl
get_elem?-inside (x ∷ xs) ys (suc i) lt = get_elem?-inside xs ys i (omega arith)

pub get_elem?-last {ℓ} :
    {X : Type ℓ} (xs : List X) (x : X) → get_elem? (xs ++ (x ∷ [])) (length xs) ≡ some x
get_elem?-last [] x = refl
get_elem?-last (y ∷ xs) x = get_elem?-last xs x

pub get_elem?-snoc {ℓ} :
    {X : Type ℓ} (xs : List X) (x y : X) (i : ℕ)
    → get_elem? (xs ++ (x ∷ [])) i ≡ some y
    → (get_elem? xs i ≡ some y) ⊎ ((i ≡ length xs) × (x ≡ y))
get_elem?-snoc [] x y zero e = inr (refl, some-injective _ _ e)
get_elem?-snoc [] x y (suc i) e = absurd (none-ne-some _ e)
get_elem?-snoc (z ∷ xs) x y zero e = inl e
get_elem?-snoc (z ∷ xs) x y (suc i) e = elim (get_elem?-snoc xs x y i e) [
  | inl e' ↦ inl e'
  | inr (e', e'') ↦ inr (ap suc e', e'')
]

pub get_elem?-lt {ℓ} :
    {X : Type ℓ} (xs : List X) (i : ℕ) (x : X) → get_elem? xs i ≡ some x → i < length xs
get_elem?-lt [] i x e = absurd (none-ne-some _ e)
get_elem?-lt (y ∷ xs) zero x e = omega arith
get_elem?-lt (y ∷ xs) (suc i) x e = omega (arith, get_elem?-lt xs i x e)
