-- ===== src/Runtime/LinkedHashMap.antt =====
-- What src/runtime/stack_pool.rs uses of the crate `linked_hash_map`, with what that crate documents:
-- a map lists its entries in the order in which they were inserted or refreshed, keys are unique.
pub mod ListMap
use coio_rs.Base.{ℕ, ◌≡◌, Option, none, some, List, [], ◌∷◌, ◌++◌, ◌==◌, refl, arith, if◌then◌else◌}

module _ {ℓ} {V : Type ℓ} where
  abbrev pub lookup : ℕ → List (ℕ × V) → Option V
  lookup k [] = none
  lookup k ((i, v) ∷ es) = if i == k then some v else lookup k es

  abbrev pub erase : ℕ → List (ℕ × V) → List (ℕ × V)
  erase k [] = []
  erase k ((i, v) ∷ es) = let rest = erase k es in if i == k then es else (i, v) ∷ rest

  pub erase-none : (k : ℕ) (es : List (ℕ × V)) → lookup k es ≡ none → erase k es ≡ es
  erase-none k [] e = refl
  erase-none k ((i, b) ∷ es) e = ground (arith, erase-none k es)

-- A map is borrowed mutably through the reference that `get_refresh` gives: what is written there is
-- in the map that the function behind the value gives.
pub record LinkedHashMap (V : Type 0) : Type 1 where
  pub Map : Type 0
  pub entries : Map → List (ℕ × V)
  pub new : Map
  pub get_refresh : ℕ → Map → Option (V × (V → Map))
  pub insert : ℕ → V → Map → Map
  pub pop_back : Map → Option ((ℕ × V) × Map)
  pub entries-new : entries new ≡ []
  pub get_refresh-none : (k : ℕ) (m : Map) → get_refresh k m ≡ none → lookup k (entries m) ≡ none
  pub get_refresh-some :
      (k : ℕ) (m : Map) (v w : V) (put : V → Map)
      → get_refresh k m ≡ some (v, put)
      → (lookup k (entries m) ≡ some v)
        × (entries (put w) ≡ erase k (entries m) ++ ((k, w) ∷ []))
        × (lookup k (erase k (entries m)) ≡ none)
  pub entries-insert :
      (k : ℕ) (v : V) (m : Map)
      → lookup k (entries m) ≡ none
      → entries (insert k v m) ≡ entries m ++ ((k, v) ∷ [])
  pub pop_back-none : (m : Map) → pop_back m ≡ none → entries m ≡ []
  pub pop_back-some :
      (m n : Map) (k : ℕ) (v : V)
      → pop_back m ≡ some ((k, v), n)
      → (entries m ≡ entries n ++ ((k, v) ∷ [])) × (lookup k (entries n) ≡ none)
