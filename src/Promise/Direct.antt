-- ===== src/Promise/Direct.antt =====
-- The promises of src/promise.rs against a direct evaluation, in which each function is called as soon
-- as its coroutine is made.
use coio_rs.Base.{
  ℕ, zero, suc, ◌+◌, ◌≤◌, ◌≡◌, inl, inr, refl, sym, ap, Option, none, some, List, [], ◌∷◌, ◌++◌,
  arith, length, length-append, get_elem?, set_at, get_elem?-inside, Option-cases,
}
use mathlib.Core.Option.{some-injective}
use coio_rs.Promise.{Caught, Body, runs, joins, Coroutine, body_result, resume, IsMade}

module _ {A B : Type 0} where
  -- What a body gives when the promises before it have these values.
  unfoldable pub value : List (Caught A B) → Body A B → Caught A B
  value vs (runs r) = r
  value vs (joins p f) = elim (get_elem? vs p) [
    | none ↦ none
    | some none ↦ none
    | some (some r) ↦ f r
  ]

  unfoldable pub direct_from : List (Caught A B) → List (Coroutine A B) → List (Caught A B)
  direct_from vs [] = vs
  direct_from vs (c ∷ cs) = direct_from (vs ++ (value vs c.body ∷ [])) cs

  abbrev pub direct : List (Coroutine A B) → List (Caught A B)
  direct cs = direct_from [] cs

  pub direct_from-snoc :
      (vs : List (Caught A B)) (cs : List (Coroutine A B)) (c : Coroutine A B)
      → direct_from vs (cs ++ (c ∷ []))
        ≡ direct_from vs cs ++ (value (direct_from vs cs) c.body ∷ [])
  unfolding direct_from
  direct_from-snoc vs [] c = refl
  direct_from-snoc vs (d ∷ cs) c = direct_from-snoc (vs ++ (value vs d.body ∷ [])) cs c

  pub length-direct_from :
      (vs : List (Caught A B)) (cs : List (Coroutine A B))
      → length (direct_from vs cs) ≡ length vs + length cs
  unfolding direct_from
  length-direct_from vs [] = omega arith
  length-direct_from vs (c ∷ cs) = omega (
    arith,
    length-direct_from (vs ++ (value vs c.body ∷ [])) cs,
    length-append vs (value vs c.body ∷ []),
  )

  -- Only the bodies matter.
  pub direct_from-set_at :
      (vs : List (Caught A B)) (cs : List (Coroutine A B)) (i : ℕ) (c : Coroutine A B)
      (r : Option (Caught A B))
      → get_elem? cs i ≡ some c
      → direct_from vs (set_at i (record { body = c.body; sent = r }) cs) ≡ direct_from vs cs
  unfolding direct_from
  direct_from-set_at vs [] i c r e = refl
  direct_from-set_at vs (d ∷ cs) zero c r e =
      ap (λ b. direct_from (vs ++ (value vs (b.body) ∷ [])) cs) (sym (some-injective _ _ e))
  direct_from-set_at vs (d ∷ cs) (suc i) c r e =
      direct_from-set_at (vs ++ (value vs d.body ∷ [])) cs i c r e

  pub value-left :
      (vs ws : List (Caught A B)) (b : Body A B)
      → IsMade (length vs) b
      → value (vs ++ ws) b ≡ value vs b
  unfolding value
  value-left vs ws (runs r) m = refl
  value-left vs ws (joins p f) m = rw (value, get_elem?-inside vs ws p m) refl

  -- A coroutine goes on, or nothing happens.
  pub data Resumed (cs : List (Coroutine A B)) (i : ℕ) : Type 0 where
    same : resume cs i ≡ cs → Resumed cs i
    goes :
        (c : Coroutine A B) (r : Caught A B)
        → get_elem? cs i ≡ some c
        → c.sent ≡ none
        → body_result cs c.body ≡ some r
        → resume cs i ≡ set_at i (record { body = c.body; sent = some r }) cs
        → Resumed cs i

  pub resume-Resumed : (cs : List (Coroutine A B)) (i : ℕ) → Resumed cs i
  unfolding resume
  resume-Resumed cs i = elim (Option-cases (get_elem? cs i)) [
    | inl e ↦ same (ground (arith, e))
    | inr (c, e) ↦ elim (Option-cases c.sent) [
      | inr (r, e') ↦ same (ground (arith, e, e'))
      | inl e' ↦ elim (Option-cases (body_result cs c.body)) [
        | inl e'' ↦ same (ground (arith, e, e', e''))
        | inr (r, e'') ↦ goes c r e e' e'' (ground (arith, e, e', e''))
      ]
    ]
  ]

  pub length-direct : (cs : List (Coroutine A B)) → length (direct cs) ≡ length cs
  length-direct cs = omega (arith, length-direct_from [] cs)

  -- A promise that was made before is also made before what comes later.
  pub IsMade-mono : (i n : ℕ) (b : Body A B) → i ≤ n → IsMade i b → IsMade n b
  IsMade-mono i n (runs r) le m = m
  IsMade-mono i n (joins p f) le m = omega (arith, m, le)
