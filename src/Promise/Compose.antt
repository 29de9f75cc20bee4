-- ===== src/Promise/Compose.antt =====
-- Promises of src/promise.rs that are made from promises, against functions on results.
use coio_rs.Base.{
  ℕ, ◌≡◌, ap, ◌∙◌, Option, none, some, List, [], ◌∷◌, ◌++◌, arith, length, get_elem?, Option-cases,
  inl, inr, get_elem?-last,
}
use coio_rs.Promise.{
  Result, ok, err, Caught, Body, joins, chain, success, fail, then_either, finally,
}
use coio_rs.Promise.Direct.{value}

module _ {A B : Type 0} where
  -- A function that goes on with a result, unless there was a panic.
  abbrev pub bind : Caught A B → (Result A B → Caught A B) → Caught A B
  bind none f = none
  bind (some r) f = f r

  abbrev pub on_ok : (A → Caught A B) → Result A B → Caught A B
  on_ok f (ok a) = f a
  on_ok f (err b) = some (err b)

  abbrev pub on_err : (B → Caught A B) → Result A B → Caught A B
  on_err f (ok a) = some (ok a)
  on_err f (err b) = f b

  abbrev pub on_either : (A → Caught A B) → (B → Caught A B) → Result A B → Caught A B
  on_either f g (ok a) = f a
  on_either f g (err b) = g b

  -- The value of the function as a success.
  abbrev pub as_ok : (Result A B → Option A) → Result A B → Caught A B
  as_ok f r = elim (f r) [ none ↦ none | some a ↦ some (ok a) ]

  -- The result of a promise that was made.
  abbrev pub result_at : List (Caught A B) → ℕ → Caught A B
  result_at vs p = elim (get_elem? vs p) [ none ↦ none | some r ↦ r ]

  -- The value of a promise on the one that is made next.
  abbrev pub value_next : List (Caught A B) → Body A B → (ℕ → Body A B) → Caught A B
  value_next vs b next = value (vs ++ (value vs b ∷ [])) (next (length vs))

  joins-bind :
      (vs : List (Caught A B)) (p : ℕ) (f : Result A B → Caught A B)
      → value vs (joins p f) ≡ bind (result_at vs p) f
  unfolding value
  joins-bind vs p f = elim (Option-cases (get_elem? vs p)) [
    | inl e ↦ ground (arith, e)
    | inr (none, e) ↦ ground (arith, e)
    | inr (some r, e) ↦ ground (arith, e)
  ]

  result_at-last :
      (vs : List (Caught A B)) (r : Caught A B) → result_at (vs ++ (r ∷ [])) (length vs) ≡ r
  result_at-last vs r = ground (arith, get_elem?-last vs r)

  -- A promise on a promise.
  joins-joins :
      (vs : List (Caught A B)) (p : ℕ) (f g : Result A B → Caught A B)
      → value_next vs (joins p f) (λ q. joins q g) ≡ bind (bind (result_at vs p) f) g
  joins-joins vs p f g =
      joins-bind (vs ++ (value vs (joins p f) ∷ [])) (length vs) g
      ∙ ap (λ r. bind r g) (result_at-last vs (value vs (joins p f)) ∙ joins-bind vs p f)

  -- For any results so far: chain on chain, success on success, fail on success, and finally on
  -- then give what the functions give when they are called in a row on the result of the promise: a
  -- function of chain is called on every result, one of success on successes only, one of fail on
  -- failures only, those of then on one or the other, the one of finally on every result, with its
  -- value as a success; a panic skips the functions that follow.
  pub combinators-compose :
      (vs : List (Caught A B)) (p : ℕ) (f g : A → Caught A B) (h : B → Caught A B)
      (l m : Result A B → Caught A B) (k : Result A B → Option A)
      → (value_next vs (chain p l) (λ q. chain q m) ≡ bind (bind (result_at vs p) l) m)
        × (value_next vs (success p f) (λ q. success q g)
            ≡ bind (bind (result_at vs p) (on_ok f)) (on_ok g))
        × (value_next vs (success p f) (λ q. fail q h)
            ≡ bind (bind (result_at vs p) (on_ok f)) (on_err h))
        × (value_next vs (then_either p f h) (λ q. finally q k)
            ≡ bind (bind (result_at vs p) (on_either f h)) (as_ok k))
  unfolding chain success fail then_either finally
  combinators-compose vs p f g h l m k = (
    joins-joins vs p l m,
    joins-joins vs p (on_ok f) (on_ok g),
    joins-joins vs p (on_ok f) (on_err h),
    joins-joins vs p (on_either f h) (as_ok k),
  )
