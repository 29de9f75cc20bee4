-- ===== src/Runtime/LinkedHashMap/ListMap.antt =====
-- A map that is what `LinkedHashMap` asks for: a list of entries with different keys. The examples run
-- on it.
use coio_rs.Base.{
  ℕ, ◌≡◌, refl, sym, ap, subst, ◌∙◌, true, false, Option, none, some, List, [], ◌∷◌, ◌++◌, arith,
  ◌==◌, Bool-cases, inl, inr,
}
use coio_rs.Runtime.LinkedHashMap.{LinkedHashMap, lookup, erase, erase-none}

module _ {V : Type 0} where
  abbrev Unique : List (ℕ × V) → Type 0
  Unique [] = true ≡ true
  Unique ((i, v) ∷ es) = (lookup i es ≡ none) × Unique es

abbrev get_or {ℓ} : {A : Type ℓ} → A → Option A → A
get_or a none = a
get_or a (some b) = b

abbrev pub Entries : Type 0 → Type 0
Entries V = (es : List (ℕ × V)) × Unique es

module _ {V : Type 0} where
  lookup-erase : (k j : ℕ) (es : List (ℕ × V)) → lookup j es ≡ none → lookup j (erase k es) ≡ none
  lookup-erase k j [] e = refl
  lookup-erase k j ((i, v) ∷ es) e = ground (arith, lookup-erase k j es)

  pub lookup-erased : (k : ℕ) (es : List (ℕ × V)) → Unique es → lookup k (erase k es) ≡ none
  lookup-erased k [] u = refl
  lookup-erased k ((i, v) ∷ es) u = elim (Bool-cases (i == k)) [
    | inl same ↦ rw same (subst (λ n. lookup n es ≡ none) (ground (arith, same)) u.0)
    | inr other ↦ rw (other, other) (lookup-erased k es u.1)
  ]

  pub erase-Unique : (k : ℕ) (es : List (ℕ × V)) → Unique es → Unique (erase k es)
  erase-Unique k [] u = refl
  erase-Unique k ((i, v) ∷ es) u = elim (Bool-cases (i == k)) [
    | inl same ↦ rw same u.1
    | inr other ↦ rw other (lookup-erase k i es u.0, erase-Unique k es u.1)
  ]

  lookup-snoc :
      (j k : ℕ) (v : V) (es : List (ℕ × V))
      → lookup j es ≡ none
      → (j == k) ≡ false
      → lookup j (es ++ ((k, v) ∷ [])) ≡ none
  lookup-snoc j k v [] e other = ground arith
  lookup-snoc j k v ((i, w) ∷ es) e other = ground (arith, lookup-snoc j k v es)

  pub snoc-Unique :
      (k : ℕ) (v : V) (es : List (ℕ × V))
      → lookup k es ≡ none
      → Unique es
      → Unique (es ++ ((k, v) ∷ []))
  snoc-Unique k v [] e u = (refl, refl)
  snoc-Unique k v ((i, w) ∷ es) e u =
      (lookup-snoc i k v es u.0 (ground arith), snoc-Unique k v es (ground arith) u.1)

  abbrev moved_last : ℕ → V → Entries V → Entries V
  moved_last k v (es, u) = (
    erase k es ++ ((k, v) ∷ []),
    snoc-Unique k v (erase k es) (lookup-erased k es u) (erase-Unique k es u),
  )

  -- The entries in front of the last one, and that.
  abbrev split_last : (e : ℕ × V) → List (ℕ × V) → List (ℕ × V) × (ℕ × V)
  split_last e [] = ([], e)
  split_last e (f ∷ es) = let r = split_last f es in (e ∷ r.0, r.1)

  pub split_last-append :
      (e : ℕ × V) (es : List (ℕ × V)) → e ∷ es ≡ (split_last e es).0 ++ ((split_last e es).1 ∷ [])
  split_last-append e [] = refl
  split_last-append e (f ∷ es) = ap (e ∷◌) (split_last-append f es)

  lookup-init :
      (j k : ℕ) (v : V) (es : List (ℕ × V))
      → lookup j (es ++ ((k, v) ∷ [])) ≡ none
      → (lookup j es ≡ none) × ((k == j) ≡ false)
  lookup-init j k v [] e = (refl, ground arith)
  lookup-init j k v ((i, w) ∷ es) e = elim (Bool-cases (i == j)) [
    | inl same ↦ absurd (ground (arith, same))
    | inr other ↦ rw other (lookup-init j k v es (ground (arith, other)))
  ]

  pub Unique-snoc :
      (k : ℕ) (v : V) (es : List (ℕ × V))
      → Unique (es ++ ((k, v) ∷ []))
      → (lookup k es ≡ none) × Unique es
  Unique-snoc k v [] u = (refl, refl)
  Unique-snoc k v ((i, w) ∷ es) u =
      let r = lookup-init i k v es u.0 in
      let other : (i == k) ≡ false = ground (arith, r.1) in
      let rest = Unique-snoc k v es u.1 in rw other (rest.0, (r.0, rest.1))

  abbrev get_refresh : ℕ → Entries V → Option (V × (V → Entries V))
  get_refresh k m = elim (lookup k m.0) [ none ↦ none | some v ↦ some (v, λ w. moved_last k w m) ]

  abbrev insert : ℕ → V → Entries V → Entries V
  insert k v m = moved_last k v m

  abbrev pop_back : Entries V → Option ((ℕ × V) × Entries V)
  pop_back ([], u) = none
  pop_back ((e ∷ es), u) =
      let r = split_last e es in
      some (r.1, (r.0, (Unique-snoc r.1.0 r.1.1 r.0 (subst Unique (split_last-append e es) u)).1))

  pub get_refresh-missing :
      (k : ℕ) (m : Entries V) (o : Option V)
      → lookup k m.0 ≡ o
      → elim o as (λ _. Option (V × (V → Entries V))) [
        | none ↦ none
        | some v ↦ some (v, λ w. moved_last k w m)
      ]
        ≡ none
      → o ≡ none
  get_refresh-missing k m none e f = refl
  get_refresh-missing k m (some v) e f = absurd (ground arith)

  pub get_refresh-found :
      (k : ℕ) (m : Entries V) (v w : V) (put : V → Entries V) (o : Option V)
      → lookup k m.0 ≡ o
      → elim o as (λ _. Option (V × (V → Entries V))) [
        | none ↦ none
        | some v ↦ some (v, λ w. moved_last k w m)
      ]
        ≡ some (v, put)
      → (o ≡ some v) × ((put w).0 ≡ erase k m.0 ++ ((k, w) ∷ []))
  get_refresh-found k m v w put none e f = absurd (ground arith)
  get_refresh-found k m v w put (some x) e f =
      let pair = ap (get_or (v, put)) f in (ap (λ t. some t.0) pair, sym (ap (λ t. (t.1 w).0) pair))

  pub pop_back-found :
      (m n : Entries V) (k : ℕ) (v : V)
      → pop_back m ≡ some ((k, v), n)
      → (m.0 ≡ n.0 ++ ((k, v) ∷ [])) × (lookup k n.0 ≡ none)
  pop_back-found ([], u) n k v e = absurd (ground arith)
  pop_back-found ((x ∷ es), u) n k v e =
      let r = split_last x es in
      let last = Unique-snoc r.1.0 r.1.1 r.0 (subst Unique (split_last-append x es) u) in
      let pair = ap (get_or ((k, v), n)) e in
      (
        split_last-append x es ∙ ap (λ t. t.1.0 ++ (t.0 ∷ [])) pair,
        subst (λ t. lookup t.0.0 t.1.0 ≡ none) pair last.0,
      )

  pub pop_back-nothing : (m : Entries V) → pop_back m ≡ none → m.0 ≡ []
  pop_back-nothing ([], u) e = refl
  pop_back-nothing ((x ∷ es), u) e = absurd (ground arith)

  unfoldable pub list_map : LinkedHashMap V
  list_map = record {
    Map = Entries V;
    entries = λ m. m.0;
    new = ([], refl);
    get_refresh = get_refresh;
    insert = insert;
    pop_back = pop_back;
    entries-new = refl;
    get_refresh-none = λ k m e. get_refresh-missing k m (lookup k m.0) refl e;
    get_refresh-some = λ k m v w put e.
        let r = get_refresh-found k m v w put (lookup k m.0) refl e in
        (r.0, r.1, lookup-erased k m.0 m.1);
    entries-insert = λ k v m e. ap (◌++ ((k, v) ∷ [])) (erase-none k m.0 e);
    pop_back-none = pop_back-nothing;
    pop_back-some = pop_back-found;
  }
