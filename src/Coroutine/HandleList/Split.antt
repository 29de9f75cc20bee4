-- ===== src/Coroutine/HandleList/Split.antt =====
-- `split_off_front` of src/coroutine.rs.
use coio_rs.Base.{
  ℕ, zero, suc, ◌-◌, ◌≤◌, ◌<◌, ◌≡◌, refl, ◌∙◌, sym, ap, ap₂, subst, inl, inr, false, List, [], ◌∷◌,
  ◌++◌, Option, none, some, arith, ◌==◌, length, take, drop, take-append-drop, length-append,
  dec_lt,
}
use coio_rs.Coroutine.HandleList.{
  Handle, Heap, HandleList, new, set_prev, set_next, walk, split_off_front,
}
use coio_rs.Coroutine.HandleList.Dll.{
  Distinct, Disjoint, last_or, Chain, spanning, IsList, SameOutside, has-append, Chain-frame,
  Chain-append, Chain-split, last_or-append, Distinct-split, snoc_cases, last_or-snoc,
}

walk-last_or :
    (h : Heap) (p e : Option Handle) (x : Handle) (xs : List Handle)
    → Chain h p (x ∷ xs) e
    → walk (length xs) h x ≡ last_or (some x) xs
unfolding walk
walk-last_or h p e x [] c = refl
walk-last_or h p e x (y ∷ ys) c = rw (c.1, walk) (walk-last_or h (some x) e y ys c.2)

-- What splitting a list into one of `xs` and one of `ys` must give.
abbrev pub Splits : Heap → List Handle → List Handle → HandleList × Heap × HandleList → Type 0
Splits h xs ys (front, g, l) = IsList g front xs × IsList g l ys × SameOutside (xs ++ ys) h g

module _ (h : Heap) (zs : List Handle) (p b : Handle) (bs : List Handle) where
  abbrev split_heap : Heap
  split_heap = set_prev (set_next h p none) b none

  split_chains :
      Chain h none ((zs ++ (p ∷ [])) ++ (b ∷ bs)) none
      → Distinct ((zs ++ (p ∷ [])) ++ (b ∷ bs))
      → Splits h
          (zs ++ (p ∷ []))
          (b ∷ bs)
          (spanning (zs ++ (p ∷ [])), split_heap, spanning (b ∷ bs))
        × ((h p).next ≡ some b)
  unfolding set_prev set_next
  split_chains chain distinct = (
    (
      record {
        spans = refl;
        chain =
            Chain-append split_heap none none zs (p ∷ [])
              (Chain-frame h split_heap none (some p) zs front.0
                (λ a i. ground (arith, apart_p a i, apart a, has-append a zs (p ∷ []))))
              (ground (arith, ne, front.1), ground (arith, ne), tt);
        distinct = pieces.0;
      },
      record {
        spans = refl;
        chain = (
          ground arith,
          ground (arith, ne, ends.1),
          Chain-frame h split_heap (some b) none bs ends.1.2
              (λ a i. ground (arith, apart p, has-append p zs (p ∷ []), pieces.1)),
        );
        distinct = pieces.1;
      },
      λ a i. ground (arith, has-append a (zs ++ (p ∷ [])) (b ∷ bs), has-append a zs (p ∷ [])),
    ),
    front.1.1,
  )
    where
      ends :
          Chain h none (zs ++ (p ∷ [])) (some b)
          × Chain h (last_or none (zs ++ (p ∷ []))) (b ∷ bs) none
      ends = Chain-split h none none (zs ++ (p ∷ [])) (b ∷ bs) chain

      front : Chain h none zs (some p) × Chain h (last_or none zs) (p ∷ []) (some b)
      front = Chain-split h none (some b) zs (p ∷ []) ends.0

      pieces : Distinct (zs ++ (p ∷ [])) × Distinct (b ∷ bs) × Disjoint (zs ++ (p ∷ [])) (b ∷ bs)
      pieces = Distinct-split (zs ++ (p ∷ [])) (b ∷ bs) distinct

      apart : Disjoint (zs ++ (p ∷ [])) (b ∷ bs)
      apart = pieces.2

      apart_p : Disjoint zs (p ∷ [])
      apart_p = (Distinct-split zs (p ∷ []) pieces.0).2

      ne : (p == b) ≡ false
      ne = ground (arith, apart p, has-append p zs (p ∷ []))

split_walk :
    (h : Heap) (l : HandleList) (n : ℕ) (x p b : Handle)
    → n < l.length
    → 0 < n
    → l.head ≡ some x
    → walk (n - 1) h x ≡ some p
    → (h p).next ≡ some b
    → split_off_front h l n
      ≡ some (
        record { length = n; head = some x; tail = some p },
        set_prev (set_next h p none) b none,
        record { length = l.length - n; head = some b; tail = l.tail },
      )
unfolding split_off_front
split_walk h l n x p b lt pos first steps link = ground arith

split_at :
    (h : Heap) (x b : Handle) (xs bs : List Handle)
    → Chain h none ((x ∷ xs) ++ (b ∷ bs)) none
    → Distinct ((x ∷ xs) ++ (b ∷ bs))
    → (r : HandleList × Heap × HandleList) × (split_off_front h
          (spanning ((x ∷ xs) ++ (b ∷ bs)))
          (suc (length xs))
        ≡ some r)
      × Splits h (x ∷ xs) (b ∷ bs) r
unfolding split_off_front
split_at h x b xs bs chain distinct = elim (snoc_cases (x ∷ xs)) [
  | inl e ↦ cc
  | inr (zs, p, e) ↦
      let (parts, link) =
        split_chains h zs p b bs (subst (λ t. Chain h none (t ++ (b ∷ bs)) none) e chain)
          (subst (λ t. Distinct (t ++ (b ∷ bs))) e distinct) in
      let last : last_or (some x) xs ≡ some p = ap (last_or none) e ∙ last_or-snoc none zs p in
      let steps : walk (length xs) h x ≡ some p =
        walk-last_or h none (some b) x xs (Chain-split h none none (x ∷ xs) (b ∷ bs) chain).0
        ∙ last in
      (
        (spanning (x ∷ xs), split_heap h zs p b bs, spanning (b ∷ bs)),
        split_walk h (spanning ((x ∷ xs) ++ (b ∷ bs))) (suc (length xs)) x p b
              (omega (arith, length-append xs (b ∷ bs))) (omega arith) refl
              (ap (λ k. walk k h x) (omega arith) ∙ steps) link
            ∙ ap₂ (λ s t. some (s, split_heap h zs p b bs, t)) (ground (arith, last))
                (ground (arith, length-append xs (b ∷ bs), last_or-append (some x) xs (b ∷ bs))),
        subst (λ t. Splits h t (b ∷ bs) (spanning t, split_heap h zs p b bs, spanning (b ∷ bs)))
            (sym e) parts,
      )
]

take_all : (n : ℕ) (xs : List Handle) → length xs ≤ n → (take n xs ≡ xs) × (drop n xs ≡ [])
take_all zero [] h = (refl, refl)
take_all zero (x ∷ xs) h = absurd (omega arith)
take_all (suc n) [] h = (refl, refl)
take_all (suc n) (x ∷ xs) h = let (l, r) = take_all n xs (omega arith) in (ap (λ t. x ∷ t) l, r)

drop_cons :
    (n : ℕ) (xs : List Handle)
    → n < length xs
    → (b : Handle) × (bs : List Handle) × (drop n xs ≡ b ∷ bs) × (length (take n xs) ≡ n)
drop_cons n [] h = absurd (omega arith)
drop_cons zero (x ∷ xs) h = (x, xs, refl, refl)
drop_cons (suc n) (x ∷ xs) h =
    let (b, bs, e, f) = drop_cons n xs (omega arith) in (b, bs, e, ap suc f)

-- What `split_off_front` must come to on the list that spans `xs`.
abbrev SplitsAt : Heap → List Handle → ℕ → HandleList → Type 0
SplitsAt h xs n l =
    (r : HandleList × Heap × HandleList) × (split_off_front h l n ≡ some r)
    × Splits h (take n xs) (drop n xs) r

split_whole :
    (h : Heap) (xs : List Handle) (n : ℕ)
    → Chain h none xs none
    → Distinct xs
    → length xs ≤ n
    → SplitsAt h xs n (spanning xs)
unfolding split_off_front
split_whole h xs n chain distinct le =
    let (l, r) = take_all n xs le in
    rw (l, r)
      (
        (spanning xs, h, new),
        ground arith,
        (
          record { spans = refl; chain = chain; distinct = distinct },
          record { spans = refl; chain = tt; distinct = tt },
          λ a i. refl,
        ),
      )

split_part :
    (h : Heap) (xs : List Handle) (n : ℕ)
    → Chain h none xs none
    → Distinct xs
    → n < length xs
    → SplitsAt h xs n (spanning xs)
unfolding split_off_front
split_part h [] n chain distinct lt = absurd (omega arith)
split_part h (x ∷ xs) zero chain distinct lt = (
  (new, h, spanning (x ∷ xs)),
  ground arith,
  (
    record { spans = refl; chain = tt; distinct = tt },
    record { spans = refl; chain = chain; distinct = distinct },
    λ a i. refl,
  ),
)
split_part h (x ∷ xs) (suc m) chain distinct lt =
    let (b, bs, e, f) = drop_cons m xs (omega arith) in
    let whole : xs ≡ take m xs ++ (b ∷ bs) =
      sym (take-append-drop m xs) ∙ ap (λ t. take m xs ++ t) e in
    let (r, s, parts) =
      split_at h x b (take m xs) bs (subst (λ t. Chain h none (x ∷ t) none) whole chain)
        (subst (λ t. Distinct (x ∷ t)) whole distinct) in
    (
      r,
      subst (λ t. split_off_front h (spanning (x ∷ t)) (suc m) ≡ some r) (sym whole)
          (subst (λ k. split_off_front h (spanning (x ∷ (take m xs ++ (b ∷ bs)))) (suc k) ≡ some r)
            f s),
      subst (λ t. Splits h (x ∷ take m xs) t r) (sym e) parts,
    )

-- `split_off_front(n)` never panics on a well-formed list: it gives a list of the first `n` handles
-- and leaves one of the rest, or gives all if there are no more than `n`. No other coroutine changes.
pub split_off_front-take :
    (h : Heap) (l : HandleList) (xs : List Handle) (n : ℕ)
    → IsList h l xs
    → (r : HandleList × Heap × HandleList) × (split_off_front h l n ≡ some r)
      × Splits h (take n xs) (drop n xs) r
split_off_front-take h l xs n is =
    subst (SplitsAt h xs n) (sym is.spans) (elim (dec_lt n (length xs)) [
      | yes lt ↦ split_part h xs n is.chain is.distinct lt
      | no ge ↦ split_whole h xs n is.chain is.distinct (omega arith)
    ])
