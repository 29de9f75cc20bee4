-- ===== src/Runtime/StackPool/Buckets.antt =====
-- The buckets of src/runtime/stack_pool.rs, and the pool to which a stack was returned.
use coio_rs.Base.{
  ℕ, ◌+◌, ◌≤◌, ◌<◌, ◌≡◌, ◌⊎◌, refl, sym, ap, subst, ◌∙◌, true, Option, none, some, List, [], ◌∷◌,
  ◌++◌, arith, leb, ◌==◌, if◌then◌else◌, usize_mod, wrapping_add, Bool-cases, inl, inr,
}
use coio_rs.Runtime.LinkedHashMap.{LinkedHashMap, lookup, erase, erase-none}
use coio_rs.Runtime.StackPool.{Stack, StackPool, lower_bound, returned}
use coio_rs.Runtime.StackPool.Evict.{
  bytes, evict, newest, Sized, AllSized, bytes-append, newest-append, AllSized-append, evict-le,
}
use coio_rs.Runtime.StackPool.Loops.{stacks, IsValid, ShrinksTo}
use coio_rs.Runtime.StackPool.Shrink.{kept}

module _ {Raw : Type 0} where
  pub bytes-erase :
      (k : ℕ) (es : List (ℕ × List (Stack Raw))) (c : List (Stack Raw))
      → lookup k es ≡ some c
      → bytes (newest es) ≡ bytes c + bytes (newest (erase k es))
  bytes-erase k [] c e = ground arith
  bytes-erase k ((i, b) ∷ es) c e = elim (Bool-cases (i == k)) [
    | inl same ↦ ground (arith, same, bytes-append (newest es) b)
    | inr other ↦ ground (
      arith,
      other,
      bytes-append (newest es) b,
      bytes-append (newest (erase k es)) b,
      bytes-erase k es c,
    )
  ]

  pub AllSized-erase :
      (k : ℕ) (es : List (ℕ × List (Stack Raw))) → AllSized es → AllSized (erase k es)
  AllSized-erase k [] a = refl
  AllSized-erase k ((i, b) ∷ es) a = elim (Bool-cases (i == k)) [
    | inl same ↦ rw same a.1
    | inr other ↦ rw other (a.0, AllSized-erase k es a.1)
  ]

  pub Sized-lookup :
      (k : ℕ) (es : List (ℕ × List (Stack Raw))) (c : List (Stack Raw))
      → AllSized es
      → lookup k es ≡ some c
      → Sized k c
  Sized-lookup k [] c a e = ground arith
  Sized-lookup k ((i, b) ∷ es) c a e = elim (Bool-cases (i == k)) [
    | inl same ↦
        let found : b ≡ c = ground (arith, same) in
        subst (Sized k) found (subst (λ n. Sized n b) (ground (arith, same)) a.0)
    | inr other ↦ Sized-lookup k es c a.1 (ground (arith, other))
  ]

  abbrev pub bucket_of : Option (List (Stack Raw)) → List (Stack Raw)
  bucket_of none = []
  bucket_of (some cached) = cached

  abbrev pub bucket : ℕ → List (ℕ × List (Stack Raw)) → List (Stack Raw)
  bucket k es = bucket_of (lookup k es)

  lookup-append :
      (k : ℕ) (es : List (ℕ × List (Stack Raw))) (c : List (Stack Raw))
      → lookup k es ≡ none
      → lookup k (es ++ ((k, c) ∷ [])) ≡ some c
  lookup-append k [] c e = ground arith
  lookup-append k ((i, b) ∷ es) c e = ground (arith, lookup-append k es c)

module _ {Raw : Type 0} (H : LinkedHashMap (List (Stack Raw))) where
  -- The stacks of a pool, those of a bucket first.
  abbrev pub refreshed : ℕ → StackPool H → List (Stack Raw)
  refreshed k p = bucket k (H.entries p.inner) ++ newest (erase k (H.entries p.inner))

  -- The total size is not above the high water mark, or was brought down to the lower bound.
  abbrev pub Within : StackPool H → Type 0
  Within p = elim p.higher_water_mark [
    | none ↦ true ≡ true
    | some hwm ↦ (p.total_size ≤ hwm) ⊎ (p.total_size ≤ lower_bound H hwm p.lower_water_mark)
  ]

  kept-Within :
      (p q : StackPool H) (mark : Option ℕ)
      → IsValid H p
      → IsValid H q
      → p.higher_water_mark ≡ mark
      → q.higher_water_mark ≡ mark
      → q.lower_water_mark ≡ p.lower_water_mark
      → stacks H q ≡ kept H p
      → Within q
  unfolding IsValid
  kept-Within p q none v w e f g k = rw f refl
  kept-Within p q (some hwm) v w e f g k =
      let bound = lower_bound H hwm p.lower_water_mark in
      let cut : stacks H q
          ≡ (if leb p.total_size hwm then stacks H p else evict bound (stacks H p)) =
        subst
          (λ mark. stacks H q ≡ elim mark [
            | none ↦ stacks H p
            | some h ↦
                if leb p.total_size h
                then stacks H p
                else evict (lower_bound H h p.lower_water_mark) (stacks H p)
          ])
          e k in
      rw (f, g)
        (elim (Bool-cases (leb p.total_size hwm)) [
          | inl le ↦
              let same : stacks H q ≡ stacks H p =
                subst (λ b. stacks H q ≡ (if b then stacks H p else evict bound (stacks H p))) le
                  cut in
              inl (ground (arith, le, v.0, w.0, ap bytes same))
          | inr gt ↦
              let less : stacks H q ≡ evict bound (stacks H p) =
                subst (λ b. stacks H q ≡ (if b then stacks H p else evict bound (stacks H p))) gt
                  cut in
              inr (omega (arith, w.0, ap bytes less, evict-le bound (stacks H p)))
        ])

  pub ShrinksTo-Within :
      (p : StackPool H) (o : Option (StackPool H))
      → IsValid H p
      → ShrinksTo H (kept H p) p o
      → (q : StackPool H) × (o ≡ some q) × IsValid H q × Within q
  unfolding ShrinksTo
  ShrinksTo-Within p o v (q, e, w, k, high, low) =
      (q, e, w, kept-Within p q p.higher_water_mark v w refl high low k)

  pub entries-returned :
      (s : Stack Raw) (p : StackPool H) (o : Option (List (Stack Raw) × (List (Stack Raw) → H.Map)))
      → H.get_refresh s.size p.inner ≡ o
      → (H.entries (returned H s p.inner)
          ≡ erase s.size (H.entries p.inner)
            ++ ((s.size, s ∷ bucket s.size (H.entries p.inner)) ∷ []))
        × (lookup s.size (erase s.size (H.entries p.inner)) ≡ none)
  unfolding returned
  entries-returned s p none e =
      let free = H.get_refresh-none s.size p.inner e in
      rw (returned, e, free, erase-none s.size (H.entries p.inner) free)
        (H.entries-insert s.size (s ∷ []) p.inner free, free)
  entries-returned s p (some (cached, put)) e =
      let r = H.get_refresh-some s.size p.inner cached (s ∷ cached) put e in
      rw (returned, e, r.0) (r.1, r.2)

  pub returned-refreshed :
      (s : Stack Raw) (p : StackPool H)
      → (newest (H.entries (returned H s p.inner)) ≡ s ∷ refreshed s.size p)
        × (lookup s.size (H.entries (returned H s p.inner))
            ≡ some (s ∷ bucket s.size (H.entries p.inner)))
  returned-refreshed s p =
      let k = s.size in
      let es = H.entries p.inner in
      let r = entries-returned s p (H.get_refresh s.size p.inner) refl in
      (
        ap newest r.0 ∙ newest-append (erase k es) k (s ∷ bucket k es),
        ap (lookup k) r.0 ∙ lookup-append k (erase k es) (s ∷ bucket k es) r.1,
      )

  abbrev pub returned_pool : Stack Raw → StackPool H → StackPool H
  returned_pool s p = record p {
    inner = returned H s p.inner;
    total_size = wrapping_add p.total_size s.size;
  }

  bytes-refreshed :
      (k : ℕ) (es : List (ℕ × List (Stack Raw))) (o : Option (List (Stack Raw)))
      → lookup k es ≡ o
      → bytes (bucket k es ++ newest (erase k es)) ≡ bytes (newest es)
  bytes-refreshed k es none e =
      subst (λ c. bytes (c ++ newest (erase k es)) ≡ bytes (newest es)) (sym (ap bucket_of e))
        (ap (λ l. bytes (newest l)) (erase-none k es e))
  bytes-refreshed k es (some c) e =
      subst (λ c. bytes (c ++ newest (erase k es)) ≡ bytes (newest es)) (sym (ap bucket_of e))
        (bytes-append c (newest (erase k es)) ∙ sym (bytes-erase k es c e))

  Sized-bucket :
      (k : ℕ) (es : List (ℕ × List (Stack Raw))) (o : Option (List (Stack Raw)))
      → lookup k es ≡ o
      → AllSized es
      → Sized k (bucket k es)
  Sized-bucket k es none e a = subst (Sized k) (sym (ap bucket_of e)) refl
  Sized-bucket k es (some c) e a = subst (Sized k) (sym (ap bucket_of e)) (Sized-lookup k es c a e)

  pub returned_pool-IsValid :
      (s : Stack Raw) (p : StackPool H)
      → IsValid H p
      → p.total_size + s.size < usize_mod
      → IsValid H (returned_pool s p)
  unfolding IsValid
  returned_pool-IsValid s p v small =
      let k = s.size in
      let es = H.entries p.inner in
      let r = returned-refreshed s p in
      let b = bytes-refreshed k es (lookup k es) refl in
      (
        omega (arith, small, v.0, ap bytes r.0, b),
        subst AllSized (sym (entries-returned s p (H.get_refresh s.size p.inner) refl).0) (
            AllSized-append (erase k es) k (s ∷ bucket k es) (AllSized-erase k es v.1)
              (refl, Sized-bucket k es (lookup k es) refl v.1)),
        omega arith,
      )
