-- ===== src/Runtime/StackPool/Evict.antt =====
-- The specification of the shrinking of src/runtime/stack_pool.rs on lists, and what a bucket's loop
-- does to one.
use coio_rs.Base.{
  ℕ, ◌+◌, ◌≤◌, ◌<◌, ◌≡◌, refl, sym, ap, subst, ◌∙◌, Bool, true, false, List, [], ◌∷◌, ◌++◌, arith,
  leb, if◌then◌else◌, usize_mod, wrapping_sub, Bool-cases, inl, inr,
}
use mathlib.Core.List.{append_assoc, append-nil}
use coio_rs.Runtime.LinkedHashMap.{LinkedHashMap}
use coio_rs.Runtime.StackPool.{Stack, drop_bucket}

module _ {Raw : Type 0} where
  abbrev pub bytes : List (Stack Raw) → ℕ
  bytes [] = 0
  bytes (s ∷ l) = s.size + bytes l

  -- The longest end of a list that has no more bytes than the bound.
  abbrev pub evict : ℕ → List (Stack Raw) → List (Stack Raw)
  evict bound [] = []
  evict bound (s ∷ l) =
      let rest = evict bound l in if leb (s.size + bytes l) bound then s ∷ l else rest

  -- The stacks of a map, those of the bucket that was used last first, and within a bucket the one that
  -- came last first.
  abbrev pub newest : List (ℕ × List (Stack Raw)) → List (Stack Raw)
  newest [] = []
  newest ((k, cached) ∷ es) = newest es ++ cached

  -- All stacks of a bucket have its size.
  abbrev pub Sized : ℕ → List (Stack Raw) → Type 0
  Sized k [] = true ≡ true
  Sized k (s ∷ l) = (s.size ≡ k) × Sized k l

  abbrev pub AllSized : List (ℕ × List (Stack Raw)) → Type 0
  AllSized [] = true ≡ true
  AllSized ((k, cached) ∷ es) = Sized k cached × AllSized es

  pub bytes-append : (xs ys : List (Stack Raw)) → bytes (xs ++ ys) ≡ bytes xs + bytes ys
  bytes-append [] ys = omega arith
  bytes-append (x ∷ xs) ys = omega (arith, bytes-append xs ys)

  pub newest-append :
      (es : List (ℕ × List (Stack Raw))) (k : ℕ) (c : List (Stack Raw))
      → newest (es ++ ((k, c) ∷ [])) ≡ c ++ newest es
  newest-append [] k c = sym (append-nil c)
  newest-append ((i, b) ∷ es) k c = ap (◌++ b) (newest-append es k c) ∙ append_assoc c (newest es) b

  pub AllSized-append :
      (es : List (ℕ × List (Stack Raw))) (k : ℕ) (c : List (Stack Raw))
      → AllSized es
      → Sized k c
      → AllSized (es ++ ((k, c) ∷ []))
  AllSized-append [] k c a s = (s, refl)
  AllSized-append ((i, b) ∷ es) k c a s = (a.0, AllSized-append es k c a.1 s)

  pub AllSized-init :
      (es : List (ℕ × List (Stack Raw))) (k : ℕ) (c : List (Stack Raw))
      → AllSized (es ++ ((k, c) ∷ []))
      → AllSized es × Sized k c
  AllSized-init [] k c a = (refl, a.0)
  AllSized-init ((i, b) ∷ es) k c a = let r = AllSized-init es k c a.1 in ((a.0, r.0), r.1)

  pub evict-le : (bound : ℕ) (l : List (Stack Raw)) → bytes (evict bound l) ≤ bound
  evict-le bound [] = omega arith
  evict-le bound (s ∷ l) = ground (arith, evict-le bound l)

  -- What the inner loop leaves, with the stacks `older` of the other buckets behind the bucket's.
  unfoldable pub Drops :
      ℕ → ℕ → List (Stack Raw) → List (Stack Raw) → (List (Stack Raw) × ℕ) × Bool → Type 0
  Drops size bound cached older ((rest, total), true) =
      (evict bound (cached ++ older) ≡ rest ++ older)
      × (total ≡ bytes (rest ++ older))
      × Sized size rest
  Drops size bound cached older ((rest, total), false) =
      (evict bound (cached ++ older) ≡ evict bound older) × (total ≡ bytes older) × (bound < total)

  pub evict_id : (bound : ℕ) (l : List (Stack Raw)) → bytes l ≤ bound → evict bound l ≡ l
  evict_id bound [] le = refl
  evict_id bound (s ∷ l) le = ground arith

  pub evict-cons :
      (bound : ℕ) (s : Stack Raw) (l : List (Stack Raw))
      → bound < s.size + bytes l
      → evict bound (s ∷ l) ≡ evict bound l
  evict-cons bound s l lt = ground arith

  Drops-cons :
      (size bound : ℕ) (s : Stack Raw) (cached older : List (Stack Raw))
      (r : (List (Stack Raw) × ℕ) × Bool)
      → evict bound (s ∷ (cached ++ older)) ≡ evict bound (cached ++ older)
      → Drops size bound cached older r
      → Drops size bound (s ∷ cached) older r
  unfolding Drops
  Drops-cons size bound s cached older ((rest, total), true) e d = (e ∙ d.0, d.1, d.2)
  Drops-cons size bound s cached older ((rest, total), false) e d = (e ∙ d.0, d.1, d.2)

  pub drop_bucket-Drops :
      (H : LinkedHashMap (List (Stack Raw))) (size bound : ℕ) (cached older : List (Stack Raw))
      (total : ℕ)
      → Sized size cached
      → total ≡ bytes (cached ++ older)
      → bound < total
      → total < usize_mod
      → Drops size bound cached older (drop_bucket H size bound cached total)
  unfolding Drops drop_bucket
  drop_bucket-Drops H size bound [] older total a e lt small = (refl, e, lt)
  drop_bucket-Drops H size bound (s ∷ cached) older total a e lt small =
      let p : wrapping_sub total size ≡ bytes (cached ++ older) = omega (arith, a.0, e) in
      let skips : evict bound (s ∷ (cached ++ older)) ≡ evict bound (cached ++ older) =
        evict-cons bound s (cached ++ older) (omega (arith, e)) in
      let goal : Bool → Type 0 = λ b. Drops size bound (s ∷ cached) older (elim b [
        | true ↦ ((cached, wrapping_sub total size), true)
        | false ↦ drop_bucket H size bound cached (wrapping_sub total size)
      ]) in
      elim (Bool-cases (leb (wrapping_sub total size) bound)) [
        | inl le ↦
            subst goal (sym le)
              (skips ∙ evict_id bound (cached ++ older) (ground (arith, p)), p, a.1)
        | inr gt ↦ subst goal (sym gt) (
            Drops-cons size bound s cached older
              (drop_bucket H size bound cached (wrapping_sub total size)) skips
              (drop_bucket-Drops H size bound cached older (wrapping_sub total size) a.1 p
                (ground arith) (omega arith)))
      ]
