-- ===== src/Runtime/StackPool/Loops.antt =====
-- The loops of `try_shrink` of src/runtime/stack_pool.rs.
use coio_rs.Base.{
  ℕ, zero, suc, ◌≤◌, ◌<◌, ◌≡◌, refl, sym, ap, subst, ◌∙◌, Bool, true, false, Option, none, some,
  List, [], ◌∷◌, ◌++◌, arith, ltb, if◌then◌else◌, usize_mod, Bool-cases, ltb→lt, inl, inr, length,
  length-append,
}
use coio_rs.Runtime.LinkedHashMap.{LinkedHashMap, lookup}
use coio_rs.Runtime.StackPool.{Stack, StackPool, drop_bucket, put_back, shrink_loop}
use coio_rs.Runtime.StackPool.Evict.{
  bytes, evict, newest, Sized, AllSized, bytes-append, newest-append, AllSized-append,
  AllSized-init, evict-le, evict_id, Drops, drop_bucket-Drops,
}

module _ {Raw : Type 0} (H : LinkedHashMap (List (Stack Raw))) where
  abbrev pub stacks : StackPool H → List (Stack Raw)
  stacks p = newest (H.entries p.inner)

  -- The total size is that of the stacks in the pool, which is a machine word, and each stack is in the
  -- bucket of its size.
  unfoldable pub IsValid : StackPool H → Type 0
  IsValid p =
      (p.total_size ≡ bytes (stacks p)) × AllSized (H.entries p.inner) × (p.total_size < usize_mod)

  -- A pool that was shrunk to a list of stacks.
  unfoldable pub ShrinksTo : List (Stack Raw) → StackPool H → Option (StackPool H) → Type 0
  ShrinksTo kept p out =
      (q : StackPool H) × (out ≡ some q)
      × IsValid q
      × (stacks q ≡ kept)
      × (q.higher_water_mark ≡ p.higher_water_mark)
      × (q.lower_water_mark ≡ p.lower_water_mark)

  put_back-stacks :
      (size : ℕ) (rest : List (Stack Raw)) (m : H.Map)
      → lookup size (H.entries m) ≡ none
      → AllSized (H.entries m)
      → Sized size rest
      → (newest (H.entries (put_back H size rest m)) ≡ rest ++ newest (H.entries m))
        × AllSized (H.entries (put_back H size rest m))
  unfolding put_back
  put_back-stacks size [] m free a s = (refl, a)
  put_back-stacks size (x ∷ rest) m free a s =
      let e = H.entries-insert size (x ∷ rest) m free in
      (
        ap newest e ∙ newest-append (H.entries m) size (x ∷ rest),
        subst AllSized (sym e) (AllSized-append (H.entries m) size (x ∷ rest) a s),
      )

  -- The loop behind the loop of a bucket.
  abbrev after_bucket :
      ℕ → ℕ → StackPool H → ℕ → H.Map → (List (Stack Raw) × ℕ) × Bool → Option (StackPool H)
  after_bucket fuel bound p size m ((rest, total), reached) = elim reached [
    | true ↦ some (record p { inner = put_back H size rest m; total_size = total })
    | false ↦ shrink_loop H fuel bound (record p { inner = m; total_size = total })
  ]

  unfoldable pub Loops : ℕ → ℕ → StackPool H → Type 0
  Loops fuel bound p = ShrinksTo (evict bound (stacks p)) p (shrink_loop H fuel bound p)

  after_bucket-ShrinksTo :
      (fuel bound : ℕ) (p : StackPool H) (size : ℕ) (cached : List (Stack Raw)) (m : H.Map)
      (r : (List (Stack Raw) × ℕ) × Bool)
      → lookup size (H.entries m) ≡ none
      → AllSized (H.entries m)
      → Drops size bound cached (newest (H.entries m)) r
      → IsValid p
      → bound < p.total_size
      → stacks p ≡ cached ++ newest (H.entries m)
      → ((total : ℕ)
          → IsValid (record p { inner = m; total_size = total })
          → Loops fuel bound (record p { inner = m; total_size = total }))
      → ShrinksTo (evict bound (stacks p)) p (after_bucket fuel bound p size m r)
  unfolding Drops IsValid ShrinksTo Loops
  after_bucket-ShrinksTo fuel bound p size cached m ((rest, total), true) free a d v lt e next =
      let b = put_back-stacks size rest m free a d.2 in
      let le : bytes (rest ++ newest (H.entries m)) ≤ bound =
        subst (λ l. bytes l ≤ bound) d.0 (evict-le bound (cached ++ newest (H.entries m))) in
      (
        record p { inner = put_back H size rest m; total_size = total },
        refl,
        (d.1 ∙ ap bytes (sym b.0), b.1, omega (arith, d.1, le, v.2)),
        b.0 ∙ sym d.0 ∙ ap (evict bound) (sym e),
        refl,
        refl,
      )
  after_bucket-ShrinksTo fuel bound p size cached m ((rest, total), false) free a d v lt e next =
      let small : total < usize_mod =
        omega (arith, d.1, v.0, v.2, ap bytes e, bytes-append cached (newest (H.entries m))) in
      subst
        (λ l. ShrinksTo l p (shrink_loop H fuel bound (record p { inner = m; total_size = total })))
        (sym (ap (evict bound) e ∙ d.0)) (next total (d.1, a, small))

  bucket_popped :
      (bound : ℕ) (p : StackPool H) (size : ℕ) (cached : List (Stack Raw)) (m : H.Map)
      → H.pop_back p.inner ≡ some ((size, cached), m)
      → IsValid p
      → (lookup size (H.entries m) ≡ none)
        × AllSized (H.entries m)
        × Sized size cached
        × (stacks p ≡ cached ++ newest (H.entries m))
        × (length (H.entries p.inner) ≡ suc (length (H.entries m)))
  unfolding IsValid
  bucket_popped bound p size cached m e v =
      let r = H.pop_back-some p.inner m size cached e in
      let a = AllSized-init (H.entries m) size cached (subst AllSized r.0 v.1) in
      (
        r.1,
        a.0,
        a.1,
        ap newest r.0 ∙ newest-append (H.entries m) size cached,
        ap length r.0 ∙ length-append (H.entries m) ((size, cached) ∷ []) ∙ omega arith,
      )

  kept-ShrinksTo :
      (bound : ℕ) (p : StackPool H)
      → IsValid p
      → p.total_size ≤ bound
      → ShrinksTo (evict bound (stacks p)) p (some p)
  unfolding ShrinksTo IsValid
  kept-ShrinksTo bound p v le =
      (p, refl, v, sym (evict_id bound (stacks p) (omega (arith, v.0))), refl, refl)

  -- A round that is above the bound.
  abbrev after_pop :
      ℕ → ℕ → StackPool H → Option ((ℕ × List (Stack Raw)) × H.Map) → Option (StackPool H)
  after_pop fuel bound p none = some p
  after_pop fuel bound p (some ((size, cached), m)) =
      after_bucket fuel bound p size m (drop_bucket H size bound cached p.total_size)

  stacks-nil : (p : StackPool H) → H.pop_back p.inner ≡ none → IsValid p → p.total_size ≡ 0
  unfolding IsValid
  stacks-nil p e v = v.0 ∙ ap (λ es. bytes (newest es)) (H.pop_back-none p.inner e)

  after_pop-ShrinksTo :
      (fuel bound : ℕ) (p : StackPool H) (o : Option ((ℕ × List (Stack Raw)) × H.Map))
      → H.pop_back p.inner ≡ o
      → length (H.entries p.inner) < suc fuel
      → IsValid p
      → bound < p.total_size
      → ((q : StackPool H) → length (H.entries q.inner) < fuel → IsValid q → Loops fuel bound q)
      → ShrinksTo (evict bound (stacks p)) p (after_pop fuel bound p o)
  unfolding IsValid
  after_pop-ShrinksTo fuel bound p none e le v lt next = absurd (omega (arith, stacks-nil p e v))
  after_pop-ShrinksTo fuel bound p (some ((size, cached), m)) e le v lt next =
      let b = bucket_popped bound p size cached m e v in
      after_bucket-ShrinksTo fuel bound p size cached m
        (drop_bucket H size bound cached p.total_size) b.0 b.1
        (drop_bucket-Drops H size bound cached (newest (H.entries m)) p.total_size b.2
          (v.0 ∙ ap bytes b.3) lt v.2)
        v lt b.3
        (λ total w. next (record p { inner = m; total_size = total }) (omega (arith, b.4, le)) w)

  -- Enough fuel is a round for each bucket and one more.
  pub shrink_loop-Loops :
      (fuel bound : ℕ) (p : StackPool H)
      → length (H.entries p.inner) < fuel
      → IsValid p
      → Loops fuel bound p
  unfolding Loops shrink_loop
  shrink_loop-Loops zero bound p le v = absurd (omega (arith, le))
  shrink_loop-Loops (suc fuel) bound p le v =
      let goal : Bool → Type 0 = λ b.
        ShrinksTo (evict bound (stacks p)) p
          (if b then after_pop fuel bound p (H.pop_back p.inner) else some p) in
      elim (Bool-cases (ltb bound p.total_size)) [
        | inl e ↦ subst goal (sym e) (
            after_pop-ShrinksTo fuel bound p (H.pop_back p.inner) refl le v
              (ltb→lt bound p.total_size e) (λ q. shrink_loop-Loops fuel bound q))
        | inr e ↦ subst goal (sym e) (kept-ShrinksTo bound p v (ground (arith, e)))
      ]
