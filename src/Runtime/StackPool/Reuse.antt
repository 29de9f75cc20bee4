-- ===== src/Runtime/StackPool/Reuse.antt =====
-- `allocate` and `deallocate` of src/runtime/stack_pool.rs.
use coio_rs.Base.{
  ℕ, ◌+◌, ◌≤◌, ◌<◌, ◌≡◌, ◌⊎◌, refl, sym, ap, subst, ◌∙◌, Option, none, some, List, [], ◌∷◌, arith,
  usize_mod, wrapping_sub, inl, inr, head?,
}
use coio_rs.Runtime.LinkedHashMap.{LinkedHashMap, erase}
use coio_rs.Runtime.StackPool.{
  Stack, StackPool, lower_bound, try_shrink, raw_allocate, shrunk_with, allocate, deallocate,
}
use coio_rs.Runtime.StackPool.Evict.{
  bytes, evict, newest, Sized, AllSized, bytes-append, newest-append, AllSized-append, evict-cons,
}
use coio_rs.Runtime.StackPool.Loops.{stacks, IsValid, ShrinksTo}
use coio_rs.Runtime.StackPool.Shrink.{kept_above, Below, try_shrink-Below, try_shrink-ShrinksTo}
use coio_rs.Runtime.StackPool.Buckets.{
  bytes-erase, AllSized-erase, Sized-lookup, refreshed, bucket, bucket_of, Within, ShrinksTo-Within,
  returned_pool, returned_pool-IsValid, returned-refreshed,
}

module _ {Raw : Type 0} (H : LinkedHashMap (List (Stack Raw))) where
  -- A stack that goes to a valid pool makes it at most 2^64 - 1 bytes: `deallocate` ends and leaves a
  -- valid pool whose total size is not above the high water mark or not above the lower bound.
  pub deallocate_lem :
      (s : Stack Raw) (p : StackPool H)
      → IsValid H p
      → p.total_size + s.size < usize_mod
      → (q : StackPool H) × (deallocate H s p ≡ some q) × IsValid H q × Within H q
  unfolding deallocate
  deallocate_lem s p v small =
      let w = returned_pool-IsValid H s p v small in
      ShrinksTo-Within H (returned_pool H s p) (try_shrink H (returned_pool H s p)) w
        (try_shrink-ShrinksTo H (returned_pool H s p) w)

  -- A stack that brings a valid pool above the high water mark is never kept: `deallocate` leaves what
  -- the lower bound allows of the stacks that were in the pool before.
  pub deallocate-evict :
      (s : Stack Raw) (p : StackPool H) (hwm : ℕ)
      → IsValid H p
      → p.total_size + s.size < usize_mod
      → p.higher_water_mark ≡ some hwm
      → hwm < p.total_size + s.size
      → lower_bound H hwm p.lower_water_mark ≤ hwm
      → (q : StackPool H) × (deallocate H s p ≡ some q)
        × (stacks H q ≡ evict (lower_bound H hwm p.lower_water_mark) (refreshed H s.size p))
  unfolding deallocate ShrinksTo IsValid
  deallocate-evict s p hwm v small mark over le =
      let w = returned_pool-IsValid H s p v small in
      let t = try_shrink-ShrinksTo H (returned_pool H s p) w in
      let bound = lower_bound H hwm p.lower_water_mark in
      let r = (returned-refreshed H s p).0 in
      (
        t.0,
        t.1,
        t.3
            ∙ kept_above H (returned_pool H s p) hwm mark (omega (arith, small))
            ∙ ap (evict bound) r
            ∙ evict-cons bound s (refreshed H s.size p) (omega (arith, w.0, ap bytes r, small)),
      )

  shrunk_with_lem :
      (s : Stack Raw) (p : StackPool H)
      → IsValid H p
      → (q : StackPool H) × (shrunk_with H (some s) p ≡ some (s, q)) × IsValid H q × Within H q
  unfolding shrunk_with
  shrunk_with_lem s p v =
      let t = ShrinksTo-Within H p (try_shrink H p) v (try_shrink-ShrinksTo H p v) in
      (t.0, ap (λ o. elim o [ none ↦ none | some q ↦ some (s, q) ]) t.1, t.2, t.3)

  put_pool-IsValid :
      (k total : ℕ) (c w : List (Stack Raw)) (put : List (Stack Raw) → H.Map) (p : StackPool H)
      → H.get_refresh k p.inner ≡ some (c, put)
      → IsValid H p
      → Sized k w
      → total + bytes c ≡ p.total_size + bytes w
      → total < usize_mod
      → IsValid H (record p { inner = put w; total_size = total })
  unfolding IsValid
  put_pool-IsValid k total c w put p e v s t small =
      let r = H.get_refresh-some k p.inner c w put e in
      let n = ap newest r.1 ∙ newest-append (erase k (H.entries p.inner)) k w in
      (
        omega (
          arith,
          t,
          v.0,
          ap bytes n,
          bytes-append w (newest (erase k (H.entries p.inner))),
          bytes-erase k (H.entries p.inner) c r.0,
        ),
        subst AllSized (sym r.1) (
            AllSized-append (erase k (H.entries p.inner)) k w
              (AllSized-erase k (H.entries p.inner) v.1) s),
        small,
      )

  -- A bucket that is not empty gives its last stack, and only an empty one needs a fresh stack.
  unfoldable pub Allocates :
      ℕ → Option Raw → StackPool H → Option (Stack Raw × StackPool H) → Type 0
  Allocates size fresh p out =
      ((fresh ≡ none) × (bucket size (H.entries p.inner) ≡ []) × (out ≡ none))
      ⊎ ((s : Stack Raw) × (q : StackPool H) × (out ≡ some (s, q))
          × (s.size ≡ size)
          × ((head? (bucket size (H.entries p.inner)) ≡ some s)
              ⊎ ((bucket size (H.entries p.inner) ≡ []) × (fresh ≡ some s.raw)))
          × IsValid H q
          × Within H q)

  fresh-Allocates :
      (size : ℕ) (fresh : Option Raw) (p q : StackPool H)
      → bucket size (H.entries p.inner) ≡ []
      → IsValid H q
      → Allocates size fresh p (shrunk_with H (raw_allocate H size fresh) q)
  unfolding Allocates raw_allocate shrunk_with
  fresh-Allocates size none p q e v = inl (refl, e, refl)
  fresh-Allocates size (some r) p q e v =
      let s : Stack Raw = record { raw = r; size = size } in
      let t = shrunk_with_lem s q v in inr (s, t.0, t.1, refl, inr (e, refl), t.2, t.3)

  allocate-Refreshes :
      (size : ℕ) (fresh : Option Raw) (p : StackPool H)
      (o : Option (List (Stack Raw) × (List (Stack Raw) → H.Map)))
      → H.get_refresh size p.inner ≡ o
      → IsValid H p
      → Allocates size fresh p (allocate H size fresh p)
  unfolding allocate Allocates IsValid
  allocate-Refreshes size fresh p none e v =
      rw (allocate, e)
        (fresh-Allocates size fresh p p (ap bucket_of (H.get_refresh-none size p.inner e)) v)
  allocate-Refreshes size fresh p (some ([], put)) e v =
      rw (allocate, e)
        (fresh-Allocates size fresh p (record p { inner = put [] })
          (ap bucket_of (H.get_refresh-some size p.inner [] [] put e).0)
          (put_pool-IsValid size p.total_size [] [] put p e v refl refl v.2))
  allocate-Refreshes size fresh p (some (s ∷ cached, put)) e v =
      let r = H.get_refresh-some size p.inner (s ∷ cached) cached put e in
      let a = Sized-lookup size (H.entries p.inner) (s ∷ cached) v.1 r.0 in
      let b = bytes-erase size (H.entries p.inner) (s ∷ cached) r.0 in
      let t =
        shrunk_with_lem s
          (record p { inner = put cached; total_size = wrapping_sub p.total_size size })
          (put_pool-IsValid size (wrapping_sub p.total_size size) (s ∷ cached) cached put p e v a.1
            (omega (arith, v.0, v.2, b, a.0)) (omega arith)) in
      rw (allocate, e) (inr (s, t.0, t.1, a.0, inl (ap (λ o. head? (bucket_of o)) r.0), t.2, t.3))

  -- `allocate` of a valid pool panics only if the bucket of the size is empty and no fresh stack can be
  -- made. Else it gives a stack of the size, the one of its bucket that came last if there is one and a
  -- fresh one if not, and leaves a valid pool whose total size is not above the high water mark or not
  -- above the lower bound.
  pub allocate-Allocates :
      (size : ℕ) (fresh : Option Raw) (p : StackPool H)
      → IsValid H p
      → Allocates size fresh p (allocate H size fresh p)
  allocate-Allocates size fresh p v =
      allocate-Refreshes size fresh p (H.get_refresh size p.inner) refl v

  same_stack :
      (s : Stack Raw) (rest : List (Stack Raw)) (fresh : Option Raw) (p : StackPool H)
      (out : Option (Stack Raw × StackPool H))
      → bucket s.size (H.entries p.inner) ≡ s ∷ rest
      → Allocates s.size fresh p out
      → (q : StackPool H) × (out ≡ some (s, q)) × IsValid H q
  unfolding Allocates
  same_stack s rest fresh p out top (inl a) = absurd (ground (arith, a.1))
  same_stack s rest fresh p out top (inr (t, q, e, size, inl found, v, within)) =
      let same : t ≡ s = ground arith in (q, e ∙ ap (λ t. some (t, q)) same, v)
  same_stack s rest fresh p out top (inr (t, q, e, size, inr free, v, within)) =
      absurd (ground (arith, free.0))

  -- A stack that goes to a valid pool without bringing it above the high water mark is the one that the
  -- next `allocate` of its size gives, without a fresh stack.
  pub deallocate-allocate :
      (s : Stack Raw) (p : StackPool H) (fresh : Option Raw)
      → IsValid H p
      → p.total_size + s.size < usize_mod
      → Below H (p.total_size + s.size) p.higher_water_mark
      → (q : StackPool H) × (r : StackPool H) × (deallocate H s p ≡ some q)
        × (allocate H s.size fresh q ≡ some (s, r))
        × IsValid H r
  unfolding deallocate
  deallocate-allocate s p fresh v small below =
      let q = returned_pool H s p in
      let top = (returned-refreshed H s p).1 in
      let w = returned_pool-IsValid H s p v small in
      let below_q : Below H q.total_size p.higher_water_mark =
        subst (λ n. Below H n p.higher_water_mark) (omega (arith, small)) below in
      let a =
        same_stack s (bucket s.size (H.entries p.inner)) fresh q (allocate H s.size fresh q)
          (ap bucket_of top) (allocate-Allocates s.size fresh q w) in
      (q, a.0, try_shrink-Below H q p.higher_water_mark refl below_q, a.1, a.2)
