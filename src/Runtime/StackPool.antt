-- ===== src/Runtime/StackPool.antt =====
-- src/runtime/stack_pool.rs. `Raw` is what `ProtectedFixedSizeStack::new` of the crate `context` gives;
-- what it gives at a call is an argument, `none` where it fails. A bucket is only pushed and popped
-- at its end, and is written from there.
pub mod Evict
pub mod Loops
pub mod Shrink
pub mod Buckets
pub mod Reuse
mod Tests
use coio_rs.Base.{
  ℕ, zero, suc, ◌+◌, Bool, true, false, Option, none, some, List, [], ◌∷◌, ltb, leb, if◌then◌else◌,
  wrapping_add, wrapping_sub, length,
}
use coio_rs.Runtime.LinkedHashMap.{LinkedHashMap}

pub record Stack (Raw : Type 0) : Type 0 where
  pub raw : Raw
  pub size : ℕ

pub record StackPool {Raw : Type 0} (H : LinkedHashMap (List (Stack Raw))) : Type 0 where
  pub inner : H.Map
  pub total_size : ℕ
  pub higher_water_mark : Option ℕ
  pub lower_water_mark : Option ℕ

module _ {Raw : Type 0} (H : LinkedHashMap (List (Stack Raw))) where
  unfoldable pub new : Option ℕ → Option ℕ → StackPool H
  new lwm hwm = record {
    inner = H.new;
    total_size = 0;
    higher_water_mark = hwm;
    lower_water_mark = lwm;
  }

  -- The inner loop of `try_shrink`: what is left of the bucket and of the total size, and whether the
  -- bound was reached.
  unfoldable pub drop_bucket : ℕ → ℕ → List (Stack Raw) → ℕ → (List (Stack Raw) × ℕ) × Bool
  drop_bucket size bound [] total = (([], total), false)
  drop_bucket size bound (s ∷ cached) total = elim (leb (wrapping_sub total size) bound) [
    | true ↦ ((cached, wrapping_sub total size), true)
    | false ↦ drop_bucket size bound cached (wrapping_sub total size)
  ]

  -- A bucket that is not empty is put back.
  unfoldable pub put_back : ℕ → List (Stack Raw) → H.Map → H.Map
  put_back size [] m = m
  put_back size (s ∷ cached) m = H.insert size (s ∷ cached) m

  -- The outer loop, on fuel.
  unfoldable pub shrink_loop : ℕ → ℕ → StackPool H → Option (StackPool H)
  shrink_loop zero bound p = none
  shrink_loop (suc fuel) bound p =
      if ltb bound p.total_size
      then elim (H.pop_back p.inner) [
        | none ↦ some p
        | some ((size, cached), m) ↦
            let ((rest, total), reached) = drop_bucket size bound cached p.total_size in
            elim reached [
              | true ↦ some (record p { inner = put_back size rest m; total_size = total })
              | false ↦ shrink_loop fuel bound (record p { inner = m; total_size = total })
            ]
      ]
      else some p

  unfoldable pub lower_bound : ℕ → Option ℕ → ℕ
  lower_bound hwm none = hwm
  lower_bound hwm (some lwm) = lwm

  -- A round for each bucket, and one more.
  unfoldable pub try_shrink : StackPool H → Option (StackPool H)
  try_shrink p = elim p.higher_water_mark [
    | none ↦ some p
    | some hwm ↦
        if leb p.total_size hwm
        then some p
        else shrink_loop (suc (length (H.entries p.inner))) (lower_bound hwm p.lower_water_mark) p
  ]

  -- `none` where `expect` panics.
  unfoldable pub raw_allocate : ℕ → Option Raw → Option (Stack Raw)
  raw_allocate size none = none
  raw_allocate size (some raw) = some (record { raw = raw; size = size })

  -- A pool with the stack that was taken for the caller, and the shrinking at the end of `allocate`.
  unfoldable pub shrunk_with : Option (Stack Raw) → StackPool H → Option (Stack Raw × StackPool H)
  shrunk_with none p = none
  shrunk_with (some s) p = elim (try_shrink p) [ none ↦ none | some q ↦ some (s, q) ]

  unfoldable pub allocate : ℕ → Option Raw → StackPool H → Option (Stack Raw × StackPool H)
  allocate size fresh p = elim (H.get_refresh size p.inner) [
    | none ↦ shrunk_with (raw_allocate size fresh) p
    | some (s ∷ cached, put) ↦
        shrunk_with (some s)
          (record p { inner = put cached; total_size = wrapping_sub p.total_size size })
    | some ([], put) ↦ shrunk_with (raw_allocate size fresh) (record p { inner = put [] })
  ]

  -- The map of `deallocate`.
  unfoldable pub returned : Stack Raw → H.Map → H.Map
  returned s m = elim (H.get_refresh s.size m) [
    | some (cached, put) ↦ put (s ∷ cached)
    | none ↦ H.insert s.size (s ∷ []) m
  ]

  unfoldable pub deallocate : Stack Raw → StackPool H → Option (StackPool H)
  deallocate s p =
      try_shrink
        (record p { inner = returned s p.inner; total_size = wrapping_add p.total_size s.size })
