-- ===== src/Runtime/StackPool/Shrink.antt =====
-- `try_shrink` of src/runtime/stack_pool.rs.
use coio_rs.Base.{
  ℕ, suc, ◌≤◌, ◌<◌, ◌≡◌, refl, ap, ◌∙◌, true, false, Option, none, some, List, arith, leb,
  if◌then◌else◌, Bool-cases, inl, inr, length,
}
use coio_rs.Runtime.LinkedHashMap.{LinkedHashMap}
use coio_rs.Runtime.StackPool.{Stack, StackPool, shrink_loop, lower_bound, try_shrink}
use coio_rs.Runtime.StackPool.Evict.{evict}
use coio_rs.Runtime.StackPool.Loops.{stacks, IsValid, ShrinksTo, Loops, shrink_loop-Loops}

module _ {Raw : Type 0} (H : LinkedHashMap (List (Stack Raw))) where
  abbrev kept_at : StackPool H → Option ℕ → List (Stack Raw)
  kept_at p mark = elim mark [
    | none ↦ stacks H p
    | some hwm ↦
        if leb p.total_size hwm
        then stacks H p
        else evict (lower_bound H hwm p.lower_water_mark) (stacks H p)
  ]

  -- What the pool keeps of its stacks: all, unless there is a high water mark and they are above it, in
  -- which case the longest end of them, by age, that is not above the lower bound.
  abbrev pub kept : StackPool H → List (Stack Raw)
  kept p = kept_at p p.higher_water_mark

  -- `try_shrink` with a mark for the high water mark of the pool.
  abbrev shrink_at : StackPool H → Option ℕ → Option (StackPool H)
  shrink_at p mark = elim mark [
    | none ↦ some p
    | some hwm ↦
        if leb p.total_size hwm
        then some p
        else shrink_loop H (suc (length (H.entries p.inner))) (lower_bound H hwm p.lower_water_mark)
            p
  ]

  -- The total size is not above the high water mark, if there is one.
  abbrev pub Below : ℕ → Option ℕ → Type 0
  Below total none = true ≡ true
  Below total (some hwm) = total ≤ hwm

  pub try_shrink-Below :
      (p : StackPool H) (mark : Option ℕ)
      → p.higher_water_mark ≡ mark
      → Below p.total_size mark
      → try_shrink H p ≡ some p
  unfolding try_shrink
  try_shrink-Below p none e below = ap (shrink_at p) e
  try_shrink-Below p (some hwm) e below =
      let le : leb p.total_size hwm ≡ true = ground arith in ap (shrink_at p) e ∙ rw le refl

  pub kept_above :
      (p : StackPool H) (hwm : ℕ)
      → p.higher_water_mark ≡ some hwm
      → hwm < p.total_size
      → kept p ≡ evict (lower_bound H hwm p.lower_water_mark) (stacks H p)
  kept_above p hwm mark over =
      let above : leb p.total_size hwm ≡ false = ground arith in rw (mark, above) refl

  marked-ShrinksTo :
      (p : StackPool H) (mark : Option ℕ)
      → IsValid H p
      → ShrinksTo H (kept_at p mark) p (shrink_at p mark)
  unfolding ShrinksTo Loops
  marked-ShrinksTo p none v = (p, refl, v, refl, refl, refl)
  marked-ShrinksTo p (some hwm) v = elim (Bool-cases (leb p.total_size hwm)) [
    | inl e ↦ rw e (p, refl, v, refl, refl, refl)
    | inr e ↦ rw e (
        shrink_loop-Loops H (suc (length (H.entries p.inner)))
          (lower_bound H hwm p.lower_water_mark) p (omega arith) v)
  ]

  -- `try_shrink` of a valid pool ends and leaves a valid pool with the same marks: with all the stacks if
  -- there is no high water mark or they are not above it, else with the longest end of them that is not
  -- above the low water mark (the high one, if there is no low one), where the stacks of the bucket
  -- used last come first, and in a bucket the one that came last.
  pub try_shrink-ShrinksTo :
      (p : StackPool H) → IsValid H p → ShrinksTo H (kept p) p (try_shrink H p)
  unfolding try_shrink
  try_shrink-ShrinksTo p v = marked-ShrinksTo p p.higher_water_mark v
