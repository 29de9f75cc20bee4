-- ===== src/Runtime/StackPool/Tests.antt =====
-- A pool with marks at 1024 and 2048 bytes that holds one stack of 1024 bytes and two of 512.
use coio_rs.Base.{ℕ, ◌≡◌, refl, Option, none, some, List, [], ◌∷◌, arith}
use coio_rs.Runtime.LinkedHashMap.{LinkedHashMap}
use coio_rs.Runtime.LinkedHashMap.ListMap.{list_map}
use coio_rs.Runtime.StackPool.{Stack, StackPool, allocate, deallocate, try_shrink, lower_bound}
use coio_rs.Runtime.StackPool.Evict.{evict}
use coio_rs.Runtime.StackPool.Loops.{stacks, IsValid, ShrinksTo}
use coio_rs.Runtime.StackPool.Shrink.{kept, try_shrink-ShrinksTo}
use coio_rs.Runtime.StackPool.Buckets.{Within, refreshed}
use coio_rs.Runtime.StackPool.Reuse.{
  deallocate_lem, deallocate-evict, Allocates, allocate-Allocates, deallocate-allocate,
}

abbrev maps : LinkedHashMap (List (Stack ℕ))
maps = list_map

abbrev stack : ℕ → ℕ → Stack ℕ
stack raw size = record { raw = raw; size = size }

abbrev half_full : Option ℕ → ℕ → StackPool maps
half_full hwm total = record {
  inner =
      maps.insert 512 (stack 3 512 ∷ stack 2 512 ∷ [])
        (maps.insert 1024 (stack 1 1024 ∷ []) (maps.new));
  total_size = total;
  higher_water_mark = hwm;
  lower_water_mark = some 1024;
}

abbrev pool : StackPool maps
pool = half_full (some 2048) 2048

pool-IsValid : IsValid maps pool
unfolding list_map IsValid
pool-IsValid = (refl, ((refl, refl), ((refl, (refl, refl)), refl)), omega arith)

try_shrink-ShrinksTo_example :
    ShrinksTo maps
      (kept maps (half_full (some 2000) 2048))
      (half_full (some 2000) 2048)
      (try_shrink maps (half_full (some 2000) 2048))
unfolding list_map IsValid
try_shrink-ShrinksTo_example =
    try_shrink-ShrinksTo maps (half_full (some 2000) 2048)
      (refl, ((refl, refl), ((refl, (refl, refl)), refl)), omega arith)

deallocate_lem_example :
    (q : StackPool maps) × (deallocate maps (stack 4 512) pool ≡ some q)
    × IsValid maps q
    × Within maps q
deallocate_lem_example = deallocate_lem maps (stack 4 512) pool pool-IsValid (omega arith)

deallocate-evict_example :
    (q : StackPool maps) × (deallocate maps (stack 4 512) pool ≡ some q)
    × (stacks maps q ≡ evict 1024 (refreshed maps 512 pool))
unfolding lower_bound
deallocate-evict_example =
    deallocate-evict maps (stack 4 512) pool 2048 pool-IsValid (omega arith) refl (omega arith)
      (omega arith)

allocate-Allocates_example : Allocates maps 512 none pool (allocate maps 512 none pool)
allocate-Allocates_example = allocate-Allocates maps 512 none pool pool-IsValid

abbrev roomy : StackPool maps
roomy = half_full none 2048

deallocate-allocate_example :
    (q : StackPool maps) × (r : StackPool maps) × (deallocate maps (stack 4 512) roomy ≡ some q)
    × (allocate maps 512 none q ≡ some (stack 4 512, r))
    × IsValid maps r
unfolding list_map IsValid
deallocate-allocate_example =
    deallocate-allocate maps (stack 4 512) roomy none
      (refl, ((refl, refl), ((refl, (refl, refl)), refl)), omega arith) (omega arith) refl
