-- ===== src/Coroutine/HandleList/Tests.antt =====
-- Runs and instances on a list of the coroutines 5, 7 and 9, beside one of 2.
use coio_rs.Base.{◌≡◌, refl, true, [], ◌∷◌, Option, none, some, arith, ◌==◌, if◌then◌else◌}
use coio_rs.Coroutine.HandleList.{
  Handle, Links, Heap, HandleList, new, push_front, push_back, pop_front, pop_back, append,
  split_off_front, iter, iter_collect, drain, extend, list_len, is_empty,
}
use coio_rs.Coroutine.HandleList.Dll.{spanning, IsList, SameOutside}
use coio_rs.Coroutine.HandleList.Push.{pushes_lem}
use coio_rs.Coroutine.HandleList.Pop.{PopsFront, PopsBack, pops_lem}
use coio_rs.Coroutine.HandleList.Append.{Appends, append_lem, extend-append}
use coio_rs.Coroutine.HandleList.Split.{Splits, split_off_front-take}
use coio_rs.Coroutine.HandleList.Iter.{drain-iter}

abbrev links : Option Handle → Option Handle → Links
links p n = record { prev = p; next = n }

abbrev heap : Heap
heap a =
    if a == 5
    then links none (some 7)
    else if a == 7
    then links (some 5) (some 9)
    else if a == 9
    then links (some 7) none
    else links none none

abbrev three : HandleList
three = spanning (5 ∷ 7 ∷ 9 ∷ [])

three-IsList : IsList heap three (5 ∷ 7 ∷ 9 ∷ [])
three-IsList = record {
  spans = refl;
  chain = (refl, refl, (refl, refl, (refl, refl, tt)));
  distinct = (refl, (refl, (refl, tt)));
}

two-IsList : IsList heap (spanning (2 ∷ [])) (2 ∷ [])
two-IsList = record { spans = refl; chain = (refl, refl, tt); distinct = (refl, tt) }

-- Two pushes at the back, one at the front, and everything comes out in order.
drains_in_order :
    (let (h, l) = push_back heap new 3 in
      let (h', l') = push_back h l 4 in
      let (h'', l'') = push_front h' l' 8 in
      elim (drain 4 h'' l'') [ none ↦ [] | some (cs, _, _) ↦ cs ])
    ≡ 8 ∷ 3 ∷ 4 ∷ []
unfolding push_back push_front drain
drains_in_order = refl

counts : (list_len three ≡ 3) × (is_empty new ≡ true)
unfolding list_len is_empty
counts = (refl, refl)

append_lem_example : Appends heap (5 ∷ 7 ∷ 9 ∷ []) (2 ∷ []) (append heap three (spanning (2 ∷ [])))
append_lem_example =
    append_lem heap three (spanning (2 ∷ [])) (5 ∷ 7 ∷ 9 ∷ []) (2 ∷ []) three-IsList two-IsList
      (λ a i. ground arith)

split_off_front-take_example :
    (r : HandleList × Heap × HandleList) × (split_off_front heap three 2 ≡ some r)
    × Splits heap (5 ∷ 7 ∷ []) (9 ∷ []) r
split_off_front-take_example = split_off_front-take heap three (5 ∷ 7 ∷ 9 ∷ []) 2 three-IsList

pushes_lem_example :
    let (f, k) = push_front heap three 2 in
    let (g, m) = push_back heap three 2 in
    (IsList f k (2 ∷ 5 ∷ 7 ∷ 9 ∷ []) × SameOutside (2 ∷ 5 ∷ 7 ∷ 9 ∷ []) heap f)
    × (IsList g m (5 ∷ 7 ∷ 9 ∷ 2 ∷ []) × SameOutside (5 ∷ 7 ∷ 9 ∷ 2 ∷ []) heap g)
pushes_lem_example = pushes_lem heap three 2 (5 ∷ 7 ∷ 9 ∷ []) three-IsList (refl, refl) refl

pops_lem_example :
    PopsFront heap (5 ∷ 7 ∷ 9 ∷ []) (pop_front heap three)
    × PopsBack heap (5 ∷ 7 ∷ []) 9 (pop_back heap three)
pops_lem_example = pops_lem heap three (5 ∷ 7 ∷ []) 9 three-IsList

-- `extend` from any iterator, on distinct coroutines.
extended_three :
    let (g, l) = extend heap three (2 ∷ 4 ∷ []) in
    IsList g l (5 ∷ 7 ∷ 9 ∷ 2 ∷ 4 ∷ []) × SameOutside (5 ∷ 7 ∷ 9 ∷ 2 ∷ 4 ∷ []) heap g
extended_three =
    extend-append heap three (2 ∷ 4 ∷ []) (5 ∷ 7 ∷ 9 ∷ []) three-IsList
      ((refl, refl), ((refl, refl), tt)) (refl, (refl, tt)) (λ a i. ground arith)

drain-iter_example :
    (iter_collect 4 heap (iter three) ≡ some (5 ∷ 7 ∷ 9 ∷ []))
    × ((g : Heap) × (drain 4 heap three ≡ some (5 ∷ 7 ∷ 9 ∷ [], g, new)))
drain-iter_example = drain-iter heap three (5 ∷ 7 ∷ 9 ∷ []) three-IsList
