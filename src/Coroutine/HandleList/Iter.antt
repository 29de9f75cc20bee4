-- ===== src/Coroutine/HandleList/Iter.antt =====
-- Iteration over a `HandleList` of src/coroutine.rs, and dropping one.
use native.Mathlib.Numerals.{add-one}
use coio_rs.Base.{suc, ◌+◌, ◌≡◌, refl, List, [], ◌∷◌, Option, none, some, arith, length}
use coio_rs.Coroutine.HandleList.{
  Handle, Heap, HandleList, new, pop_front, iter, iter_collect, drain,
}
use coio_rs.Coroutine.HandleList.Dll.{first_or, Chain, IsList}
use coio_rs.Coroutine.HandleList.Pop.{pop_front_lem}

iter_collect-Chain :
    (h : Heap) (p : Option Handle) (xs : List Handle)
    → Chain h p xs none
    → iter_collect (suc (length xs)) h (record { curr = first_or none xs; count = length xs })
      ≡ some xs
unfolding iter_collect
iter_collect-Chain h p [] c = refl
iter_collect-Chain h p (x ∷ xs) c = ground (arith, c.1, iter_collect-Chain h (some x) xs c.2)

-- Iterating over a well-formed list ends, and sees its handles in order.
pub iter_collect-iter :
    (h : Heap) (l : HandleList) (xs : List Handle)
    → IsList h l xs
    → iter_collect (l.length + 1) h (iter l) ≡ some xs
unfolding iter
iter_collect-iter h l xs is = rw is.spans (rw add-one (iter_collect-Chain h none xs is.chain))

drain-suc :
    (h : Heap) (l : HandleList) (xs : List Handle)
    → IsList h l xs
    → (g : Heap) × (drain (suc (length xs)) h l ≡ some (xs, g, new))
unfolding drain
drain-suc h l [] is = (h, ground (arith, pop_front_lem h l [] is, is.spans))
drain-suc h l (x ∷ xs) is =
    let (r, g, l') = pop_front h l in
    let (popped, is', _, _) = pop_front_lem h l (x ∷ xs) is in
    let (g', e) = drain-suc g l' xs is' in (g', ground (arith, popped, e))

-- Dropping a well-formed list, or consuming it by `into_iter`, ends: every handle comes out once, in
-- order, and an empty list is left.
pub drain_lem :
    (h : Heap) (l : HandleList) (xs : List Handle)
    → IsList h l xs
    → (g : Heap) × (drain (length xs + 1) h l ≡ some (xs, g, new))
drain_lem h l xs is = rw add-one (drain-suc h l xs is)

-- Iterating over a well-formed list ends and sees its handles in order; dropping it, or consuming
-- it by into_iter, ends as well: every handle comes out once, in order, and an empty list is left.
pub drain-iter :
    (h : Heap) (l : HandleList) (xs : List Handle)
    → IsList h l xs
    → (iter_collect (l.length + 1) h (iter l) ≡ some xs)
      × ((g : Heap) × (drain (length xs + 1) h l ≡ some (xs, g, new)))
drain-iter h l xs is = (iter_collect-iter h l xs is, drain_lem h l xs is)
