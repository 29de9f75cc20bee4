-- ===== src/Coroutine/HandleList/Pop.antt =====
-- `pop_front` and `pop_back` of src/coroutine.rs.
use coio_rs.Base.{
  ◌≡◌, refl, ◌∙◌, inl, inr, false, List, [], ◌∷◌, ◌++◌, Option, none, some, arith, ◌==◌,
  length-append,
}
use coio_rs.Coroutine.HandleList.{Handle, Heap, HandleList, set_prev, set_next, pop_front, pop_back}
use coio_rs.Coroutine.HandleList.Dll.{
  Distinct, Disjoint, last_or, Chain, spanning, IsList, IsDetached, SameOutside, has-append,
  Chain-frame, Chain-append, Chain-split, first_or-append, Distinct-split, snoc_cases, last_or-snoc,
}

-- What taking the first handle off a list of `xs` must give.
abbrev pub PopsFront : Heap → List Handle → Option Handle × Heap × HandleList → Type 0
PopsFront h [] (r, g, l) = (r ≡ none) × (g ≡ h) × IsList g l []
PopsFront h (x ∷ xs) (r, g, l) =
    (r ≡ some x) × IsList g l xs × IsDetached g x × SameOutside (x ∷ xs) h g

pop_front-spanning :
    (h : Heap) (xs : List Handle)
    → Chain h none xs none
    → Distinct xs
    → PopsFront h xs (pop_front h (spanning xs))
unfolding pop_front
pop_front-spanning h [] chain distinct =
    (refl, refl, record { spans = refl; chain = tt; distinct = tt })
pop_front-spanning h (x ∷ []) chain distinct =
    rw (chain.1, pop_front)
      (
        refl,
        record { spans = ground arith; chain = tt; distinct = tt },
        ground arith,
        λ a i. ground arith,
      )
pop_front-spanning h (x ∷ (y ∷ ys)) chain distinct =
    rw (chain.1, pop_front)
      (
        refl,
        record {
          spans = ground arith;
          chain = (
            ground arith,
            ground arith,
            Chain-frame h (set_prev (set_next h x none) y none) (some y) none ys chain.2.2
                (λ a i. ground arith),
          );
          distinct = distinct.1;
        },
        ground arith,
        λ a i. ground arith,
      )

-- `pop_front` gives the first handle of the list, detached, and leaves a list of the rest; it gives
-- nothing, and changes nothing, on an empty list. No other coroutine changes.
pub pop_front_lem :
    (h : Heap) (l : HandleList) (xs : List Handle) → IsList h l xs → PopsFront h xs (pop_front h l)
pop_front_lem h l xs is = rw is.spans (pop_front-spanning h xs is.chain is.distinct)

-- What taking the last handle off a list of `ys` and `y` must give.
abbrev pub PopsBack : Heap → List Handle → Handle → Option Handle × Heap × HandleList → Type 0
PopsBack h ys y (r, g, l) =
    (r ≡ some y) × IsList g l ys × IsDetached g y × SameOutside (ys ++ (y ∷ [])) h g

-- `pop_back` where the handle `p` before the last one is known.
pop_back_prev :
    (h : Heap) (zs : List Handle) (p y : Handle)
    → Chain h none ((zs ++ (p ∷ [])) ++ (y ∷ [])) none
    → Distinct ((zs ++ (p ∷ [])) ++ (y ∷ []))
    → PopsBack h (zs ++ (p ∷ [])) y (pop_back h (spanning ((zs ++ (p ∷ [])) ++ (y ∷ []))))
unfolding pop_back
pop_back_prev h zs p y chain distinct =
    rw (last_or-snoc none (zs ++ (p ∷ [])) y, before, pop_back)
      (
        ground (arith, ne, front.1),
        record {
          spans = ground (
            arith,
            last_or-snoc none zs p,
            first_or-append none (zs ++ (p ∷ [])) (y ∷ []),
            first_or-append none zs (p ∷ []),
            first_or-append (some y) zs (p ∷ []),
            length-append (zs ++ (p ∷ [])) (y ∷ []),
          );
          chain =
              Chain-append g none none zs (p ∷ [])
                (Chain-frame h g none (some p) zs front.0
                  (λ a i. ground (arith, apart_p a i, apart_y a, has-append a zs (p ∷ []))))
                (ground (arith, ne, front.1), ground arith, tt);
          distinct = (Distinct-split (zs ++ (p ∷ [])) (y ∷ []) distinct).0;
        },
        (ground (arith, ne), ground (arith, ne, ends.1)),
        λ a i. ground (arith, has-append a (zs ++ (p ∷ [])) (y ∷ []), has-append a zs (p ∷ [])),
      )
  where
    g : Heap
    g = set_next (set_prev h y none) p none

    ends :
        Chain h none (zs ++ (p ∷ [])) (some y)
        × Chain h (last_or none (zs ++ (p ∷ []))) (y ∷ []) none
    ends = Chain-split h none none (zs ++ (p ∷ [])) (y ∷ []) chain

    front : Chain h none zs (some p) × Chain h (last_or none zs) (p ∷ []) (some y)
    front = Chain-split h none (some y) zs (p ∷ []) ends.0

    before : (h y).prev ≡ some p
    before = ends.1.0 ∙ last_or-snoc none zs p

    apart_y : Disjoint (zs ++ (p ∷ [])) (y ∷ [])
    apart_y = (Distinct-split (zs ++ (p ∷ [])) (y ∷ []) distinct).2

    apart_p : Disjoint zs (p ∷ [])
    apart_p = (Distinct-split zs (p ∷ []) (Distinct-split (zs ++ (p ∷ [])) (y ∷ []) distinct).0).2

    ne : (p == y) ≡ false
    ne = ground (arith, apart_y p, has-append p zs (p ∷ []))

pop_back-spanning :
    (h : Heap) (ys : List Handle) (y : Handle)
    → Chain h none (ys ++ (y ∷ [])) none
    → Distinct (ys ++ (y ∷ []))
    → PopsBack h ys y (pop_back h (spanning (ys ++ (y ∷ []))))
unfolding pop_back
pop_back-spanning h ys y chain distinct = elim (snoc_cases ys) [
  | inl e ↦ rw e (only (rw e at chain))
  | inr (zs, p, e) ↦ rw e (pop_back_prev h zs p y (rw e at chain) (rw e at distinct))
]
  where
    only : Chain h none (y ∷ []) none → PopsBack h [] y (pop_back h (spanning (y ∷ [])))
    only c =
        rw (c.0, pop_back)
          (
            refl,
            record { spans = ground arith; chain = tt; distinct = tt },
            ground arith,
            λ a i. ground arith,
          )

-- `pop_back` on a list that ends in `y` gives `y`, detached, and leaves a list of the others. No
-- other coroutine changes.
pub pop_back-append :
    (h : Heap) (l : HandleList) (ys : List Handle) (y : Handle)
    → IsList h l (ys ++ (y ∷ []))
    → PopsBack h ys y (pop_back h l)
pop_back-append h l ys y is = rw is.spans (pop_back-spanning h ys y is.chain is.distinct)

pub pop_back-nil : (h : Heap) (l : HandleList) → IsList h l [] → pop_back h l ≡ (none, h, l)
unfolding pop_back
pop_back-nil h l is = rw is.spans

-- On a well-formed list that is not empty, pop_front gives the first handle and pop_back the last
-- one, detached; each leaves a well-formed list of the others in order and changes no other
-- coroutine.
pub pops_lem :
    (h : Heap) (l : HandleList) (ys : List Handle) (y : Handle)
    → IsList h l (ys ++ (y ∷ []))
    → PopsFront h (ys ++ (y ∷ [])) (pop_front h l) × PopsBack h ys y (pop_back h l)
pops_lem h l ys y is = (pop_front_lem h l (ys ++ (y ∷ [])) is, pop_back-append h l ys y is)
