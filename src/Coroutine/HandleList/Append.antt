-- ===== src/Coroutine/HandleList/Append.antt =====
-- `append` and `extend` of src/coroutine.rs.
use mathlib.Core.List.{append-nil, append_assoc}
use coio_rs.Base.{
  ◌≡◌, refl, ◌∙◌, inl, inr, true, false, List, [], ◌∷◌, ◌++◌, none, some, arith, ◌==◌,
  length-append,
}
use coio_rs.Coroutine.HandleList.{
  Handle, Heap, HandleList, new, set_prev, set_next, append, push_back, extend,
}
use coio_rs.Coroutine.HandleList.Dll.{
  has, Distinct, Disjoint, last_or, Chain, spanning, IsList, IsDetached, SameOutside, has-append,
  Chain-frame, Chain-append, Chain-split, last_or-append, first_or-append, Distinct-append,
  Distinct-split, snoc_cases, last_or-snoc, has-append_left,
}
use coio_rs.Coroutine.HandleList.Push.{push_back-append}

-- What appending a list of `ys` to one of `xs` must give.
abbrev pub Appends : Heap → List Handle → List Handle → Heap × HandleList × HandleList → Type 0
Appends h xs ys (g, l, o) = IsList g l (xs ++ ys) × (o ≡ new) × SameOutside (xs ++ ys) h g

append_cons :
    (h : Heap) (zs : List Handle) (t y : Handle) (ys : List Handle)
    → Chain h none (zs ++ (t ∷ [])) none
    → Distinct (zs ++ (t ∷ []))
    → Chain h none (y ∷ ys) none
    → Distinct (y ∷ ys)
    → Disjoint (zs ++ (t ∷ [])) (y ∷ ys)
    → Appends h (zs ++ (t ∷ [])) (y ∷ ys) (append h (spanning (zs ++ (t ∷ []))) (spanning (y ∷ ys)))
unfolding append
append_cons h zs t y ys chain distinct chain' distinct' apart =
    rw (last_or-snoc none zs t, append)
      (
        record {
          spans = ground (
            arith,
            last_or-append none (zs ++ (t ∷ [])) (y ∷ ys),
            first_or-append none (zs ++ (t ∷ [])) (y ∷ ys),
            first_or-append none zs (t ∷ []),
            first_or-append (some y) zs (t ∷ []),
            length-append (zs ++ (t ∷ [])) (y ∷ ys),
          );
          chain =
              Chain-append g none none (zs ++ (t ∷ [])) (y ∷ ys)
                (Chain-append g none (some y) zs (t ∷ [])
                  (Chain-frame h g none (some t) zs front.0
                    (λ a i. ground (arith, apart_t a i, apart a, has-append a zs (t ∷ []))))
                  (ground (arith, ne, front.1), ground arith, tt))
                (
                  ground (arith, ne, last_or-snoc none zs t),
                  ground (arith, ne, chain'.1),
                  Chain-frame h g (some y) none ys chain'.2
                      (λ a i. ground (arith, apart t, has-append t zs (t ∷ []))),
                );
          distinct = Distinct-append (zs ++ (t ∷ [])) (y ∷ ys) distinct distinct' apart;
        },
        refl,
        λ a i. ground (arith, has-append a (zs ++ (t ∷ [])) (y ∷ ys), has-append a zs (t ∷ [])),
      )
  where
    g : Heap
    g = set_next (set_prev h y (some t)) t (some y)

    front : Chain h none zs (some t) × Chain h (last_or none zs) (t ∷ []) none
    front = Chain-split h none none zs (t ∷ []) chain

    apart_t : Disjoint zs (t ∷ [])
    apart_t = (Distinct-split zs (t ∷ []) distinct).2

    ne : (t == y) ≡ false
    ne = ground (arith, apart t, has-append t zs (t ∷ []))

append_snoc :
    (h : Heap) (zs : List Handle) (t : Handle) (ys : List Handle)
    → Chain h none (zs ++ (t ∷ [])) none
    → Distinct (zs ++ (t ∷ []))
    → Chain h none ys none
    → Distinct ys
    → Disjoint (zs ++ (t ∷ [])) ys
    → Appends h (zs ++ (t ∷ [])) ys (append h (spanning (zs ++ (t ∷ []))) (spanning ys))
unfolding append
append_snoc h zs t [] chain distinct chain' distinct' apart =
    rw (last_or-snoc none zs t, append, append-nil)
      (
        record {
          spans = ground (arith, last_or-snoc none zs t);
          chain = chain;
          distinct = distinct;
        },
        refl,
        λ a i. refl,
      )
append_snoc h zs t (y ∷ ys) chain distinct chain' distinct' apart =
    append_cons h zs t y ys chain distinct chain' distinct' apart

append-spanning :
    (h : Heap) (xs ys : List Handle)
    → Chain h none xs none
    → Distinct xs
    → Chain h none ys none
    → Distinct ys
    → Disjoint xs ys
    → Appends h xs ys (append h (spanning xs) (spanning ys))
unfolding append
append-spanning h xs ys chain distinct chain' distinct' apart = elim (snoc_cases xs) [
  | inl e ↦
      rw e
        (record { spans = ground arith; chain = chain'; distinct = distinct' }, refl, λ a i. refl)
  | inr (zs, t, e) ↦
      rw e
        (append_snoc h zs t ys (rw e at chain) (rw e at distinct) chain' distinct' (rw e at apart))
]

-- `append` on two lists that share no coroutine leaves the first with the handles of both in order,
-- empties the other, and changes no other coroutine.
pub append_lem :
    (h : Heap) (l other : HandleList) (xs ys : List Handle)
    → IsList h l xs
    → IsList h other ys
    → Disjoint xs ys
    → Appends h xs ys (append h l other)
append_lem h l other xs ys is is' apart =
    rw (is.spans, is'.spans)
      (append-spanning h xs ys is.chain is.distinct is'.chain is'.distinct apart)

-- All of `cs` are detached.
abbrev pub AllDetached : Heap → List Handle → Type 0
AllDetached h [] = Unit
AllDetached h (c ∷ cs) = IsDetached h c × AllDetached h cs

AllDetached-frame :
    (h g : Heap) (cs : List Handle)
    → AllDetached h cs
    → ((a : Handle) → has a cs ≡ true → g a ≡ h a)
    → AllDetached g cs
AllDetached-frame h g [] d same = tt
AllDetached-frame h g (c ∷ cs) d same =
    (ground (arith, same c), AllDetached-frame h g cs d.1 (λ a i. same a (ground arith)))

-- `extend` with distinct detached coroutines that are not in the list puts them at its end in order.
pub extend-append :
    (h : Heap) (l : HandleList) (cs xs : List Handle)
    → IsList h l xs
    → AllDetached h cs
    → Distinct cs
    → Disjoint cs xs
    → let (g, l') = extend h l cs in IsList g l' (xs ++ cs) × SameOutside (xs ++ cs) h g
unfolding extend
extend-append h l [] xs is detached distinct apart = rw append-nil (is, λ a i. refl)
extend-append h l (c ∷ cs) xs is detached distinct apart =
    let (g, l') = push_back h l c in
    let (is', same) = push_back-append h l c xs is detached.0 (apart c (ground arith)) in
    let (is'', same') =
      extend-append g l' cs (xs ++ (c ∷ [])) is'
        (AllDetached-frame h g cs detached.1
          (λ a i. same a (ground (arith, apart a, has-append a xs (c ∷ [])))))
        distinct.1 (λ a i. ground (arith, apart a, has-append a xs (c ∷ []))) in
    (
      rw (append_assoc xs (c ∷ []) cs) at is'',
      λ a i.
          let i' : has a ((xs ++ (c ∷ [])) ++ cs) ≡ false = rw (append_assoc xs (c ∷ []) cs) i in
          same' a i' ∙ same a (has-append_left a (xs ++ (c ∷ [])) cs i'),
    )
