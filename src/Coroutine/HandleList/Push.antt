-- ===== src/Coroutine/HandleList/Push.antt =====
-- `push_front` and `push_back` of src/coroutine.rs.
use coio_rs.Base.{
  ◌≡◌, refl, inl, inr, false, List, [], ◌∷◌, ◌++◌, none, some, arith, ◌==◌, length-append,
}
use coio_rs.Coroutine.HandleList.{
  Handle, Heap, HandleList, set_prev, set_next, push_front, push_back,
}
use coio_rs.Coroutine.HandleList.Dll.{
  has, Distinct, Disjoint, last_or, Chain, spanning, IsList, IsDetached, SameOutside, has-append,
  Chain-frame, Chain-append, Chain-split, first_or-append, Distinct-append, Distinct-split,
  snoc_cases, last_or-snoc,
}

push_front-spanning :
    (h : Heap) (c : Handle) (xs : List Handle)
    → Chain h none xs none
    → Distinct xs
    → IsDetached h c
    → has c xs ≡ false
    → let (g, l) = push_front h (spanning xs) c in IsList g l (c ∷ xs) × SameOutside (c ∷ xs) h g
unfolding push_front
push_front-spanning h c [] chain distinct detached out = (
  record { spans = refl; chain = (detached.0, detached.1, tt); distinct = (refl, tt) },
  λ a i. refl,
)
push_front-spanning h c (x ∷ xs) chain distinct detached out = (
  record {
    spans = ground arith;
    chain = (
      ground arith,
      ground arith,
      (
        ground arith,
        ground arith,
        Chain-frame h (push_front h (spanning (x ∷ xs)) c).0 (some x) none xs chain.2
            (λ a i. ground arith),
      ),
    );
    distinct = (out, distinct);
  },
  λ a i. ground arith,
)

-- On a list of `xs`, `push_front` of a detached coroutine that is not among them gives a list with
-- it in front, and changes no other coroutine.
pub push_front-cons :
    (h : Heap) (l : HandleList) (c : Handle) (xs : List Handle)
    → IsList h l xs
    → IsDetached h c
    → has c xs ≡ false
    → let (g, l') = push_front h l c in IsList g l' (c ∷ xs) × SameOutside (c ∷ xs) h g
push_front-cons h l c xs is detached out =
    rw is.spans (push_front-spanning h c xs is.chain is.distinct detached out)

-- `push_back` where the tail `t` is known.
push_back_tail :
    (h : Heap) (c t : Handle) (ys : List Handle)
    → Chain h none (ys ++ (t ∷ [])) none
    → Distinct (ys ++ (t ∷ []))
    → IsDetached h c
    → has c (ys ++ (t ∷ [])) ≡ false
    → let (g, l) = push_back h (spanning (ys ++ (t ∷ []))) c in
      IsList g l ((ys ++ (t ∷ [])) ++ (c ∷ [])) × SameOutside ((ys ++ (t ∷ [])) ++ (c ∷ [])) h g
unfolding push_back
push_back_tail h c t ys chain distinct detached out =
    rw (last_or-snoc none ys t, push_back)
      (
        record {
          spans = ground (
            arith,
            last_or-snoc none (ys ++ (t ∷ [])) c,
            first_or-append none (ys ++ (t ∷ [])) (c ∷ []),
            first_or-append none ys (t ∷ []),
            first_or-append (some c) ys (t ∷ []),
            length-append (ys ++ (t ∷ [])) (c ∷ []),
          );
          chain =
              Chain-append g none none (ys ++ (t ∷ [])) (c ∷ [])
                (Chain-append g none (some c) ys (t ∷ [])
                  (Chain-frame h g none (some t) ys parts.0
                    (λ a i. ground (arith, apart a i, has-append c ys (t ∷ []))))
                  (ground (arith, ne, parts.1), ground arith, tt))
                (ground (arith, ne, last_or-snoc none ys t), ground (arith, ne), tt);
          distinct =
              Distinct-append (ys ++ (t ∷ [])) (c ∷ []) distinct (refl, tt)
                (λ a i. ground (arith, i, out));
        },
        λ a i. ground (arith, has-append a (ys ++ (t ∷ [])) (c ∷ []), has-append a ys (t ∷ [])),
      )
  where
    g : Heap
    g = set_next (set_prev h c (some t)) t (some c)

    parts : Chain h none ys (some t) × Chain h (last_or none ys) (t ∷ []) none
    parts = Chain-split h none none ys (t ∷ []) chain

    apart : Disjoint ys (t ∷ [])
    apart = (Distinct-split ys (t ∷ []) distinct).2

    ne : (t == c) ≡ false
    ne = ground (arith, has-append c ys (t ∷ []))

push_back-spanning :
    (h : Heap) (c : Handle) (xs : List Handle)
    → Chain h none xs none
    → Distinct xs
    → IsDetached h c
    → has c xs ≡ false
    → let (g, l) = push_back h (spanning xs) c in
      IsList g l (xs ++ (c ∷ [])) × SameOutside (xs ++ (c ∷ [])) h g
unfolding push_back
push_back-spanning h c xs chain distinct detached out = elim (snoc_cases xs) [
  | inl e ↦ rw e (
    record { spans = refl; chain = (detached.0, detached.1, tt); distinct = (refl, tt) },
    λ a i. refl,
  )
  | inr (ys, t, e) ↦
      rw e (push_back_tail h c t ys (rw e at chain) (rw e at distinct) detached (rw e at out))
]

-- On a list of `xs`, `push_back` of a detached coroutine that is not among them gives a list with
-- it at the end, and changes no other coroutine.
pub push_back-append :
    (h : Heap) (l : HandleList) (c : Handle) (xs : List Handle)
    → IsList h l xs
    → IsDetached h c
    → has c xs ≡ false
    → let (g, l') = push_back h l c in
      IsList g l' (xs ++ (c ∷ [])) × SameOutside (xs ++ (c ∷ [])) h g
push_back-append h l c xs is detached out =
    rw is.spans (push_back-spanning h c xs is.chain is.distinct detached out)

-- push_front of a detached coroutine that is not in a well-formed list puts it in front, and
-- push_back puts it at the end; each keeps the list well-formed and changes no other coroutine.
pub pushes_lem :
    (h : Heap) (l : HandleList) (c : Handle) (xs : List Handle)
    → IsList h l xs
    → IsDetached h c
    → has c xs ≡ false
    → let (f, k) = push_front h l c in
      let (g, m) = push_back h l c in
      (IsList f k (c ∷ xs) × SameOutside (c ∷ xs) h f)
      × (IsList g m (xs ++ (c ∷ [])) × SameOutside (xs ++ (c ∷ [])) h g)
pushes_lem h l c xs is detached out =
    (push_front-cons h l c xs is detached out, push_back-append h l c xs is detached out)
