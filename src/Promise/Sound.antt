-- ===== src/Promise/Sound.antt =====
-- Promises of src/promise.rs that are resumed in any order give what the direct evaluation gives.
use coio_rs.Base.{
  ℕ, ◌≤◌, ◌≡◌, ◌⊎◌, inl, inr, refl, sym, ap, ◌∙◌, subst, none, some, List, [], ◌∷◌, ◌++◌, arith,
  length, get_elem?, set_at, get_elem?-left, get_elem?-lt, get_elem?-last, get_elem?-snoc,
  Option-cases, get_elem?-set_at_other, get_elem?-set_at_same, ℕ_discrete,
}
use mathlib.Core.Option.{some-injective, none-ne-some}
use coio_rs.Promise.{
  Caught, Body, runs, joins, Coroutine, spawned, join, body_result, resume, IsMade, Reach, begin,
  spawns, resumes,
}
use coio_rs.Promise.Direct.{
  value, direct, length-direct, direct_from-snoc, direct_from-set_at, value-left, same, goes,
  resume-Resumed, IsMade-mono,
}

module _ {A B : Type 0} where
  -- Each body has its value, and what was sent is that value.
  pub record Inv (cs : List (Coroutine A B)) : Type 0 where
    pub made : (i : ℕ) (c : Coroutine A B) → get_elem? cs i ≡ some c → IsMade i c.body
    pub solves :
        (i : ℕ) (c : Coroutine A B)
        → get_elem? cs i ≡ some c
        → get_elem? (direct cs) i ≡ some (value (direct cs) c.body)
    pub sound :
        (i : ℕ) (c : Coroutine A B) (r : Caught A B)
        → get_elem? cs i ≡ some c
        → c.sent ≡ some r
        → get_elem? (direct cs) i ≡ some r

  begin-Inv : Inv []
  begin-Inv = record {
    made = λ i c e. absurd (none-ne-some _ e);
    solves = λ i c e. absurd (none-ne-some _ e);
    sound = λ i c r e. absurd (none-ne-some _ e);
  }

  -- A coroutine that is there before another is made keeps its value.
  solves_old :
      (cs : List (Coroutine A B)) (b : Body A B) (i : ℕ) (c : Coroutine A B)
      → Inv cs
      → get_elem? cs i ≡ some c
      → get_elem? (direct (cs ++ (spawned b ∷ []))) i
        ≡ some (value (direct (cs ++ (spawned b ∷ []))) c.body)
  solves_old cs b i c v e =
      let vs : List (Caught A B) = direct cs in
      let le : i ≤ length vs = omega (arith, get_elem?-lt cs i c e, length-direct cs) in
      let m : IsMade (length vs) c.body = IsMade-mono i (length vs) c.body le (v.made i c e) in
      subst (λ t. get_elem? t i ≡ some (value t c.body)) (sym (direct_from-snoc [] cs (spawned b)))
        (get_elem?-left vs (value vs b ∷ []) i _ (v.solves i c e)
          ∙ ap some (sym (value-left vs (value vs b ∷ []) c.body m)))

  solves_new :
      (cs : List (Coroutine A B)) (b : Body A B)
      → IsMade (length cs) b
      → get_elem? (direct (cs ++ (spawned b ∷ []))) (length cs)
        ≡ some (value (direct (cs ++ (spawned b ∷ []))) b)
  solves_new cs b m =
      let vs : List (Caught A B) = direct cs in
      let m' : IsMade (length vs) b = subst (λ k. IsMade k b) (sym (length-direct cs)) m in
      subst (λ t. get_elem? t (length cs) ≡ some (value t b))
        (sym (direct_from-snoc [] cs (spawned b)))
        (subst (λ k. get_elem? (vs ++ (value vs b ∷ [])) k ≡ some (value vs b)) (length-direct cs)
            (get_elem?-last vs (value vs b))
          ∙ ap some (sym (value-left vs (value vs b ∷ []) b m')))

  spawns-Inv :
      (cs : List (Coroutine A B)) (b : Body A B)
      → IsMade (length cs) b
      → Inv cs
      → Inv (cs ++ (spawned b ∷ []))
  spawns-Inv cs b m v = record {
    made = λ i c e. elim (get_elem?-snoc cs (spawned b) c i e) [
      | inl e' ↦ v.made i c e'
      | inr (e', e'') ↦ subst (λ x. IsMade i (x.body)) e'' (subst (λ k. IsMade k b) (sym e') m)
    ];
    solves = λ i c e. elim (get_elem?-snoc cs (spawned b) c i e) [
      | inl e' ↦ solves_old cs b i c v e'
      | inr (e', e'') ↦
          subst
            (λ x.
              get_elem? (direct (cs ++ (spawned b ∷ []))) i
              ≡ some (value (direct (cs ++ (spawned b ∷ []))) (x.body)))
            e'' (ap (λ k. get_elem? (direct (cs ++ (spawned b ∷ []))) k) e' ∙ solves_new cs b m)
    ];
    sound = λ i c r e s. elim (get_elem?-snoc cs (spawned b) c i e) [
      | inl e' ↦
          ap (λ t. get_elem? t i) (direct_from-snoc [] cs (spawned b))
          ∙ get_elem?-left (direct cs) (value (direct cs) b ∷ []) i r (v.sound i c r e' s)
      | inr (e', e'') ↦ absurd (none-ne-some _ (ap (λ x. x.sent) e'' ∙ s))
    ];
  }

  pub join-direct :
      (cs : List (Coroutine A B)) (p : ℕ) (r : Caught A B)
      → Inv cs
      → join cs p ≡ some r
      → get_elem? (direct cs) p ≡ some r
  unfolding join
  join-direct cs p r v e = elim (Option-cases (get_elem? cs p)) [
    | inl e' ↦ absurd (ground (arith, e, e'))
    | inr (c, e') ↦ v.sound p c r e' (ground (arith, e, e'))
  ]

  body_result-value :
      (cs : List (Coroutine A B)) (b : Body A B) (r : Caught A B)
      → Inv cs
      → body_result cs b ≡ some r
      → value (direct cs) b ≡ r
  unfolding body_result value
  body_result-value cs (runs r) r' v e = some-injective _ _ e
  body_result-value cs (joins p f) r v e = elim (Option-cases (join cs p)) [
    | inl e' ↦ absurd (ground (arith, e, e'))
    | inr (none, e') ↦ ground (arith, e, e', join-direct cs p none v e')
    | inr (some t, e') ↦ ground (arith, e, e', join-direct cs p (some t) v e')
  ]

  -- A coroutine goes on with what its body gives.
  goes-Inv :
      (cs : List (Coroutine A B)) (i : ℕ) (c : Coroutine A B) (r : Caught A B)
      → get_elem? cs i ≡ some c
      → body_result cs c.body ≡ some r
      → Inv cs
      → Inv (set_at i (record { body = c.body; sent = some r }) cs)
  goes-Inv cs i c r e e' v = record {
    made = λ j d f. let (d', g, h, _) = old j d f in subst (IsMade j) h (v.made j d' g);
    solves = λ j d f.
        let (d', g, h, _) = old j d f in
        subst (λ vs. get_elem? vs j ≡ some (value vs d.body)) (sym still)
          (subst (λ b. get_elem? (direct cs) j ≡ some (value (direct cs) b)) h (v.solves j d' g));
    sound = λ j d t f s.
        let (d', g, h, k) = old j d f in
        subst (λ vs. get_elem? vs j ≡ some t) (sym still)
          (elim k [
            | inl k' ↦ v.sound j d' t g (k' ∙ s)
            | inr k' ↦
                v.solves j d' g
                ∙ ap some (
                    ap (value (direct cs)) (h ∙ ap (λ x. x.body) k')
                    ∙ body_result-value cs c.body r v e'
                    ∙ some-injective _ _ (sym (ap (λ x. x.sent) k') ∙ s))
          ]);
  }
    where
      c' : Coroutine A B
      c' = record { body = c.body; sent = some r }

      still : direct (set_at i c' cs) ≡ direct cs
      still = direct_from-set_at [] cs i c (some r) e

      -- What stands at an index now stood there before, or is the one that went on.
      old :
          (j : ℕ) (d : Coroutine A B)
          → get_elem? (set_at i c' cs) j ≡ some d
          → (d' : Coroutine A B) × (get_elem? cs j ≡ some d')
            × (d'.body ≡ d.body)
            × ((d'.sent ≡ d.sent) ⊎ (d ≡ c'))
      old j d f = elim (ℕ_discrete j i) [
        | yes s ↦
            let same_c : d ≡ c' =
              some-injective _ _
                (sym f ∙ ap (get_elem? (set_at i c' cs)) s ∙ get_elem?-set_at_same i c' c cs e) in
            (c, ap (get_elem? cs) s ∙ e, ap (λ x. x.body) (sym same_c), inr same_c)
        | no n ↦ (d, sym (get_elem?-set_at_other i j c' cs n) ∙ f, refl, inl refl)
      ]

  resumes-Inv : (cs : List (Coroutine A B)) (i : ℕ) → Inv cs → Inv (resume cs i)
  resumes-Inv cs i v = elim (resume-Resumed cs i) [
    | same e ↦ subst Inv (sym e) v
    | goes c r e _ e' e'' ↦ subst Inv (sym e'') (goes-Inv cs i c r e e' v)
  ]

  pub Reach-Inv_promises : {cs : List (Coroutine A B)} → Reach cs → Inv cs
  Reach-Inv_promises begin = begin-Inv
  Reach-Inv_promises (spawns {cs} b r m) = spawns-Inv cs b m (Reach-Inv_promises r)
  Reach-Inv_promises (resumes {cs} i r) = resumes-Inv cs i (Reach-Inv_promises r)
