-- ===== src/Promise/Progress.antt =====
-- Nothing waits for ever among the promises of src/promise.rs.
use coio_rs.Base.{
  ℕ, zero, suc, ◌≤◌, ◌<◌, ◌≡◌, ◌⊎◌, inl, inr, refl, sym, ap, ◌∙◌, subst, none, some, List, [],
  arith, length, get_elem?, set_at, get_elem?-lt, Option-cases, get_elem?-set_at_other,
  get_elem?-set_at_same, length-set_at, ℕ_discrete,
}
use coio_rs.Promise.{
  Caught, Body, runs, joins, Coroutine, join, body_result, resume, IsMade, Reach, resumes,
}
use coio_rs.Promise.Direct.{direct, length-direct, direct_from-set_at, same, goes, resume-Resumed}
use coio_rs.Base.{get_elem?_below, dec_lt}
use coio_rs.Promise.{sync}
use coio_rs.Promise.Sound.{Inv, join-direct, Reach-Inv_promises}

module _ {A B : Type 0} where
  -- The first `n` coroutines get the processor once each, in the order in which they were made.
  unfoldable pub resume_all : ℕ → List (Coroutine A B) → List (Coroutine A B)
  resume_all zero cs = cs
  resume_all (suc n) cs = resume (resume_all n cs) n

  resume_all-Reach : (n : ℕ) (cs : List (Coroutine A B)) → Reach cs → Reach (resume_all n cs)
  unfolding resume_all
  resume_all-Reach zero cs r = r
  resume_all-Reach (suc n) cs r = resumes n (resume_all-Reach n cs r)

  direct-resume : (cs : List (Coroutine A B)) (i : ℕ) → direct (resume cs i) ≡ direct cs
  direct-resume cs i = elim (resume-Resumed cs i) [
    | same e ↦ ap direct e
    | goes c r e _ e' e'' ↦ ap direct e'' ∙ direct_from-set_at [] cs i c (some r) e
  ]

  direct-resume_all : (n : ℕ) (cs : List (Coroutine A B)) → direct (resume_all n cs) ≡ direct cs
  unfolding resume_all
  direct-resume_all zero cs = refl
  direct-resume_all (suc n) cs = direct-resume (resume_all n cs) n ∙ direct-resume_all n cs

  -- What was sent stays.
  join-resume_kept :
      (cs : List (Coroutine A B)) (i p : ℕ) (r : Caught A B)
      → join cs p ≡ some r
      → join (resume cs i) p ≡ some r
  unfolding join
  join-resume_kept cs i p r e = elim (resume-Resumed cs i) [
    | same e' ↦ ap (λ t. join t p) e' ∙ e
    | goes c t e' waits f e'' ↦ elim (ℕ_discrete p i) [
      | yes at_i ↦ absurd (ground (arith, e, e', waits, at_i))
      | no n ↦
          let other = get_elem?-set_at_other i p (record { body = c.body; sent = some t }) cs n in
          ground (arith, e, e'', other)
    ]
  ]

  -- Of whose promises all are there, a body gives a result.
  body_result-some :
      (cs : List (Coroutine A B)) (i : ℕ) (b : Body A B)
      → IsMade i b
      → ((p : ℕ) → p < i → (r : Caught A B) × (join cs p ≡ some r))
      → (r : Caught A B) × (body_result cs b ≡ some r)
  unfolding body_result
  body_result-some cs i (runs r) m before = (r, refl)
  body_result-some cs i (joins p f) m before =
      let (r, e) = before p m in
      elim r
          as (λ r. join cs p ≡ some r → (t : Caught A B) × (body_result cs (joins p f) ≡ some t)) [
            | none ↦ λ e. (none, ground (arith, e))
            | some t ↦ λ e. (f t, ground (arith, e))
          ]
        e

  -- A coroutine whose promises are all there is done when it has had the processor.
  join-resume_done :
      (cs : List (Coroutine A B)) (i : ℕ)
      → Inv cs
      → i < length cs
      → ((p : ℕ) → p < i → (r : Caught A B) × (join cs p ≡ some r))
      → (r : Caught A B) × (join (resume cs i) i ≡ some r)
  unfolding join resume
  join-resume_done cs i v lt before =
      let (c, e) = get_elem?_below i cs lt in
      elim (Option-cases c.sent) [
        | inr (r, e') ↦ (r, join-resume_kept cs i i r (ground (arith, e, e')))
        | inl e' ↦
            let (r, e'') = body_result-some cs i c.body (v.made i c e) before in
            let at_i : get_elem? (set_at i (record { body = c.body; sent = some r }) cs) i
                ≡ some (record { body = c.body; sent = some r }) =
              get_elem?-set_at_same i (record { body = c.body; sent = some r }) c cs e in
            (r, ground (arith, e, e', e'', at_i))
      ]

  length-resume : (cs : List (Coroutine A B)) (i : ℕ) → length (resume cs i) ≡ length cs
  length-resume cs i = elim (resume-Resumed cs i) [
    | same e ↦ ap length e
    | goes c r e _ e' e'' ↦
        ap length e'' ∙ length-set_at i (record { body = c.body; sent = some r }) cs
  ]

  length-resume_all : (n : ℕ) (cs : List (Coroutine A B)) → length (resume_all n cs) ≡ length cs
  unfolding resume_all
  length-resume_all zero cs = refl
  length-resume_all (suc n) cs = length-resume (resume_all n cs) n ∙ length-resume_all n cs

  resume_all_done :
      (n : ℕ) (cs : List (Coroutine A B))
      → Reach cs
      → n ≤ length cs
      → (p : ℕ) → p < n
      → (r : Caught A B) × (join (resume_all n cs) p ≡ some r)
  unfolding resume_all
  resume_all_done zero cs r le p lt = absurd (omega arith)
  resume_all_done (suc n) cs r le p lt =
      let before = resume_all_done n cs r (omega arith) in
      let v = Reach-Inv_promises (resume_all-Reach n cs r) in
      let len = length-resume_all n cs in
      elim (ℕ_discrete p n) [
        | yes e ↦
            subst (λ k. (r : Caught A B) × (join (resume (resume_all n cs) n) k ≡ some r)) (sym e)
              (join-resume_done (resume_all n cs) n v (omega (arith, len, le)) before)
        | no ne ↦
            let (t, e) = before p (omega (arith, lt, ne)) in
            (t, join-resume_kept (resume_all n cs) n p t e)
      ]

  join_out : (cs : List (Coroutine A B)) (p : ℕ) → length cs ≤ p → join cs p ≡ none
  unfolding join
  join_out cs p le = elim (Option-cases (get_elem? cs p)) [
    | inl e ↦ ground (arith, e)
    | inr (c, e) ↦ absurd (omega (arith, get_elem?-lt cs p c e))
  ]

  pub resume_all-direct :
      (cs : List (Coroutine A B)) (p : ℕ)
      → Reach cs
      → join (resume_all (length cs) cs) p ≡ get_elem? (direct cs) p
  resume_all-direct cs p r = elim (dec_lt p (length cs)) [
    | yes lt ↦
        let (t, e) = resume_all_done (length cs) cs r (omega arith) p lt in
        let v = Reach-Inv_promises (resume_all-Reach (length cs) cs r) in
        e
        ∙ sym (
            ap (λ t. get_elem? t p) (sym (direct-resume_all (length cs) cs))
            ∙ join-direct (resume_all (length cs) cs) p t v e)
    | no out ↦ elim (Option-cases (get_elem? (direct cs) p)) [
      | inl e ↦
          join_out (resume_all (length cs) cs) p
            (omega (arith, out, length-resume_all (length cs) cs))
          ∙ sym e
      | inr (t, e) ↦ absurd (omega (arith, out, get_elem?-lt (direct cs) p t e, length-direct cs))
    ]
  ]

  -- What a promise gives, when it gives something, and that it does in the end.
  abbrev pub Gives : List (Coroutine A B) → ℕ → Type 0
  Gives cs p =
      (join (resume_all (length cs) cs) p ≡ get_elem? (direct cs) p)
      × ((sync cs p ≡ none) ⊎ (sync cs p ≡ get_elem? (direct cs) p))

  -- Whatever promises are made from tasks and from one another and however their coroutines are
  -- resumed meanwhile: sync gives nothing yet, or what a direct evaluation gives, in which each
  -- function is called when its coroutine is made, with panics passed on; and when the coroutines
  -- are then resumed once each in the order in which they were made, every promise has that result.
  pub Reach-Gives : (cs : List (Coroutine A B)) (p : ℕ) → Reach cs → Gives cs p
  unfolding sync
  Reach-Gives cs p r = (
    resume_all-direct cs p r,
    elim (Option-cases (join cs p)) [
      | inl e ↦ inl e
      | inr (t, e) ↦ inr (e ∙ sym (join-direct cs p t (Reach-Inv_promises r) e))
    ],
  )
