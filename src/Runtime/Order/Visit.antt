-- ===== src/Runtime/Order/Visit.antt =====
-- The order that `iter` gives visits each processor exactly once.
use native.Mathlib.Nat.{
  div-add-mod, dvd-sub, dvd-mul_right, le_of_dvd, mod-lt, mod-add-mod, mod-eq_of_lt,
}
use native.Mathlib.Numerals.{add-one}
use coio_rs.Base.{
  count_of, ℕ, zero, suc, ◌+◌, ◌*◌, ◌/◌, ◌%◌, ◌^◌, ◌≤◌, ◌<◌, ◌∣◌, ◌≡◌, refl, subst, ap, sym, ◌∙◌,
  List, [], ◌∷◌, some, arith, ◌==◌, length, get_elem?, Bool-cases, inl, inr, dec_lt, ==_iff,
}
use coio_rs.Runtime.Order.{
  RandomProcessorOrder, RandomProcessorIter, gcd, coprimes_from, reset, iter, collect,
}
use coio_rs.Runtime.Order.Gcd.{dvd-gcd-mul}
use coio_rs.Runtime.Order.Coprimes.{
  coprimes_from-AllCoprime, AllCoprime-get_elem?, coprimes_from_nonempty, get_elem?-total,
}
use coio_rs.Runtime.Order.Count.{AllBelow, count_of_full}

-- The `n` positions from `p` on, `inc` apart.
orbit : ℕ → ℕ → ℕ → ℕ → List ℕ
orbit count inc zero p = []
orbit count inc (suc n) p = p ∷ orbit count inc n ((p + inc) % count)

length-orbit : (count inc n p : ℕ) → length (orbit count inc n p) ≡ n
unfolding orbit
length-orbit count inc zero p = refl
length-orbit count inc (suc n) p = ap suc (length-orbit count inc n ((p + inc) % count))

orbit-AllBelow : (count inc n p : ℕ) → p < count → AllBelow count (orbit count inc n p)
unfolding orbit
orbit-AllBelow count inc zero p h = tt
orbit-AllBelow count inc (suc n) p h =
    (h, orbit-AllBelow count inc n ((p + inc) % count) (mod-lt (p + inc) (omega arith)))

collect-orbit :
    (count inc n i p : ℕ)
    → i + n ≡ count
    → p < count
    → inc ≤ count
    → count ≤ 2 ^ 63
    → collect (suc n) (record { i = i; pos = p; inc = inc; count = count })
      ≡ some (orbit count inc n p)
unfolding collect orbit
collect-orbit count inc zero i p e h g small = ground arith
collect-orbit count inc (suc n) i p e h g small = ground (
  arith,
  collect-orbit count inc n (i + 1) ((p + inc) % count) (omega arith)
      (mod-lt (p + inc) (omega arith)) g small,
)

dvd_of_mod-eq : (c p d : ℕ) → (p + d) % c ≡ p % c → c ∣ d
dvd_of_mod-eq c p d e =
    subst (λ t. c ∣ t) (omega (arith, div-add-mod (p + d) c, div-add-mod p c))
      (dvd-sub c (dvd-mul_right c ((p + d) / c)) (dvd-mul_right c (p / c)))

-- Fewer than `count` steps do not come back to the start: `inc` is coprime to `count`.
no_return :
    (count inc p k : ℕ)
    → gcd inc count ≡ 1
    → p < count
    → 0 < k
    → k < count
    → (p + k * inc) % count ≡ p
    → ⊥
no_return count inc p k coprime h pos lt e = absurd (omega (arith, le_of_dvd pos divides))
  where
    divides : count ∣ k
    divides =
        subst (λ t. count ∣ t) (omega (arith, ap (λ (t : ℕ). t * k) coprime))
          (dvd-gcd-mul count k inc count
            (subst (λ t. count ∣ t) (omega arith)
              (dvd_of_mod-eq count p (k * inc) (e ∙ sym (mod-eq_of_lt h))))
            (dvd-mul_right count k))

-- An entry of the orbit is `k` steps from its start.
step_of_count_of :
    (count inc n p j : ℕ)
    → p < count
    → 0 < count_of j (orbit count inc n p)
    → (k : ℕ) × (k < n) × (j ≡ (p + k * inc) % count)
unfolding orbit count_of
step_of_count_of count inc zero p j h c = absurd (omega arith)
step_of_count_of count inc (suc n) p j h c = elim (Bool-cases (p == j)) [
  | inl e ↦ (0, omega arith, ground (arith, mod-eq_of_lt h))
  | inr e ↦
      let (k, lt, eq) =
        step_of_count_of count inc n ((p + inc) % count) j (mod-lt (p + inc) (omega arith))
          (ground arith) in
      (
        k + 1,
        omega arith,
        eq ∙ mod-add-mod (p + inc) count (k * inc) ∙ ap (λ t. t % count) (omega arith),
      )
]

orbit_once :
    (count inc n p j : ℕ)
    → gcd inc count ≡ 1
    → p < count
    → n ≤ count
    → count_of j (orbit count inc n p) ≤ 1
unfolding orbit count_of
orbit_once count inc zero p j c h le = omega arith
orbit_once count inc (suc n) p j c h le = elim (Bool-cases (p == j)) [
  | inl e ↦ rw e (elim (dec_lt 0 (count_of j rest)) [
    | yes again ↦
        let (k, lt, eq) = step_of_count_of count inc n q j (mod-lt (p + inc) (omega arith)) again in
        absurd (
          no_return count inc p (k + 1) c h (omega arith) (omega arith) (
            ap (λ t. t % count) (omega arith)
            ∙ sym (mod-add-mod (p + inc) count (k * inc))
            ∙ sym eq
            ∙ sym ((==_iff p j).0 e)))
    | no once ↦ omega arith
  ])
  | inr e ↦
      rw e
        (omega (arith, orbit_once count inc n q j c (mod-lt (p + inc) (omega arith)) (omega arith)))
]
  where
    q : ℕ
    q = (p + inc) % count

    rest : List ℕ
    rest = orbit count inc n q

-- After `reset count`, with 1 to 2^63 processors, `iter` from any random number does not panic, its
-- loop ends, and the processors that it visits are all below `count`, each of them exactly once.
pub iter_visits_each_once :
    (o : RandomProcessorOrder) (count start : ℕ)
    → 0 < count
    → count ≤ 2 ^ 63
    → (it : RandomProcessorIter) × (xs : List ℕ) × (iter (reset o count) start ≡ some it)
      × (collect (count + 1) it ≡ some xs)
      × AllBelow count xs
      × (length xs ≡ count)
      × ((j : ℕ) → j < count → count_of j xs ≡ 1)
unfolding iter reset
iter_visits_each_once o count start pos small = (
  record { i = 0; pos = start % count; inc = inc; count = count },
  orbit count inc count (start % count),
  ground arith,
  rw add-one (collect-orbit count inc count 0 (start % count) (omega arith) below good.1 small),
  orbit-AllBelow count inc count (start % count) below,
  length-orbit count inc count (start % count),
  count_of_full count (orbit count inc count (start % count))
      (orbit-AllBelow count inc count (start % count) below)
      (λ j. orbit_once count inc count (start % count) j good.2 below (omega arith))
      (length-orbit count inc count (start % count)),
)
  where
    below : start % count < count
    below = mod-lt start pos

    coprimes : List ℕ
    coprimes = coprimes_from count count 1

    index : ℕ
    index = start % length coprimes

    found : (x : ℕ) × (get_elem? coprimes index ≡ some x)
    found = get_elem?-total coprimes index (mod-lt start (coprimes_from_nonempty count count pos))

    inc : ℕ
    inc = found.0

    good : (0 < inc) × (inc ≤ count) × (gcd inc count ≡ 1)
    good =
        AllCoprime-get_elem? count coprimes index
          (coprimes_from-AllCoprime count count 1 (omega arith) (omega arith)) found.1
