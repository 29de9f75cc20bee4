-- ===== src/Runtime/Order/Coprimes.antt =====
-- What `reset` collects: the numbers up to `count` that are coprime to it, 1 among them.
use native.Mathlib.Nat.{dvd_refl, eq-one_of_dvd-one}
use coio_rs.Base.{
  ℕ, zero, suc, ◌+◌, ◌≤◌, ◌<◌, ◌≡◌, refl, List, [], ◌∷◌, some, arith, ◌==◌, length, get_elem?,
  Bool-cases, inl, inr,
}
use coio_rs.Runtime.Order.{gcd, coprimes_from}
use coio_rs.Runtime.Order.Gcd.{dvd-gcd_iff}

-- Each entry lies between 1 and `count` and has no common divisor with it.
abbrev pub AllCoprime : ℕ → List ℕ → Type 0
AllCoprime count [] = Unit
AllCoprime count (x ∷ xs) = (0 < x) × (x ≤ count) × (gcd x count ≡ 1) × AllCoprime count xs

pub AllCoprime-get_elem? :
    (count : ℕ) (xs : List ℕ) (i : ℕ) {x : ℕ}
    → AllCoprime count xs
    → get_elem? xs i ≡ some x
    → (0 < x) × (x ≤ count) × (gcd x count ≡ 1)
AllCoprime-get_elem? count [] i h e = cc
AllCoprime-get_elem? count (y ∷ xs) zero h e = ground arith
AllCoprime-get_elem? count (y ∷ xs) (suc i) h e = AllCoprime-get_elem? count xs i (h.3) e

pub coprimes_from-AllCoprime :
    (count n i : ℕ) → 0 < i → i + n ≤ count + 1 → AllCoprime count (coprimes_from count n i)
unfolding coprimes_from
coprimes_from-AllCoprime count zero i pos h = tt
coprimes_from-AllCoprime count (suc n) i pos h =
    let rest = coprimes_from-AllCoprime count n (i + 1) (omega arith) (omega arith) in
    elim (Bool-cases (gcd i count == 1)) [
      | inl e ↦ rw e (pos, omega arith, ground arith, rest)
      | inr e ↦ rw e rest
    ]

pub gcd-one : (count : ℕ) → gcd 1 count ≡ 1
gcd-one count = eq-one_of_dvd-one ((dvd-gcd_iff (gcd 1 count) 1 count).0 (dvd_refl (gcd 1 count))).0

pub coprimes_from_nonempty : (count n : ℕ) → 0 < n → 0 < length (coprimes_from count n 1)
unfolding coprimes_from
coprimes_from_nonempty count zero h = h
coprimes_from_nonempty count (suc n) h = ground (arith, gcd-one count)

pub get_elem?-total : (xs : List ℕ) (i : ℕ) → i < length xs → (x : ℕ) × (get_elem? xs i ≡ some x)
get_elem?-total [] i h = absurd (omega arith)
get_elem?-total (x ∷ xs) zero h = (x, refl)
get_elem?-total (x ∷ xs) (suc i) h = get_elem?-total xs i (omega arith)
