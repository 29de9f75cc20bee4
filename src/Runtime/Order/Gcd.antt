-- ===== src/Runtime/Order/Gcd.antt =====
-- The loop `gcd` of src/runtime/processor.rs computes greatest common divisors.
use native.Mathlib.Nat.{
  dvd-add_iff_right, dvd-mul_right_of_dvd, dvd-mod_iff, dvd_refl, dvd_trans, dvd-zero, mod-lt,
  div-add-mod,
}
use native.Mathlib.Bridge.{le_prop}
use mathlib.Core.WellFounded.{Acc}
use coio_rs.Base.{
  ℕ, ◌+◌, ◌*◌, ◌/◌, ◌%◌, ◌<◌, ◌∣◌, ◌≡◌, ◌↔◌, subst, ap, arith, dec_lt, dif_pos, dif_neg,
}
use coio_rs.Runtime.Order.{gcd_acc, gcd, lt_acc}

dvd-mod-mul : (n k a b : ℕ) → n ∣ a * k → n ∣ b * k → n ∣ (a % b) * k
dvd-mod-mul n k a b ha hb =
    (dvd-add_iff_right n (dvd-mul_right_of_dvd n hb (a / b))).1 (subst (λ t. n ∣ t) split ha)
  where
    split : a * k ≡ b * k * (a / b) + (a % b) * k
    split = omega (arith, ap (λ (t : ℕ). t * k) (div-add-mod a b))

dvd-gcd_acc-mul : (n k a b : ℕ) (w : Acc ◌<◌ b) → n ∣ a * k → n ∣ b * k → n ∣ gcd_acc a b w * k
unfolding gcd_acc
dvd-gcd_acc-mul n k a b (Acc.intro _ smaller) ha hb = elim (dec_lt 0 b) [
  | yes h ↦
      rw (dif_pos _ le_prop h) (
        dvd-gcd_acc-mul n k b (a % b) (smaller (a % b) (mod-lt a h)) hb (dvd-mod-mul n k a b ha hb))
  | no h ↦ rw (dif_neg _ h) ha
]

-- A number that divides `a * k` and `b * k` divides `gcd a b * k`.
pub dvd-gcd-mul : (n k a b : ℕ) → n ∣ a * k → n ∣ b * k → n ∣ gcd a b * k
unfolding gcd
dvd-gcd-mul n k a b = dvd-gcd_acc-mul n k a b (lt_acc b)

gcd_acc-dvd : (a b : ℕ) (w : Acc ◌<◌ b) → (gcd_acc a b w ∣ a) × (gcd_acc a b w ∣ b)
unfolding gcd_acc
gcd_acc-dvd a b (Acc.intro _ smaller) = elim (dec_lt 0 b) [
  | yes h ↦ rw (dif_pos _ le_prop h) (
      let (l, r) = gcd_acc-dvd b (a % b) (smaller (a % b) (mod-lt a h)) in
      ((dvd-mod_iff (gcd_acc b (a % b) (smaller (a % b) (mod-lt a h))) l).0 r, l))
  | no h ↦ rw (dif_neg _ h) (dvd_refl a, subst (λ t. a ∣ t) (omega arith) (dvd-zero a))
]

-- The result of `gcd` divides both arguments, and whatever divides both divides the result.
pub dvd-gcd_iff : (d a b : ℕ) → (d ∣ gcd a b) ↔ ((d ∣ a) × (d ∣ b))
dvd-gcd_iff d a b = (
  λ h. (dvd_trans d h (divides.0), dvd_trans d h (divides.1)),
  λ (l, r). subst (λ t. d ∣ t) (omega arith) (dvd-gcd-mul d 1 a b (mul_one l) (mul_one r)),
)
  where
    divides : (gcd a b ∣ a) × (gcd a b ∣ b)
    divides = unfold gcd in gcd_acc-dvd a b (lt_acc b)

    mul_one : {t : ℕ} → d ∣ t → d ∣ t * 1
    mul_one h = dvd-mul_right_of_dvd d h 1
