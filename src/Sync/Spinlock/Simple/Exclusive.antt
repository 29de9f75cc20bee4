-- ===== src/Sync/Spinlock/Simple/Exclusive.antt =====
-- Mutual exclusion of `Spinlock` of src/sync/spinlock.rs.
use coio_rs.Base.{
  ℕ, ◌≡◌, ◌≢◌, ◌⊎◌, refl, inl, inr, sym, ap, subst, ◌∙◌, Bool, true, false, arith, if◌then◌else◌,
  Bool-cases, ℕ_discrete,
}
use coio_rs.Sync.Spinlock.Simple.{
  Spinlock, compare_exchange_weak, Thread, outside, holds, locking, spins, next_backoff, World, at,
  new, try_lock, lock_round, unlock, write, moved, Step, tries, locks, rounds, waited, writes,
  unlocks, Reach, begin, later,
}

-- 16 times a power of two, up to the ceiling.
abbrev pub IsBackoff : ℕ → Type 0
IsBackoff b =
    (b ≡ 16)
    ⊎ (b ≡ 32)
    ⊎ (b ≡ 64)
    ⊎ (b ≡ 128)
    ⊎ (b ≡ 256)
    ⊎ (b ≡ 512)
    ⊎ (b ≡ 1024)
    ⊎ (b ≡ 2048)
    ⊎ (b ≡ 4096)

next_backoff-IsBackoff : (b : ℕ) → IsBackoff b → IsBackoff (next_backoff b)
unfolding next_backoff
next_backoff-IsBackoff b v = ground arith

abbrev holding : Thread → Bool
holding outside = false
holding holds = true
holding (locking b) = false
holding (spins b) = false

abbrev pub Waits : Thread → Type 0
Waits outside = Unit
Waits holds = Unit
Waits (locking b) = IsBackoff b
Waits (spins b) = IsBackoff b

at-cases :
    (ts : ℕ → Thread) (i : ℕ) (t : Thread) (j : ℕ)
    → ((j ≡ i) × (at ts i t j ≡ t)) ⊎ ((j ≢ i) × (at ts i t j ≡ ts j))
unfolding at
at-cases ts i t j = elim (ℕ_discrete j i) [
  | yes e ↦ inl (e, ground (arith, e))
  | no n ↦ inr (n, ground (arith, n))
]

module _ {A : Type 0} where
  pub record Inv (w : World A) : Type 0 where
    pub waits : (i : ℕ) → Waits (w.threads i)
    pub free : w.spinlock.lock ≡ false → (i : ℕ) → holding (w.threads i) ≡ false
    pub one : (i j : ℕ) → holding (w.threads i) ≡ true → holding (w.threads j) ≡ true → i ≡ j

  -- One thread moves: it comes to hold the lock only if no other does, and the lock is free only if
  -- nobody holds it.
  moved-Inv :
      (w : World A) (i : ℕ) (t : Thread) (l : Spinlock A)
      → Inv w
      → Waits t
      → ((j : ℕ) → j ≢ i → holding t ≡ true → holding (w.threads j) ≡ false)
      → (l.lock ≡ false → holding t ≡ false)
      → (l.lock ≡ false → (j : ℕ) → j ≢ i → holding (w.threads j) ≡ false)
      → Inv (moved w i t l)
  moved-Inv w i t l v ok alone mine others = record {
    waits = λ j. elim (at-cases w.threads i t j) [
      | inl (e, e') ↦ subst Waits (sym e') ok
      | inr (n, e') ↦ subst Waits (sym e') (v.waits j)
    ];
    free = λ f j. elim (at-cases w.threads i t j) [
      | inl (e, e') ↦ ap holding e' ∙ mine f
      | inr (n, e') ↦ ap holding e' ∙ others f j n
    ];
    one = λ j k hj hk. elim (at-cases w.threads i t j) [
      | inl (e, e') ↦ elim (at-cases w.threads i t k) [
        | inl (d, d') ↦ e ∙ sym d
        | inr (n, d') ↦ absurd (ground (arith, alone k n, hj, hk, e', d'))
      ]
      | inr (m, e') ↦ elim (at-cases w.threads i t k) [
        | inl (d, d') ↦ absurd (ground (arith, alone j m, hj, hk, e', d'))
        | inr (n, d') ↦ v.one j k (sym (ap holding e') ∙ hj) (sym (ap holding d') ∙ hk)
      ]
    ];
  }

  -- Beside the thread that holds the lock there is none.
  others_not :
      (w : World A) (i : ℕ)
      → Inv w
      → w.threads i ≡ holds
      → (j : ℕ) → j ≢ i
      → holding (w.threads j) ≡ false
  others_not w i v e j n = elim (Bool-cases (holding (w.threads j))) [
    | inl h ↦ absurd (n (v.one j i h (ap holding e)))
    | inr h ↦ h
  ]

  -- A thread that does not hold the lock moves without it.
  stays-Inv :
      (w : World A) (i : ℕ) (t : Thread)
      → Inv w
      → Waits t
      → holding t ≡ false
      → Inv (moved w i t w.spinlock)
  stays-Inv w i t v ok off =
      moved-Inv w i t w.spinlock v ok (λ j n h. absurd (ground (arith, h, off))) (λ f. off)
        λ f j n. v.free f j

  acquires-Inv :
      (w : World A) (i : ℕ)
      → Inv w
      → w.spinlock.lock ≡ false
      → Inv (moved w i holds (record { lock = true; value = w.spinlock.value }))
  acquires-Inv w i v f =
      moved-Inv w i holds (record { lock = true; value = w.spinlock.value }) v tt
        (λ j n h. v.free f j) (λ e. absurd (ground (arith, e))) λ e. absurd (ground (arith, e))

  swap-cases :
      (fails : Bool) (l : Spinlock A)
      → (compare_exchange_weak fails l ≡ (false, l))
        ⊎ ((l.lock ≡ false)
            × (compare_exchange_weak fails l ≡ (true, record { lock = true; value = l.value })))
  swap-cases true l = inl refl
  swap-cases false l = elim (Bool-cases l.lock) [
    | inl e ↦ inl (ground (arith, e))
    | inr e ↦ inr (e, ground (arith, e))
  ]

  -- The thread holds the lock after a compare-and-swap that succeeds, and is in `t` after one that fails.
  swaps-Inv :
      (w : World A) (i : ℕ) (fails : Bool) (t : Thread)
      → Inv w
      → Waits t
      → holding t ≡ false
      → let r = compare_exchange_weak fails w.spinlock in
        Inv (moved w i (if r.0 then holds else t) r.1)
  swaps-Inv w i fails t v ok off = elim (swap-cases fails w.spinlock) [
    | inl e ↦
        subst (λ r. Inv (moved w i (if r.0 then holds else t) r.1)) (sym e)
          (stays-Inv w i t v ok off)
    | inr (f, e) ↦
        subst (λ r. Inv (moved w i (if r.0 then holds else t) r.1)) (sym e) (acquires-Inv w i v f)
  ]

  Step-Inv : {w w' : World A} → Step w w' → Inv w → Inv w'
  unfolding write unlock try_lock lock_round
  Step-Inv {w} (tries i fails e) v = swaps-Inv w i fails outside v tt refl
  Step-Inv {w} (locks i e) v = stays-Inv w i (locking 16) v (inl refl) refl
  Step-Inv {w} (rounds i b fails e) v =
      swaps-Inv w i fails (spins b) v (subst Waits e (v.waits i)) refl
  Step-Inv {w} (waited i b e) v =
      stays-Inv w i (locking (next_backoff b)) v
        (next_backoff-IsBackoff b (subst Waits e (v.waits i))) refl
  Step-Inv {w} (writes i a e) v =
      moved-Inv w i holds (write a w.spinlock) v tt (λ j n h. others_not w i v e j n)
        (λ f. absurd (ground (arith, v.free f i, e))) λ f j n. v.free f j
  Step-Inv {w} (unlocks i e) v =
      moved-Inv w i outside (unlock w.spinlock) v tt (λ j n h. others_not w i v e j n) (λ f. refl)
        λ f j n. others_not w i v e j n

  Reach-Inv_simple : {v : A} {w : World A} → Reach v w → Inv w
  unfolding new
  Reach-Inv_simple begin = record {
    waits = λ i. tt;
    free = λ e i. refl;
    one = λ i j e e'. absurd (ground (arith, e));
  }
  Reach-Inv_simple (later r st) = Step-Inv st (Reach-Inv_simple r)

  -- Spinlock with any number of threads that lock, try to lock, write and unlock in any order,
  -- where a compare-and-swap may also fail for no reason: while one thread holds a guard the lock
  -- is taken, no other thread holds one, and the backoff of each other that spins is 16 times a
  -- power of two, at most the ceiling of 4096.
  pub Reach-Alone :
      {v : A} (w : World A) (i j : ℕ)
      → Reach v w
      → w.threads i ≡ holds
      → j ≢ i
      → (w.spinlock.lock ≡ true) × (w.threads j ≢ holds) × Waits (w.threads j)
  Reach-Alone w i j r e n =
      let k = Reach-Inv_simple r in
      (
        elim (Bool-cases w.spinlock.lock) [
          | inl t ↦ t
          | inr f ↦ absurd (ground (arith, k.free f i, e))
        ],
        λ e'. n (k.one j i (ap holding e') (ap holding e)),
        k.waits j,
      )
