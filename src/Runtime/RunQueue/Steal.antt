-- ===== src/Runtime/RunQueue/Steal.antt =====
-- `queue_grab` and `queue_steal` of src/runtime/processor.rs.
use coio_rs.Base.{
  ℕ, zero, suc, ◌+◌, ◌/◌, ◌%◌, ◌≤◌, ◌<◌, ◌≡◌, refl, sym, ap, ap₂, subst, ◌∙◌, List, [], ◌∷◌, ◌++◌,
  Option, none, some, arith, ◌==◌, ltb, false, take, drop, length, length-take, length-drop, inl,
  inr, Bool-cases, usize_mod, wrapping_add,
}
use mathlib.Core.List.{append-nil, append_assoc}
use coio_rs.Runtime.RunQueue.{
  Coroutine, Slots, RunQueue, queue_size, put, put_all, taken, queue_len, copy, grab_round,
  queue_grab, steal_end, queue_steal,
}
use coio_rs.Runtime.RunQueue.Window.{
  window, contents, IsValid, Takes, sum, len-taken, taken-IsValid, contents-taken, take-window,
  window-add, window-put_end, length-contents, contents_nil, drop-drop, still_zero, moved_pos,
}
use coio_rs.Runtime.RunQueue.Pop.{listed}

-- Writing `xs` just behind a window, where there is room.
pub window-put_all :
    (xs : List Coroutine) (s : Slots) (h n : ℕ)
    → h < usize_mod
    → n + length xs ≤ queue_size
    → window (put_all s (wrapping_add h n) xs) h (n + length xs) ≡ window s h n ++ xs
unfolding put_all
window-put_all [] s h n fits le = ap (window s h) {y = n} (omega arith) ∙ sym (append-nil _)
window-put_all (c ∷ cs) s h n fits le =
    let next : wrapping_add (wrapping_add h n) 1 ≡ wrapping_add h (suc n) = omega arith in
    let total : n + suc (length cs) ≡ suc n + length cs = omega arith in
    ap₂ (λ t k. window (put_all (put s (wrapping_add h n % queue_size) c) t cs) h k) next total
    ∙ window-put_all cs (put s (wrapping_add h n % queue_size) c) h (suc n) fits (omega arith)
    ∙ ap (λ t. t ++ cs) (window-put_end s h n c fits (omega arith))
    ∙ append_assoc (window s h n) (c ∷ []) cs

copy-put_all :
    (n : ℕ) (src : Slots) (h : ℕ) (dst : Slots) (b : ℕ)
    → copy n src h dst b ≡ put_all dst b (window src h n)
unfolding copy put_all window
copy-put_all zero src h dst b = refl
copy-put_all (suc n) src h dst b =
    copy-put_all n src (wrapping_add h 1) (put dst (b % queue_size) (src (h % queue_size)))
      (wrapping_add b 1)

-- Half of a list, rounded up.
abbrev pub half : List Coroutine → ℕ
half xs = (length xs + 1) / 2

-- Of `xs`, what the others leave of the queue, the first half is copied and the rest stays.
abbrev pub Halved : List Coroutine → Slots → ℕ → ℕ × RunQueue × Slots → Type 0
Halved xs dst b (n, q', dst') =
    (n ≡ half xs) × (dst' ≡ put_all dst b (take n xs)) × (contents q' ≡ drop n xs) × IsValid q'

abbrev pub Grabs : ℕ → RunQueue → Slots → ℕ → ℕ × RunQueue × Slots → Type 0
Grabs limit q dst b r = (m : ℕ) × (m ≤ limit) × Halved (drop m (contents q)) dst b r

grab_still :
    (q p : RunQueue) (dst : Slots) (b n : ℕ)
    → IsValid q
    → n ≡ (queue_len q + 1) / 2
    → p ≡ q
    → Halved (contents q) dst b (n, taken p n, copy n q.queue q.queue_head dst b)
grab_still q p dst b n v e same =
    subst (λ p. Halved (contents q) dst b (n, taken p n, copy n q.queue q.queue_head dst b))
      (sym same)
      (
        e ∙ ap (λ t. (t + 1) / 2) (sym (length-contents q)),
        copy-put_all n q.queue q.queue_head dst b
            ∙ ap (put_all dst b) (
                sym (
                  unfold contents in
                  take-window q.queue q.queue_head n (queue_len q) (omega arith))),
        contents-taken q n v (omega arith),
        taken-IsValid q n v (omega arith),
      )

grab_round-Grabs :
    (q : RunQueue) (k limit : ℕ) (dst : Slots) (b : ℕ) (again : ℕ × RunQueue × Slots)
    → IsValid q
    → k ≤ queue_len q
    → (0 < k → Grabs limit (taken q k) dst b again)
    → Grabs (k + limit) q dst b (grab_round q k dst b again)
unfolding put_all
grab_round-Grabs q k limit dst b again v le next =
    elim (Bool-cases (wrapping_add (queue_len q) 1 / 2 == 0)) [
      | inl e ↦
          rw e (0, omega arith, (ap half (sym (contents_nil q (ground arith))), refl, refl, v))
      | inr e ↦
          let few : ltb (queue_size / 2) (wrapping_add (queue_len q) 1 / 2) ≡ false =
            ground arith in
          elim (Bool-cases ((taken q k).queue_head == q.queue_head)) [
            | inl still ↦
                rw (e, few, still)
                  (
                    0,
                    omega arith,
                    grab_still q (taken q k) dst b (wrapping_add (queue_len q) 1 / 2) v
                        (omega arith) (still_zero q k v le still),
                  )
            | inr gone ↦
                let (m, le', halved) = next (moved_pos q k v gone) in
                rw (e, few, gone)
                  (
                    k + m,
                    omega arith,
                    subst (λ t. Halved t dst b again)
                        (ap (drop m) (contents-taken q k v le) ∙ drop-drop k m (contents q)) halved,
                  )
          ]
    ]

pub queue_grab-Grabs :
    (ks : List ℕ) (q : RunQueue) (dst : Slots) (b : ℕ)
    → IsValid q
    → Takes ks (queue_len q)
    → Grabs (sum ks) q dst b (queue_grab ks q dst b)
unfolding queue_grab
queue_grab-Grabs [] q dst b v t =
    grab_round-Grabs q 0 0 dst b (0, q, dst) v (omega arith) (λ p. absurd (omega arith))
queue_grab-Grabs (k ∷ ks) q dst b v t =
    grab_round-Grabs q k (sum ks) dst b (queue_grab ks (taken q k) dst b) v t.0 λ _.
      queue_grab-Grabs ks (taken q k) dst b (taken-IsValid q k v t.0)
        (subst (Takes ks) (sym (len-taken q k v t.0)) t.1)

-- What the thief `q`, whose own queue was empty, has of `xs` after a theft that gives `r`.
abbrev pub Stolen : List Coroutine → Option Coroutine × RunQueue × RunQueue → Type 0
Stolen xs (r, q', from') =
    (contents q' ++ listed r ≡ take (half xs) xs)
    × (contents from' ≡ drop (half xs) xs)
    × (r ≡ none → xs ≡ [])
    × IsValid q'
    × IsValid from'

-- A theft that ends, after others have taken no more than `limit` coroutines.
abbrev pub Steals : ℕ → RunQueue → Option (Option Coroutine × RunQueue × RunQueue) → Type 0
Steals limit from out =
    (m : ℕ) × (r : Option Coroutine × RunQueue × RunQueue) × (m ≤ limit)
    × (out ≡ some r)
    × Stolen (drop m (contents from)) r

steal_window :
    (slots : Slots) (h k : ℕ) (xs : List Coroutine)
    → h < usize_mod
    → window slots h (k + 1) ≡ xs
    → window slots h k ++ (slots (wrapping_add h k % queue_size) ∷ []) ≡ xs
unfolding window
steal_window slots h k xs fits e = sym (window-add slots h k 1 fits) ∙ e

half-le : (xs : List Coroutine) → half xs ≤ length xs
half-le xs = omega arith

nil_of_half : (xs : List Coroutine) → half xs ≡ 0 → xs ≡ []
nil_of_half [] e = refl
nil_of_half (x ∷ xs) e = absurd (omega arith)

steal_end-Stolen :
    (q : RunQueue) (xs : List Coroutine) (n : ℕ) (from : RunQueue) (slots : Slots)
    → IsValid q
    → queue_len q ≡ 0
    → length xs ≤ queue_size
    → Halved xs q.queue q.queue_tail (n, from, slots)
    → (r : Option Coroutine × RunQueue × RunQueue) × (steal_end q (n, from, slots) ≡ some r)
      × Stolen xs r
unfolding window contents
steal_end-Stolen q xs zero from slots v empty le (e, same, rest, v') = (
  (none, record q { queue = slots }, from),
  refl,
  (
    ap (λ t. t ++ []) (contents_nil (record q { queue = slots }) empty) ∙ ap (λ t. take t xs) e,
    rest ∙ ap (λ t. drop t xs) e,
    λ _. nil_of_half xs (omega arith),
    omega arith,
    v',
  ),
)
steal_end-Stolen q xs (suc k) from slots v empty le (e, same, rest, v') = (
  (some (slots (wrapping_add q.queue_tail k % queue_size)), q', from),
  ground arith,
  (
    ap (λ t. window slots q.queue_head t ++ last) {x = queue_len q'} (omega arith)
        ∙ ap (λ t. window slots q.queue_head k ++ (slots (wrapping_add t k % queue_size) ∷ []))
            together
        ∙ steal_window slots q.queue_head k (take (suc k) xs) v.head_fits stolen
        ∙ ap (λ t. take t xs) e,
    rest ∙ ap (λ t. drop t xs) e,
    λ h. cc,
    omega arith,
    v',
  ),
)
  where
    q' : RunQueue
    q' = record {
      queue = slots;
      queue_head = q.queue_head;
      queue_tail = wrapping_add q.queue_tail k;
    }

    last : List Coroutine
    last = slots (wrapping_add q.queue_tail k % queue_size) ∷ []

    together : q.queue_tail ≡ q.queue_head
    together = omega arith

    stolen : window slots q.queue_head (k + 1) ≡ take (suc k) xs
    stolen =
        let count : length (take (suc k) xs) ≡ suc k = omega (arith, length-take (suc k) xs) in
        let start : q.queue_tail ≡ wrapping_add q.queue_head 0 = omega arith in
        let size : k + 1 ≡ 0 + length (take (suc k) xs) = omega arith in
        ap (λ t. window t q.queue_head (k + 1)) same
        ∙ ap₂ (λ t j. window (put_all q.queue t (take (suc k) xs)) q.queue_head j) start size
        ∙ window-put_all (take (suc k) xs) q.queue q.queue_head 0 v.head_fits (omega arith)

-- When the own queue of a thief is empty, whatever others take from the victim meanwhile,
-- `queue_steal` ends and does not panic. Of what the others leave, the first half, rounded up, goes
-- to the thief: its last coroutine is the result, those before it are in the own queue in order. The
-- rest stays with the victim. Nothing is stolen only if nothing was left. Both queues stay valid.
pub queue_steal-Steals :
    (ks : List ℕ) (q from : RunQueue)
    → IsValid q
    → IsValid from
    → queue_len q ≡ 0
    → Takes ks (queue_len from)
    → Steals (sum ks) from (queue_steal ks q from)
unfolding queue_steal
queue_steal-Steals ks q from v v' empty t =
    let (m, le, halved) = queue_grab-Grabs ks from q.queue q.queue_tail v' t in
    let (n, from', slots) = queue_grab ks from q.queue q.queue_tail in
    let (r, e, stolen) =
      steal_end-Stolen q (drop m (contents from)) n from' slots v empty
        (omega (arith, length-drop m (contents from), length-contents from)) halved in
    (m, r, le, e, stolen)
