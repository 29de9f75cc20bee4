-- ===== src/Runtime/RunQueue/Window.antt =====
-- What the ring buffer of src/runtime/processor.rs holds: the slots from the head to the tail.
use coio_rs.Base.{
  ℕ, zero, suc, ◌+◌, ◌-◌, ◌%◌, ◌≤◌, ◌<◌, ◌≡◌, ◌≢◌, refl, sym, ap, ap₂, ◌∙◌, List, [], ◌∷◌, ◌++◌,
  arith, ◌==◌, true, false, length, take, drop, usize_mod, wrapping_add,
}
use coio_rs.Runtime.RunQueue.{
  Coroutine, Slots, RunQueue, queue_size, put, taken, queue_len, batch_from,
}

-- The `n` coroutines from index `h` on.
unfoldable pub window : Slots → ℕ → ℕ → List Coroutine
window s h zero = []
window s h (suc n) = s (h % queue_size) ∷ window s (wrapping_add h 1) n

unfoldable pub contents : RunQueue → List Coroutine
unfolding window
contents q = window q.queue q.queue_head (queue_len q)

-- The counters are machine words, and the queue is not overfull.
pub record IsValid (q : RunQueue) : Type 0 where
  pub head_fits : q.queue_head < usize_mod
  pub tail_fits : q.queue_tail < usize_mod
  pub within : queue_len q ≤ queue_size

pub length-window : (s : Slots) (h n : ℕ) → length (window s h n) ≡ n
unfolding window
length-window s h zero = refl
length-window s h (suc n) = ap suc (length-window s (wrapping_add h 1) n)

pub length-contents : (q : RunQueue) → length (contents q) ≡ queue_len q
unfolding contents
length-contents q = length-window q.queue q.queue_head (queue_len q)

pub batch_from-window : (s : Slots) (h n : ℕ) → batch_from n s h ≡ window s h n
unfolding window batch_from
batch_from-window s h zero = refl
batch_from-window s h (suc n) =
    ap (λ t. s (h % queue_size) ∷ t) (batch_from-window s (wrapping_add h 1) n)

-- Dropping from the front moves the start.
pub drop-window :
    (s : Slots) (h k n : ℕ)
    → h < usize_mod
    → k ≤ n
    → drop k (window s h n) ≡ window s (wrapping_add h k) (n - k)
unfolding window
drop-window s h zero n fits le = ap₂ (λ a b. window s a b) (omega arith) (omega arith)
drop-window s h (suc k) zero fits le = absurd (omega arith)
drop-window s h (suc k) (suc n) fits le =
    drop-window s (wrapping_add h 1) k n (omega arith) (omega arith)
    ∙ ap₂ (λ a b. window s a b) (omega arith) (omega arith)

pub take-window : (s : Slots) (h k n : ℕ) → k ≤ n → take k (window s h n) ≡ window s h k
unfolding window
take-window s h zero n le = refl
take-window s h (suc k) zero le = absurd (omega arith)
take-window s h (suc k) (suc n) le =
    ap (λ t. s (h % queue_size) ∷ t) (take-window s (wrapping_add h 1) k n (omega arith))

pub window-add :
    (s : Slots) (h m n : ℕ)
    → h < usize_mod
    → window s h (m + n) ≡ window s h m ++ window s (wrapping_add h m) n
unfolding window
window-add s h zero n fits = ap₂ (λ a b. window s a b) (omega arith) (omega arith)
window-add s h (suc m) n fits =
    window-suc
    ∙ ap (λ t. s (h % queue_size) ∷ t)
        (window-add s (wrapping_add h 1) m n (omega arith)
          ∙ ap (λ k. window s (wrapping_add h 1) m ++ window s k n) (omega arith))
  where
    window-suc : window s h (suc m + n) ≡ s (h % queue_size) ∷ window s (wrapping_add h 1) (m + n)
    window-suc = ap (window s h) {y = suc (m + n)} (omega arith)

-- A write outside the window leaves it alone.
pub window-put :
    (s : Slots) (h n i : ℕ) (c : Coroutine)
    → ((j : ℕ) → j < n → wrapping_add h j % queue_size ≢ i)
    → h < usize_mod
    → window (put s i c) h n ≡ window s h n
unfolding window put
window-put s h zero i c away fits = refl
window-put s h (suc n) i c away fits = ap₂ ◌∷◌ (ground (arith, away 0)) (
    window-put s (wrapping_add h 1) n i c
      (λ j lt e. away (j + 1) (omega arith) (ap (λ t. t % queue_size) (omega arith) ∙ e))
      (omega arith))

-- A write just behind a window that is not full.
pub window-put_end :
    (s : Slots) (h n : ℕ) (c : Coroutine)
    → h < usize_mod
    → n < queue_size
    → window (put s (wrapping_add h n % queue_size) c) h (suc n) ≡ window s h n ++ (c ∷ [])
unfolding put
window-put_end s h n c fits lt =
    ap (window (put s (wrapping_add h n % queue_size) c) h) (omega arith)
    ∙ window-add (put s (wrapping_add h n % queue_size) c) h n 1 fits
    ∙ ap₂ ◌++◌ (window-put s h n (wrapping_add h n % queue_size) c (λ j l. omega arith) fits)
        (unfold window in ground arith)

-- What others may take in the rounds of a loop, of `n` coroutines: never more than are left.
abbrev pub Takes : List ℕ → ℕ → Type 0
Takes [] n = Unit
Takes (k ∷ ks) n = (k ≤ n) × Takes ks (n - k)

abbrev pub sum : List ℕ → ℕ
sum [] = 0
sum (k ∷ ks) = k + sum ks

pub len-taken :
    (q : RunQueue) (k : ℕ) → IsValid q → k ≤ queue_len q → queue_len (taken q k) ≡ queue_len q - k
len-taken q k v le = omega arith

-- The queue after others have taken `k` is valid.
pub taken-IsValid : (q : RunQueue) (k : ℕ) → IsValid q → k ≤ queue_len q → IsValid (taken q k)
taken-IsValid q k v le = omega arith

pub contents-taken :
    (q : RunQueue) (k : ℕ)
    → IsValid q
    → k ≤ queue_len q
    → contents (taken q k) ≡ drop k (contents q)
unfolding contents
contents-taken q k v le =
    ap (window q.queue (wrapping_add q.queue_head k)) (len-taken q k v le)
    ∙ sym (drop-window q.queue q.queue_head k (queue_len q) v.head_fits le)

pub contents_nil : (q : RunQueue) → queue_len q ≡ 0 → contents q ≡ []
unfolding contents window
contents_nil q e = ap (window q.queue q.queue_head) e

pub contents_cons :
    (q : RunQueue)
    → IsValid q
    → 0 < queue_len q
    → contents q ≡ q.queue (q.queue_head % queue_size) ∷ contents (taken q 1)
unfolding contents window
contents_cons q v pos =
    ap (window q.queue q.queue_head) {y = suc (queue_len q - 1)} (omega arith)
    ∙ ap (λ k. q.queue (q.queue_head % queue_size) ∷ window q.queue (wrapping_add q.queue_head 1) k)
        (omega arith)

drop-nil : (j : ℕ) → drop {A = Coroutine} j [] ≡ []
drop-nil zero = refl
drop-nil (suc j) = refl

pub drop-drop : (i j : ℕ) (xs : List Coroutine) → drop j (drop i xs) ≡ drop (i + j) xs
drop-drop zero j xs = ap (λ k. drop k xs) (omega arith)
drop-drop (suc i) j [] = ground (arith, drop-nil j, drop-nil (suc i + j))
drop-drop (suc i) j (x ∷ xs) =
    drop-drop i j xs ∙ ap (λ k. drop k (x ∷ xs)) {x = suc (i + j)} (omega arith)

-- A compare-and-swap of the head succeeds only if nobody has taken anything.
pub still_zero :
    (q : RunQueue) (k : ℕ)
    → IsValid q
    → k ≤ queue_len q
    → ((taken q k).queue_head == q.queue_head) ≡ true
    → taken q k ≡ q
still_zero q k v le e = ground arith

pub moved_pos :
    (q : RunQueue) (k : ℕ) → IsValid q → ((taken q k).queue_head == q.queue_head) ≡ false → 0 < k
moved_pos q zero v e = absurd (ground arith)
moved_pos q (suc k) v e = omega arith
