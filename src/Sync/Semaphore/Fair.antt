-- ===== src/Sync/Semaphore/Fair.antt =====
-- All that callers of a semaphore of src/sync/semaphore.rs may do, in any order.
use coio_rs.Base.{
  ℕ, ◌+◌, ◌≤◌, ◌<◌, ◌≡◌, ◌⊎◌, refl, inl, Bool, true, false, Option, none, some, List, [], ◌∷◌, ◌++◌,
  arith, usize_mod,
}
use mathlib.Core.List.{append_assoc}
use coio_rs.Sync.Semaphore.{
  Handle, Semaphore, new, Acquire, acquired, parked, panicked, acquire, try_acquire, release,
}

-- A semaphore with its past: how many permits were given, to callers and to those that were woken, how
-- often it was released, who was ever parked, and who was woken.
pub record Ledger : Type 0 where
  pub sema : Semaphore
  pub given : ℕ
  pub released : ℕ
  pub parked_log : List Handle
  pub woken_log : List Handle

abbrev pub start : ℕ → Ledger
start n = record { sema = new n; given = 0; released = 0; parked_log = []; woken_log = [] }

abbrev pub after_acquire : Ledger → Option Handle → Acquire × Semaphore → Ledger
after_acquire s caller (acquired, sema) = record s { sema = sema; given = s.given + 1 }
after_acquire s none (parked, sema) = record s { sema = sema }
after_acquire s (some c) (parked, sema) = record s {
  sema = sema;
  parked_log = s.parked_log ++ (c ∷ []);
}
after_acquire s caller (panicked, sema) = record s { sema = sema }

abbrev pub after_try : Ledger → Bool × Semaphore → Ledger
after_try s (true, sema) = record s { sema = sema; given = s.given + 1 }
after_try s (false, sema) = record s { sema = sema }

abbrev pub after_release : Ledger → Option Handle × Semaphore → Ledger
after_release s (none, sema) = record s { sema = sema; released = s.released + 1 }
after_release s (some h, sema) = record s {
  sema = sema;
  given = s.given + 1;
  released = s.released + 1;
  woken_log = s.woken_log ++ (h ∷ []);
}

-- Anybody may release, also who has no permit.
pub data Step (s : Ledger) : Ledger → Type 0 where
  acquires : (caller : Option Handle) → Step s (after_acquire s caller (acquire caller s.sema))
  tries : (free : Bool) → Step s (after_try s (try_acquire free s.sema))
  releases : Step s (after_release s (release s.sema))

pub data Reach (n : ℕ) : Ledger → Type 0 where
  begin : Reach n (start n)
  later : {s t : Ledger} → Reach n s → Step s t → Reach n t

pub record Inv (n : ℕ) (s : Ledger) : Type 0 where
  pub permits : s.sema.count + s.given ≡ n + s.released
  pub fair : (s.sema.waiters ≡ []) ⊎ (s.sema.count ≡ 0)
  pub in_order : s.parked_log ≡ s.woken_log ++ s.sema.waiters

acquire-Inv :
    (n : ℕ) (s : Ledger) (caller : Option Handle)
    → Inv n s
    → Inv n (after_acquire s caller (acquire caller s.sema))
unfolding acquire
acquire-Inv n s none v = ground arith
acquire-Inv n s (some c) v = ground (arith, append_assoc s.woken_log s.sema.waiters (c ∷ []))

release-Inv :
    (n : ℕ) (s : Ledger) (ws : List Handle)
    → n + s.released + 1 < usize_mod
    → s.sema.waiters ≡ ws
    → Inv n s
    → Inv n (after_release s (release s.sema))
unfolding release
release-Inv n s [] small e v = ground arith
release-Inv n s (w ∷ ws) small e v = ground (arith, append_assoc s.woken_log (w ∷ []) ws)

-- Releases are only added.
Step-grows : {s t : Ledger} → Step s t → s.released ≤ t.released
unfolding acquire try_acquire release
Step-grows {s} (acquires none) = ground arith
Step-grows {s} (acquires (some c)) = ground arith
Step-grows (tries true) = ground arith
Step-grows (tries false) = ground arith
Step-grows {s} releases = ground arith

releases-one : (s : Ledger) → (after_release s (release s.sema)).released ≡ s.released + 1
unfolding release
releases-one s = ground arith

Step-Inv : (n : ℕ) {s t : Ledger} → n + t.released < usize_mod → Step s t → Inv n s → Inv n t
unfolding try_acquire
Step-Inv n {s} small (acquires caller) v = acquire-Inv n s caller v
Step-Inv n small (tries true) v = ground arith
Step-Inv n small (tries false) v = ground arith
Step-Inv n {s} small releases v =
    release-Inv n s s.sema.waiters (omega (arith, small, releases-one s)) refl v

-- After any operations on a semaphore, releases without a permit included, where the permits at the
-- start and the releases are together fewer than 2^64: the permits inside and those given are as
-- many as those at the start and those released, nobody waits while one is inside, and coroutines
-- were woken in the order in which they were parked, each once, those not yet woken being the wait
-- list.
pub Reach-Inv : (n : ℕ) {s : Ledger} → n + s.released < usize_mod → Reach n s → Inv n s
unfolding new
Reach-Inv n small begin = record { permits = omega arith; fair = inl refl; in_order = refl }
Reach-Inv n small (later r st) =
    Step-Inv n small st (Reach-Inv n (omega (arith, small, Step-grows st)) r)
