-- ===== src/Scheduler/EventLoop/Slab.antt =====
-- The crate `slab`, as far as src/scheduler.rs uses it, with what its documentation promises.
use coio_rs.Base.{ℕ, ◌+◌, ◌<◌, ◌≡◌, Option, some}

-- Where a shared `ReadyStates` is.
abbrev pub Address : Type 0
Address = ℕ

-- A slab `S` of addresses. The callback of `insert_with_opt` gets the index of the new entry and may
-- change what it works on, an `E`.
pub record SlabOps (S E : Type 0) : Type 0 where
  pub get : ℕ → S → Option Address
  pub remaining : S → ℕ
  pub count : S → ℕ
  pub grow : ℕ → S → S
  pub insert_with_opt : (ℕ → E → Option Address × E) → E → S → E × S
  pub remove : ℕ → S → S

-- With room left, `insert_with_opt` calls its callback once, with an index, and stores what it gives;
-- `grow` makes as much room. `capacity` is the room with the entries, which only `grow` changes.
abbrev pub capacity : {S E : Type 0} → SlabOps S E → S → ℕ
capacity ops s = ops.remaining s + ops.count s

pub record Documented {S E : Type 0} (ops : SlabOps S E) : Type 0 where
  pub inserts :
      (s : S)
      → 0 < ops.remaining s
      → (i : ℕ) × ((f : ℕ → E → Option Address × E) (e : E)
          → ((ops.insert_with_opt f e s).0 ≡ (f i e).1)
            × ((a : Address)
                → (f i e).0 ≡ some a
                → ops.get i (ops.insert_with_opt f e s).1 ≡ some a))
  pub grows : (n : ℕ) (s : S) → ops.remaining (ops.grow n s) ≡ ops.remaining s + n
  pub grow_counts : (n : ℕ) (s : S) → ops.count (ops.grow n s) ≡ ops.count s
  pub insert_keeps :
      (f : ℕ → E → Option Address × E) (e : E) (s : S)
      → capacity ops (ops.insert_with_opt f e s).1 ≡ capacity ops s
  pub remove_keeps : (i : ℕ) (s : S) → capacity ops (ops.remove i s) ≡ capacity ops s
