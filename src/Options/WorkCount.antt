-- ===== src/Options/WorkCount.antt =====
-- The counter of coroutines in src/lib.rs.
use coio_rs.Base.{
  ◌%◌, ◌<◌, ◌≡◌, ap, refl, List, [], ◌∷◌, ◌++◌, arith, length, length-append, usize_mod,
}
use coio_rs.Options.{
  Options, Builder, Settings, Coroutine, World, global_work_count_add, global_work_count_sub,
  global_work_count_get, spawn_opts, spawn, build_spawn, drop_coroutine,
}

-- Coroutines are made in each of the ways, and those that are there are dropped.
pub data Step (w : World) : World → Type 0 where
  spawns_opts : (o : Options) → Step w (spawn_opts o w)
  spawns : Step w (spawn w)
  builds : (b : Builder) → Step w (build_spawn b w)
  drops :
      (xs ys : List Coroutine) (c : Coroutine)
      → w.live ≡ xs ++ (c ∷ ys)
      → Step w (drop_coroutine xs ys w)

pub data Reach (s : Settings) : World → Type 0 where
  begin : Reach s (record { settings = s; live = []; global_work_count = 0 })
  later : {w w' : World} → Reach s w → Step w w' → Reach s w'

abbrev Counts : World → Type 0
Counts w = w.global_work_count ≡ length w.live % usize_mod

spawn_opts-Counts : (o : Options) (w : World) → Counts w → Counts (spawn_opts o w)
unfolding spawn_opts global_work_count_add
spawn_opts-Counts o w e =
    omega (arith, e, length-append w.live (record { stack = o.stack_size; name = o.name } ∷ []))

drops-Counts :
    (xs ys : List Coroutine) (c : Coroutine) (w : World)
    → w.live ≡ xs ++ (c ∷ ys)
    → Counts w
    → Counts (drop_coroutine xs ys w)
unfolding drop_coroutine global_work_count_sub
drops-Counts xs ys c w e v =
    omega (arith, v, ap length e, length-append xs (c ∷ ys), length-append xs ys)

Step-Counts : {w w' : World} → Step w w' → Counts w → Counts w'
unfolding spawn build_spawn
Step-Counts {w} (spawns_opts o) v = spawn_opts-Counts o w v
Step-Counts {w} spawns v = spawn_opts-Counts w.settings.default_spawn_options w v
Step-Counts {w} (builds b) v = spawn_opts-Counts b.opts w v
Step-Counts {w} (drops xs ys c e) v = drops-Counts xs ys c w e v

Reach-Counts : {s : Settings} {w : World} → Reach s w → Counts w
Reach-Counts begin = refl
Reach-Counts (later r st) = Step-Counts st (Reach-Counts r)

-- In every order of coroutines that are made with the default options, with given ones and by a
-- builder, and of drops of those that are there, as long as fewer than 2^64 are there: work_count
-- is how many are there.
pub Reach-count :
    {s : Settings} (w : World)
    → Reach s w
    → length w.live < usize_mod
    → global_work_count_get w ≡ length w.live
unfolding global_work_count_get
Reach-count w r lt = omega (arith, Reach-Counts r, lt)
