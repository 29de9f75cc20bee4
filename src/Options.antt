-- ===== src/Options.antt =====
-- src/options.rs, with those who make options: `Builder` of src/lib.rs and the builder of `Scheduler` in
-- src/scheduler.rs; and what src/coroutine.rs does with them, where it counts the coroutines in the
-- counter of src/lib.rs. Names are lists of characters, as numbers.
pub mod Last
pub mod WorkCount
mod Tests
use coio_rs.Base.{
  ℕ, ◌*◌, ◌≤◌, Option, none, some, List, [], ◌∷◌, ◌++◌, ltb, if◌then◌else◌, wrapping_add,
  wrapping_sub,
}

abbrev pub Name : Type 0
Name = List ℕ

pub record Options : Type 0 where
  pub stack_size : ℕ
  pub name : Option Name

abbrev pub default_stack : ℕ
default_stack = 128 * 1024

-- Also `default`.
unfoldable pub new : Options
new = record { stack_size = default_stack; name = none }

-- `stack_size` and `name`.
unfoldable pub with_stack_size : ℕ → Options → Options
with_stack_size size o = record o { stack_size = size }

unfoldable pub with_name : Name → Options → Options
with_name s o = record o { name = some s }

pub record Builder : Type 0 where
  pub opts : Options

unfoldable pub builder : Builder
unfolding new
builder = record { opts = new }

-- `Builder::stack_size` and `Builder::name`.
unfoldable pub build_stack_size : ℕ → Builder → Builder
build_stack_size size b = record b { opts = record (b.opts) { stack_size = size } }

unfoldable pub build_name : Name → Builder → Builder
build_name s b = record b { opts = record (b.opts) { name = some s } }

-- The fields of `Scheduler` that its builder sets.
pub record Settings : Type 0 where
  pub default_spawn_options : Options
  pub expected_worker_count : ℕ
  pub maximum_stack_memory_limit : ℕ

unfoldable pub settings : Settings
unfolding new
settings = record {
  default_spawn_options = new;
  expected_worker_count = 1;
  maximum_stack_memory_limit = 2 * 1024 * 1024 * 1024;
}

-- `none` is the panic of the assertion.
unfoldable pub with_workers : ℕ → Settings → Option Settings
with_workers workers s =
    if ltb workers 1 then none else some (record s { expected_worker_count = workers })

unfoldable pub default_stack_size : ℕ → Settings → Settings
unfolding with_stack_size
default_stack_size size s = record s {
  default_spawn_options = with_stack_size size (s.default_spawn_options);
}

-- "<main>"
abbrev pub main_name : Name
main_name = 60 ∷ 109 ∷ 97 ∷ 105 ∷ 110 ∷ 62 ∷ []

-- The options of the main coroutine of `Scheduler::run`.
unfoldable pub main_options : Settings → Options
unfolding with_name
main_options s = with_name main_name s.default_spawn_options

-- What a coroutine keeps of its options: its stack was asked for with that size.
pub record Coroutine : Type 0 where
  pub stack : ℕ
  pub name : Option Name

pub record World : Type 0 where
  pub settings : Settings
  pub live : List Coroutine
  pub global_work_count : ℕ

unfoldable pub global_work_count_add : World → World
global_work_count_add w = record w { global_work_count = wrapping_add w.global_work_count 1 }

unfoldable pub global_work_count_sub : World → World
global_work_count_sub w = record w { global_work_count = wrapping_sub w.global_work_count 1 }

-- `work_count` of the scheduler, in a build with debug assertions.
unfoldable pub global_work_count_get : World → ℕ
global_work_count_get w = w.global_work_count

-- `Coroutine::spawn_opts` and `spawn_opts_with_pool`.
unfoldable pub spawn_opts : Options → World → World
unfolding global_work_count_add
spawn_opts o w =
    global_work_count_add
      (record w { live = w.live ++ (record { stack = o.stack_size; name = o.name } ∷ []) })

-- `Scheduler::spawn`, `Builder::spawn`.
unfoldable pub spawn : World → World
unfolding spawn_opts
spawn w = spawn_opts (w.settings.default_spawn_options) w

unfoldable pub build_spawn : Builder → World → World
unfolding spawn_opts
build_spawn b w = spawn_opts b.opts w

-- The drop of one that stands between `xs` and `ys`.
unfoldable pub drop_coroutine : List Coroutine → List Coroutine → World → World
unfolding global_work_count_sub
drop_coroutine xs ys w = global_work_count_sub (record w { live = xs ++ ys })
