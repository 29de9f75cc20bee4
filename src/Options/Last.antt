-- ===== src/Options/Last.antt =====
-- What is set last is what counts, with the builders of src/options.rs, src/lib.rs and
-- src/scheduler.rs.
use coio_rs.Base.{
  ℕ, zero, suc, ◌≡◌, refl, sym, ◌∙◌, Bool, true, false, ◌&&◌, Option, none, some, List, [], ◌∷◌,
  arith, ltb, if◌then◌else◌, ◌>>=◌,
}
use coio_rs.Options.{
  Name, Options, default_stack, new, with_stack_size, with_name, Builder, builder, build_stack_size,
  build_name, Settings, settings, with_workers, default_stack_size,
}

-- A call of a setter of `Options` or of `Builder`.
pub data Setting : Type 0 where
  of_stack_size : ℕ → Setting
  of_name : Name → Setting

abbrev pub set : List Setting → Options → Options
set [] o = o
set (of_stack_size n ∷ ss) o = set ss (with_stack_size n o)
set (of_name s ∷ ss) o = set ss (with_name s o)

abbrev pub build : List Setting → Builder → Builder
build [] b = b
build (of_stack_size n ∷ ss) b = build ss (build_stack_size n b)
build (of_name s ∷ ss) b = build ss (build_name s b)

abbrev pub sizes : List Setting → List ℕ
sizes [] = []
sizes (of_stack_size n ∷ ss) = n ∷ sizes ss
sizes (of_name s ∷ ss) = sizes ss

abbrev pub names : List Setting → List (Option Name)
names [] = []
names (of_stack_size n ∷ ss) = names ss
names (of_name s ∷ ss) = some s ∷ names ss

-- The last one of a list, or what there was before.
abbrev pub last {ℓ} : {A : Type ℓ} → A → List A → A
last a [] = a
last a (b ∷ bs) = last b bs

abbrev pub lasts : List Setting → Options → Options
lasts ss o = record { stack_size = last o.stack_size (sizes ss); name = last o.name (names ss) }

set-lasts : (ss : List Setting) (o : Options) → set ss o ≡ lasts ss o
unfolding with_stack_size with_name
set-lasts [] o = refl
set-lasts (of_stack_size n ∷ ss) o = set-lasts ss (with_stack_size n o)
set-lasts (of_name s ∷ ss) o = set-lasts ss (with_name s o)

build-lasts : (ss : List Setting) (b : Builder) → (build ss b).opts ≡ lasts ss b.opts
unfolding build_stack_size build_name
build-lasts [] b = refl
build-lasts (of_stack_size n ∷ ss) b = build-lasts ss (build_stack_size n b)
build-lasts (of_name s ∷ ss) b = build-lasts ss (build_name s b)

-- A call of a setter of `Scheduler`.
pub data SchedulerSetting : Type 0 where
  of_workers : ℕ → SchedulerSetting
  of_default_stack_size : ℕ → SchedulerSetting

abbrev pub set_up : List SchedulerSetting → Settings → Option Settings
set_up [] s = some s
set_up (of_workers n ∷ ss) s = with_workers n s >>= set_up ss
set_up (of_default_stack_size n ∷ ss) s = set_up ss (default_stack_size n s)

abbrev pub workers : List SchedulerSetting → List ℕ
workers [] = []
workers (of_workers n ∷ ss) = n ∷ workers ss
workers (of_default_stack_size n ∷ ss) = workers ss

abbrev pub default_sizes : List SchedulerSetting → List ℕ
default_sizes [] = []
default_sizes (of_workers n ∷ ss) = default_sizes ss
default_sizes (of_default_stack_size n ∷ ss) = n ∷ default_sizes ss

abbrev pub all_positive : List ℕ → Bool
all_positive [] = true
all_positive (n ∷ ns) = ltb 0 n && all_positive ns

abbrev pub set_up_lasts : List SchedulerSetting → Settings → Settings
set_up_lasts ss s = record {
  default_spawn_options = record {
    stack_size = last s.default_spawn_options.stack_size (default_sizes ss);
    name = s.default_spawn_options.name;
  };
  expected_worker_count = last s.expected_worker_count (workers ss);
  maximum_stack_memory_limit = s.maximum_stack_memory_limit;
}

set_up-lasts :
    (ss : List SchedulerSetting) (s : Settings)
    → set_up ss s ≡ (if all_positive (workers ss) then some (set_up_lasts ss s) else none)
unfolding with_workers default_stack_size with_stack_size
set_up-lasts [] s = refl
set_up-lasts (of_default_stack_size n ∷ ss) s = set_up-lasts ss (default_stack_size n s)
set_up-lasts (of_workers zero ∷ ss) s = refl
set_up-lasts (of_workers (suc n) ∷ ss) s =
    let small : ltb (suc n) 1 ≡ false = ground arith in
    let pos : ltb 0 (suc n) ≡ true = ground arith in
    rw (small, pos) (set_up-lasts ss (record s { expected_worker_count = suc n }))

-- Builders and setters in any order: the last of each counts, and a scheduler panics for a setting of no
-- workers.
pub build-set :
    (ss : List Setting) (us : List SchedulerSetting)
    → ((build ss builder).opts ≡ set ss new)
      × (set ss new
          ≡ record { stack_size = last default_stack (sizes ss); name = last none (names ss) })
      × (set_up us settings
          ≡ (if all_positive (workers us) then some (set_up_lasts us settings) else none))
unfolding builder new
build-set ss us =
    (build-lasts ss builder ∙ sym (set-lasts ss new), set-lasts ss new, set_up-lasts us settings)
