-- ===== src/Options/Tests.antt =====
-- Two coroutines, of which one is dropped, and settings that are set twice.
use coio_rs.Base.{◌≡◌, refl, arith, none, some, List, [], ◌∷◌, length, if◌then◌else◌}
use coio_rs.Options.{
  Coroutine, World, new, builder, build_stack_size, build_spawn, spawn_opts, spawn, settings,
  main_options, with_workers, drop_coroutine, global_work_count_get, global_work_count_add,
  global_work_count_sub, with_name, default_stack, main_name,
}
use coio_rs.Options.WorkCount.{Reach, begin, later, spawns, builds, drops, Reach-count}
use coio_rs.Options.Last.{
  Setting, of_stack_size, of_name, SchedulerSetting, of_workers, of_default_stack_size, set, build,
  sizes, names, last, set_up, workers, all_positive, set_up_lasts, build-set,
}

abbrev empty : World
unfolding settings new
empty = record { settings = settings; live = []; global_work_count = 0 }

abbrev two : World
unfolding spawn spawn_opts build_spawn build_stack_size builder new global_work_count_add
two = build_spawn (build_stack_size 4096 builder) (spawn empty)

abbrev small : Coroutine
small = record { stack = 4096; name = none }

abbrev one : World
one = drop_coroutine [] (small ∷ []) two

abbrev first : Coroutine
first = record { stack = 131072; name = none }

one-Reach : Reach settings one
unfolding spawn spawn_opts build_spawn build_stack_size builder new global_work_count_add settings
one-Reach =
    later (later (later begin spawns) (builds (build_stack_size 4096 builder)))
      (drops [] (small ∷ []) first refl)

main_named : main_options settings ≡ record { stack_size = 131072; name = some main_name }
unfolding main_options settings new with_name
main_named = refl

no_workers : with_workers 0 settings ≡ none
unfolding with_workers
no_workers = refl

one_counted : global_work_count_get one ≡ length (one.live)
unfolding drop_coroutine global_work_count_sub
one_counted = Reach-count one one-Reach (omega arith)

abbrev calls : List Setting
calls = of_stack_size 1 ∷ of_name (65 ∷ []) ∷ of_stack_size 2 ∷ []

abbrev scheduler_calls : List SchedulerSetting
scheduler_calls = of_workers 2 ∷ of_default_stack_size 9 ∷ of_workers 4 ∷ []

build-set_example :
    ((build calls builder).opts ≡ set calls new)
    × (set calls new
        ≡ record { stack_size = last default_stack (sizes calls); name = last none (names calls) })
    × (set_up scheduler_calls settings ≡ (
        if all_positive (workers scheduler_calls)
        then some (set_up_lasts scheduler_calls settings)
        else none))
build-set_example = build-set calls scheduler_calls
