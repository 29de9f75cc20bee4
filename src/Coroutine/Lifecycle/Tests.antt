-- ===== src/Coroutine/Lifecycle/Tests.antt =====
-- A coroutine that is dropped while it is parked.
use coio_rs.Base.{◌≡◌, refl, true, false, none, some, [], ◌∷◌}
use coio_rs.Coroutine.Lifecycle.{
  coroutine_entry, take_context, yield_with, resume, finish, coroutine_exit, drop_handle, drop_end,
  create_coroutine, act, may, dropping, owner, Life, Action, resumes, parks, finishes, drops, ends,
  Reach, begin, later,
}
use coio_rs.Coroutine.Lifecycle.Alive.{Lives, Reach-Lives}

-- It runs on the stack 8, parks, is unwound, and its stack goes to the pool.
abbrev gone : Life
gone = record {
  coro = record { context = none; state = dropping; stack = none };
  runs = owner;
  is_dropped = true;
  is_alive = false;
  work_count = 2;
  given_back = 8 ∷ [];
}

gone-Reach : Reach 8 2 gone
unfolding create_coroutine coroutine_entry act take_context yield_with resume finish coroutine_exit
    drop_handle drop_end
gone-Reach =
    let is_parked = later parks (later resumes begin refl refl) refl refl in
    let unwound = later finishes (later (drops true) is_parked refl refl) refl refl in
    later (ends true) unwound refl refl

Reach-Lives_example :
    Lives 8 2 gone × ((a : Action) → may a gone ≡ true → (m : Life) × (act a gone ≡ some m))
Reach-Lives_example = Reach-Lives 8 2 gone gone-Reach
