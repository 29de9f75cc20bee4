-- ===== src/Promise/Tests.antt =====
-- A promise, one on its success, one on the failure of that, and one that goes on after a panic.
use coio_rs.Base.{Option, ℕ, ◌+◌, ◌≡◌, refl, arith, none, some, List, [], ◌∷◌}
use coio_rs.Promise.{
  Result, ok, err, Caught, Coroutine, spawned, spawn, then_either, success, fail, chain, finally,
  join, sync, finally_sync, body_result, resume, Reach, begin, spawns, resumes,
}
use coio_rs.Promise.Direct.{value}
use coio_rs.Promise.Progress.{Gives, Reach-Gives}
use coio_rs.Promise.Compose.{
  bind, on_ok, on_err, on_either, as_ok, result_at, value_next, combinators-compose,
}

abbrev refuse : ℕ → Caught ℕ ℕ
refuse n = some (err (n + 1))

abbrev recover : ℕ → Caught ℕ ℕ
recover n = some (ok (n + 10))

abbrev four : List (Coroutine ℕ ℕ)
four =
    spawned (spawn (some (ok 5)))
    ∷ spawned (success 0 refuse)
    ∷ spawned (fail 1 recover)
    ∷ spawned (then_either 2 (λ a. none) recover)
    ∷ []

four-Reach : Reach four
unfolding spawn success fail then_either
four-Reach =
    spawns (then_either 2 (λ a. none) recover)
      (spawns (fail 1 recover)
        (spawns (success 0 refuse) (spawns (spawn (some (ok 5))) begin tt) (omega arith))
        (omega arith))
      (omega arith)

-- The last two wait when they come first.
abbrev some_resumed : List (Coroutine ℕ ℕ)
some_resumed = resume (resume (resume four 2) 0) 1

some_resumed-Reach : Reach some_resumed
some_resumed-Reach = resumes 1 (resumes 0 (resumes 2 four-Reach))

runs_on : (join some_resumed 1 ≡ some (some (err 6))) × (join some_resumed 2 ≡ none)
unfolding resume body_result join spawn success fail then_either
runs_on = (refl, refl)

syncs : finally_sync some_resumed 0 (λ r. some 3) ≡ some (some 3)
unfolding resume body_result join spawn success fail then_either sync finally_sync
syncs = refl

abbrev one : List (Caught ℕ ℕ)
one = some (ok 1) ∷ []

ends : value one (finally 0 (λ r. some 2)) ≡ some (ok 2)
unfolding value finally
ends = refl

Reach-Gives_example : Gives some_resumed 3
unfolding resume body_result join spawn success fail then_either
Reach-Gives_example = Reach-Gives some_resumed 3 some_resumed-Reach

abbrev two_of : Result ℕ ℕ → Option ℕ
two_of r = some 2

combinators-compose_example :
    (value_next one (chain 0 some) (λ q. chain q (on_ok recover))
      ≡ bind (bind (result_at one 0) some) (on_ok recover))
    × (value_next one (success 0 refuse) (λ q. success q recover)
        ≡ bind (bind (result_at one 0) (on_ok refuse)) (on_ok recover))
    × (value_next one (success 0 refuse) (λ q. fail q recover)
        ≡ bind (bind (result_at one 0) (on_ok refuse)) (on_err recover))
    × (value_next one (then_either 0 refuse recover) (λ q. finally q two_of)
        ≡ bind (bind (result_at one 0) (on_either refuse recover)) (as_ok two_of))
combinators-compose_example =
    combinators-compose one 0 refuse recover recover some (on_ok recover) two_of
