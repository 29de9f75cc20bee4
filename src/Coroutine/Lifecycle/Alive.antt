-- ===== src/Coroutine/Lifecycle/Alive.antt =====
-- What holds of a coroutine of src/coroutine.rs through its life.
use coio_rs.Base.{
  ℕ, ◌+◌, ◌-◌, ◌≡◌, ◌⊎◌, inl, inr, refl, sym, ap, ◌∙◌, subst, Bool, true, false, Option, none, some,
  [], ◌∷◌, if◌then◌else◌, arith, Bool-cases,
}
use mathlib.Core.Option.{some-injective}
use coio_rs.Coroutine.Lifecycle.{
  State, suspended, running, parked, finished, dropping, is_state_finished, Side, coroutine, owner,
  Stack, Coroutine, Life, take_context, coroutine_entry, create_coroutine, yield_with, resume,
  finish, coroutine_exit, drop_handle, drop_end, Action, resumes, suspends, parks, finishes, drops,
  ends, act, may, Reach, begin, later,
}

-- Where the context of the other side is: with the owner that of the coroutine, and the other way round;
-- but while the coroutine is between the unwinding and its end, the drop has it.
abbrev pub Waits : Life → Type 0
Waits l =
    ((l.runs ≡ owner) × (l.is_dropped ≡ false) × (l.coro.context ≡ some coroutine))
    ⊎ (((l.runs ≡ owner) × (l.is_dropped ≡ true) × (is_state_finished l.coro.state ≡ true))
        ⊎ ((l.runs ≡ coroutine) × (l.coro.context ≡ some owner)))

abbrev pub Lives : Stack → ℕ → Life → Type 0
Lives stack work_count l =
    ((l.is_alive ≡ true)
      × (l.coro.stack ≡ some stack)
      × (l.given_back ≡ [])
      × (l.work_count ≡ work_count + 1)
      × Waits l)
    ⊎ ((l.is_alive ≡ false)
        × (l.coro.stack ≡ none)
        × (l.runs ≡ owner)
        × ((l.given_back ≡ []) ⊎ (l.given_back ≡ stack ∷ []))
        × (l.work_count ≡ work_count))

abbrev pub Succeeds : Stack → ℕ → Option Life → Type 0
Succeeds stack work_count out = (m : Life) × (out ≡ some m) × Lives stack work_count m

-- The switch, with the context that is there.
switched : State → Side → Life → Life
switched state ctx l = record l {
  coro = record (l.coro) { state = state; context = some l.runs };
  runs = ctx;
}

yield_with-switched :
    (state : State) (ctx : Side) (l : Life)
    → l.coro.context ≡ some ctx
    → yield_with state l ≡ some (switched state ctx l)
unfolding yield_with take_context switched
yield_with-switched state ctx l e = rw e refl

resume-Lives :
    (stack work_count : ℕ) (l : Life)
    → Lives stack work_count l
    → may resumes l ≡ true
    → Succeeds stack work_count (resume l)
unfolding resume switched
resume-Lives stack work_count l h e = (
  switched running coroutine l,
  yield_with-switched running coroutine l (ground arith),
  ground arith,
)

yield_with-Lives :
    (stack work_count : ℕ) (state : State) (l : Life)
    → Lives stack work_count l
    → may suspends l ≡ true
    → Succeeds stack work_count (yield_with state l)
unfolding switched
yield_with-Lives stack work_count state l h e =
    (switched state owner l, yield_with-switched state owner l (ground arith), ground arith)

finish-Lives :
    (stack work_count : ℕ) (l : Life)
    → Lives stack work_count l
    → may finishes l ≡ true
    → Succeeds stack work_count (finish l)
unfolding finish take_context
finish-Lives stack work_count l h e =
    let here : l.coro.context ≡ some owner = ground arith in
    let m : Life = record l {
      coro = record (l.coro) {
        state = finished;
        context = if l.is_dropped then none else some l.runs;
      };
      runs = owner;
    } in
    (m, rw here refl, ground arith)

-- The end of the structure, whoever has the context.
coroutine_exit-Lives :
    (stack work_count : ℕ) (has_processor : Bool) (l : Life) (left : Option Side) (c : Coroutine)
    → Lives stack work_count l
    → l.is_alive ≡ true
    → l.runs ≡ owner
    → c ≡ record (l.coro) { context = left }
    → Succeeds stack work_count (coroutine_exit has_processor (record l { coro = c }))
unfolding coroutine_exit
coroutine_exit-Lives stack work_count has_processor l left c h alive runs same =
    let there : c.stack ≡ some stack = ap (λ (c : Coroutine). c.stack) same ∙ ground arith in
    let m : Life = record l {
      coro = record c { state = dropping; stack = none };
      is_alive = false;
      work_count = l.work_count - 1;
      given_back = if has_processor then stack ∷ l.given_back else l.given_back;
    } in
    (m, rw there refl, ground arith)

drop_handle-Lives :
    (stack work_count : ℕ) (has_processor : Bool) (l : Life)
    → Lives stack work_count l
    → may (drops has_processor) l ≡ true
    → Succeeds stack work_count (drop_handle has_processor l)
unfolding drop_handle take_context
drop_handle-Lives stack work_count has_processor l h e =
    let here : l.coro.context ≡ some coroutine = ground arith in
    elim (Bool-cases (is_state_finished l.coro.state)) [
      | inl ended ↦
          rw (drop_handle, here, ended)
            (coroutine_exit-Lives stack work_count has_processor l none
              (record (l.coro) { context = none }) h (ground arith) (ground arith) refl)
      | inr not_ended ↦
          let m : Life = record l {
            coro = record (l.coro) { context = some l.runs };
            runs = coroutine;
            is_dropped = true;
          } in
          (m, rw (drop_handle, here, not_ended) refl, ground arith)
    ]

act-Lives :
    (stack work_count : ℕ) (a : Action) (l : Life)
    → Lives stack work_count l
    → may a l ≡ true
    → Succeeds stack work_count (act a l)
unfolding act drop_end
act-Lives stack work_count resumes l h e = resume-Lives stack work_count l h e
act-Lives stack work_count suspends l h e = yield_with-Lives stack work_count suspended l h e
act-Lives stack work_count parks l h e = yield_with-Lives stack work_count parked l h e
act-Lives stack work_count finishes l h e = finish-Lives stack work_count l h e
act-Lives stack work_count (drops p) l h e = drop_handle-Lives stack work_count p l h e
act-Lives stack work_count (ends p) l h e =
    coroutine_exit-Lives stack work_count p l l.coro.context l.coro h (ground arith) (ground arith)
      refl

-- From its creation on, whatever a coroutine and its owner do, if a finished one is not resumed and
-- one that unwinds does not yield: the next operation of either does not panic, take_context finds
-- the context of the other side, which runs next; while it lives the coroutine has its stack and
-- counts as work; and when it is dropped the stack is gone from it, went to the pool at most once,
-- and the work count is what it was.
pub Reach-Lives :
    (stack work_count : ℕ) (l : Life)
    → Reach stack work_count l
    → Lives stack work_count l × ((a : Action) → may a l ≡ true → (m : Life) × (act a l ≡ some m))
unfolding create_coroutine coroutine_entry
Reach-Lives stack work_count _ begin =
    let lives : Lives stack work_count (create_coroutine stack work_count) = ground arith in
    (
      lives,
      λ a e.
          let (m, f, h) =
            act-Lives stack work_count a (create_coroutine stack work_count) lives e in
          (m, f),
    )
Reach-Lives stack work_count l (later {l = k} a reach allowed e) =
    let before = Reach-Lives stack work_count k reach in
    let (m, f, h) = act-Lives stack work_count a k before.0 allowed in
    let lives = subst (Lives stack work_count) (some-injective m l (sym f ∙ e)) h in
    (lives, λ b may_b. let (n, g, h') = act-Lives stack work_count b l lives may_b in (n, g))
