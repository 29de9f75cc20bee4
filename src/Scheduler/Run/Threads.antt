-- ===== src/Scheduler/Run/Threads.antt =====
-- What a step of `Scheduler::run` of src/scheduler.rs does to one processor.
use coio_rs.Base.{
  ℕ, ◌+◌, ◌<◌, ◌≤◌, ◌≡◌, ◌≢◌, inl, inr, refl, sym, ap, ◌∙◌, subst, true, false, none, some, List,
  [], ◌∷◌, ◌++◌, arith, length, length-append, get_elem?, set_at, get_elem?-set_at_same,
  get_elem?-set_at_other, get_elem?-snoc, length-set_at, ℕ_discrete,
}
use mathlib.Core.Option.{some-injective}
use coio_rs.Scheduler.Run.{
  Caller, spawning, sending, Place, spawned, ended, Machine, World, shut_down, all_of,
  caller_started, calls, moves,
}
use coio_rs.Base.{get_elem?_below, dec_lt}
use coio_rs.Scheduler.Run.Phases.{
  Sized, is_pushing, left_loop, mailed, joined, left_start, left_shutdown, MachineInv, Inv,
  all_of-get, all_of-set_at,
}

-- The caller goes on, and the processors stay as they are.
pub calls-MachineInv :
    (c c' : Caller) (ms : List Machine) (i : ℕ) (m : Machine)
    → mailed c i ≡ mailed c' i
    → (caller_started c ≡ true → caller_started c' ≡ true)
    → (joined c' i ≡ true → m.place ≡ ended)
    → MachineInv c ms i m
    → MachineInv c' ms i m
calls-MachineInv c c' ms i m same on d v = record {
  mails = v.mails ∙ same;
  in_turn = λ e. on (v.in_turn e);
  took = v.took;
  passed = v.passed;
  done = d;
}

pub left_shutdown-left_start : (p : Place) → left_shutdown p ≡ true → left_start p ≡ true
left_shutdown-left_start p e = ground arith

pub none_past : {X : Type 0} (xs : List X) (k : ℕ) → get_elem? xs k ≡ none → length xs ≤ k
none_past xs k e = elim (dec_lt k (length xs)) [
  | yes lt ↦ let (x, e') = get_elem?_below k xs lt in absurd (ground (arith, e, e'))
  | no ge ↦ omega arith
]

module _ {A : Type 0} (workers : ℕ) (outcome : A) where
  -- The caller goes on and nothing else changes.
  pub calls-Inv :
      (w : World A) (c : Caller)
      → Inv workers outcome w
      → Sized workers c (length w.machines)
      → is_pushing w.caller ≡ false
      → is_pushing c ≡ false
      → (left_loop c ≡ true → w.is_running ≡ false)
      → ((i : ℕ) (m : Machine) → get_elem? w.machines i ≡ some m → MachineInv c w.machines i m)
      → Inv workers outcome (calls w c)
  calls-Inv w c v size old new left each = record {
    size = size;
    born = v.born ∙ old ∙ sym new;
    stores = v.stores;
    sent = v.sent;
    running = v.running;
    left = left;
    each = each;
  }

  -- The thread of a processor goes on.
  pub moves-Inv :
      (w : World A) (i : ℕ) (m : Machine) (p : Place)
      → get_elem? w.machines i ≡ some m
      → m.place ≢ ended
      → (left_start p ≡ true → caller_started w.caller ≡ true)
      → (shut_down p ≡ true → m.mail ≡ true)
      → (shut_down m.place ≡ true → shut_down p ≡ true)
      → (left_shutdown p ≡ true → all_of shut_down w.machines ≡ true)
      → Inv workers outcome w
      → Inv workers outcome (moves w i p m.mail)
  moves-Inv w i m p g not_done start took on pass v =
      let size : Sized workers w.caller (length ms) =
        subst (Sized workers w.caller) (sym (length-set_at i m' w.machines)) v.size in
      record {
        size = size;
        born = v.born;
        stores = v.stores;
        sent = v.sent;
        running = v.running;
        left = v.left;
        each = λ j n f. elim (ℕ_discrete j i) [
          | yes same ↦
              let is_m' : m' ≡ n = some-injective _ _ (
                sym (get_elem?-set_at_same i m' m w.machines g)
                ∙ ap (get_elem? ms) (sym same)
                ∙ f) in
              subst (MachineInv w.caller ms j) is_m'
                (subst (λ k. MachineInv w.caller ms k m') (sym same) moved)
          | no other ↦
              let u = v.each j n (sym (get_elem?-set_at_other i j m' w.machines other) ∙ f) in
              record {
                mails = u.mails;
                in_turn = u.in_turn;
                took = u.took;
                passed = λ e. all_kept (u.passed e);
                done = u.done;
              }
        ];
      }
    where
      m' : Machine
      m' = record { place = p; mail = m.mail }

      ms : List Machine
      ms = set_at i m' w.machines

      all_kept : all_of shut_down w.machines ≡ true → all_of shut_down ms ≡ true
      all_kept e =
          all_of-set_at shut_down w.machines i m' e (on (all_of-get shut_down w.machines i m e g))

      moved : MachineInv w.caller ms i m'
      moved =
          let here = v.each i m g in
          record {
            mails = here.mails;
            in_turn = start;
            took = took;
            passed = λ e. all_kept (pass e);
            done = λ e. absurd (not_done (here.done e));
          }

  pub spawned-Inv :
      (w : World A) (k : ℕ)
      → w.caller ≡ spawning k
      → k < workers
      → Inv workers outcome w
      → Inv workers outcome (record w {
        machines = w.machines ++ (record { place = spawned; mail = false } ∷ []);
        caller = spawning (k + 1);
      })
  unfolding caller_started shut_down
  spawned-Inv w k e lt v =
      let size = subst (λ c. Sized workers c (length w.machines)) e v.size in
      let m : Machine = record { place = spawned; mail = false } in
      record {
        size = (omega (arith, length-append w.machines (m ∷ []), size.0), omega (arith, lt));
        born = v.born ∙ ap is_pushing e;
        stores = v.stores;
        sent = v.sent;
        running = v.running;
        left = λ l. absurd (ground (arith, l));
        each = λ i n g. elim (get_elem?-snoc w.machines m n i g) [
          | inl g' ↦
              let u = v.each i n g' in
              record {
                mails = u.mails ∙ ap (λ c. mailed c i) e;
                in_turn = λ t. absurd (ground (arith, u.in_turn t, e));
                took = u.took;
                passed =
                    λ t. absurd (ground (arith, u.in_turn (left_shutdown-left_start n.place t), e));
                done = λ t. absurd (ground (arith, t));
              }
          | inr (_, is_m) ↦
              subst (MachineInv (spawning (k + 1)) (w.machines ++ (m ∷ [])) i) is_m (record {
                mails = refl;
                in_turn = λ t. absurd (ground (arith, t));
                took = λ t. absurd (ground (arith, t));
                passed = λ t. absurd (ground (arith, t));
                done = λ t. absurd (ground (arith, t));
              })
        ];
      }

  pub sent-Inv :
      (w : World A) (k : ℕ) (m : Machine)
      → w.caller ≡ sending k
      → get_elem? w.machines k ≡ some m
      → Inv workers outcome w
      → Inv workers outcome (record w {
        machines = set_at k (record { place = m.place; mail = true }) (w.machines);
        caller = sending (k + 1);
      })
  unfolding caller_started
  sent-Inv w k m e g v = record {
    size =
        length-set_at k m' w.machines ∙ subst (λ c. Sized workers c (length w.machines)) e v.size;
    born = v.born ∙ ap is_pushing e;
    stores = v.stores;
    sent = v.sent;
    running = v.running;
    left = λ l. v.left (ap left_loop e);
    each = λ j n f. elim (ℕ_discrete j k) [
      | yes same ↦
          let is_m' : m' ≡ n =
            some-injective _ _ (
              sym (get_elem?-set_at_same k m' m w.machines g) ∙ ap (get_elem? ms) (sym same) ∙ f) in
          subst (MachineInv (sending (k + 1)) ms j) is_m'
            (subst (λ i. MachineInv (sending (k + 1)) ms i m') (sym same) mailed_now)
      | no other ↦
          let u = v.each j n (sym (get_elem?-set_at_other k j m' w.machines other) ∙ f) in
          let before : mailed w.caller j ≡ mailed (sending k) j = ap (λ c. mailed c j) e in
          record {
            mails = u.mails ∙ before ∙ ground (arith, other);
            in_turn = λ t. refl;
            took = u.took;
            passed = λ t. all_kept (u.passed t);
            done = λ t. absurd (ground (arith, t));
          }
    ];
  }
    where
      m' : Machine
      m' = record { place = m.place; mail = true }

      ms : List Machine
      ms = set_at k m' w.machines

      all_kept : all_of shut_down w.machines ≡ true → all_of shut_down ms ≡ true
      all_kept t =
          all_of-set_at shut_down w.machines k m' t (all_of-get shut_down w.machines k m t g)

      mailed_now : MachineInv (sending (k + 1)) ms k m'
      mailed_now =
          let here = v.each k m g in
          record {
            mails = ground arith;
            in_turn = λ t. refl;
            took = λ t. refl;
            passed = λ t. all_kept (here.passed t);
            done = λ t. absurd (ground (arith, t));
          }
