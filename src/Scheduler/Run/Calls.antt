-- ===== src/Scheduler/Run/Calls.antt =====
-- The steps of the caller of `Scheduler::run` of src/scheduler.rs keep what holds between them.
use coio_rs.Base.{
  ℕ, zero, suc, List, [], ◌∷◌, ap₂, ◌&&◌, ◌+◌, ◌≡◌, inl, inr, refl, sym, ap, ◌∙◌, subst, false,
  none, some, arith, ltb, length, get_elem?, get_elem?-lt, Bool-cases, ℕ_discrete,
}
use mathlib.Core.Option.{some-injective, none-ne-some}
use coio_rs.Scheduler.Run.{
  spawning, at_start, looping, sending, stopping, locking, notifying, joining, returned, ended,
  Place, Machine, World, shut, woken, wake, all_of, shut_down, notify_all, caller_started, calls,
  spawn_machine, send_to, stop,
}
use coio_rs.Base.{Option-cases}
use coio_rs.Scheduler.Run.Phases.{
  Sized, is_pushing, left_loop, mailed, joined, left_shutdown, MachineInv, Inv,
}
use coio_rs.Scheduler.Run.Threads.{calls-MachineInv, none_past, calls-Inv, spawned-Inv, sent-Inv}

length-wake : (ms : List Machine) → length (wake ms) ≡ length ms
unfolding wake
length-wake [] = refl
length-wake (m ∷ ms) = ap suc (length-wake ms)

woken-shut_down : (p : Place) → shut_down (woken p) ≡ shut_down p
unfolding woken shut_down
woken-shut_down p = ground arith

woken-left_shutdown : (p : Place) → left_shutdown (woken p) ≡ left_shutdown p
unfolding woken
woken-left_shutdown p = ground arith

all_of-wake : (ms : List Machine) → all_of shut_down (wake ms) ≡ all_of shut_down ms
unfolding all_of wake
all_of-wake [] = refl
all_of-wake (m ∷ ms) = ap₂ (λ x y. x && y) (woken-shut_down m.place) (all_of-wake ms)

-- Who is woken, and stays where it is in the list.
pub get_elem?-wake :
    (ms : List Machine) (i : ℕ) (n : Machine)
    → get_elem? (wake ms) i ≡ some n
    → (m : Machine) × (get_elem? ms i ≡ some m)
      × (record { place = woken m.place; mail = m.mail } ≡ n)
unfolding wake
get_elem?-wake [] i n e = absurd (none-ne-some _ e)
get_elem?-wake (m ∷ ms) zero n e = (m, refl, some-injective _ _ e)
get_elem?-wake (m ∷ ms) (suc i) n e = get_elem?-wake ms i n e

module _ {A : Type 0} (workers : ℕ) (outcome : A) where
  pub spawns-Inv :
      (w : World A) (k : ℕ)
      → w.caller ≡ spawning k
      → Inv workers outcome w
      → Inv workers outcome (spawn_machine workers k w)
  unfolding spawn_machine caller_started
  spawns-Inv w k e v =
      let (len, le) = subst (λ c. Sized workers c (length w.machines)) e v.size in
      elim (Bool-cases (ltb k workers)) [
        | inl lt ↦ rw lt (spawned-Inv workers outcome w k e (ground (arith, lt)) v)
        | inr ge ↦ rw ge (
            calls-Inv workers outcome w at_start v (ground (arith, len, le, ge)) (ground (arith, e))
              refl (λ l. absurd (ground (arith, l)))
              λ i m g.
                calls-MachineInv w.caller at_start w.machines i m (ground (arith, e)) (λ t. refl)
                  (λ j. absurd (ground (arith, j))) (v.each i m g))
      ]

  pub sends-Inv :
      (w : World A) (k : ℕ)
      → w.caller ≡ sending k
      → Inv workers outcome w
      → Inv workers outcome (send_to k w)
  unfolding send_to caller_started
  sends-Inv w k e v = elim (Option-cases (get_elem? w.machines k)) [
    | inl none_left ↦
        rw (send_to, none_left)
          (calls-Inv workers outcome w stopping v
            (subst (λ c. Sized workers c (length w.machines)) e v.size) (ground (arith, e)) refl
            (λ l. v.left (ground (arith, e)))
            λ i m g.
              let below = get_elem?-lt w.machines i m g in
              let past = none_past w.machines k none_left in
              calls-MachineInv w.caller stopping w.machines i m
                (ap (λ c. mailed c i) e ∙ ground (arith, below, past)) (λ t. refl)
                (λ j. absurd (ground (arith, j))) (v.each i m g))
    | inr (m, g) ↦ rw (send_to, g) (sent-Inv workers outcome w k m e g v)
  ]

  pub joins-Inv :
      (w : World A) (k : ℕ) (m : Machine)
      → w.caller ≡ joining k
      → get_elem? w.machines k ≡ some m
      → m.place ≡ ended
      → Inv workers outcome w
      → Inv workers outcome (calls w (joining (k + 1)))
  unfolding caller_started
  joins-Inv w k m e g end v =
      calls-Inv workers outcome w (joining (k + 1)) v
        (subst (λ c. Sized workers c (length w.machines)) e v.size) (ap is_pushing e) refl
        (λ l. v.left (ap left_loop e))
        λ i n f.
          calls-MachineInv w.caller (joining (k + 1)) w.machines i n (ap (λ c. mailed c i) e)
            (λ t. refl)
            (λ j. elim (ℕ_discrete i k) [
              | yes same ↦
                  let is_m : m ≡ n =
                    some-injective _ _ (sym g ∙ ap (get_elem? w.machines) (sym same) ∙ f) in
                  ap (λ x. x.place) (sym is_m) ∙ end
              | no other ↦ (v.each i n f).done (ap (λ c. joined c i) e ∙ ground (arith, j, other))
            ])
            (v.each i n f)

  pub returns-Inv :
      (w : World A) (k : ℕ)
      → w.caller ≡ joining k
      → get_elem? w.machines k ≡ none
      → Inv workers outcome w
      → Inv workers outcome (calls w returned)
  unfolding caller_started
  returns-Inv w k e none_left v =
      calls-Inv workers outcome w returned v
        (subst (λ c. Sized workers c (length w.machines)) e v.size) (ap is_pushing e) refl
        (λ l. v.left (ap left_loop e))
        λ i n f.
          let below = get_elem?-lt w.machines i n f in
          let past = none_past w.machines k none_left in
          calls-MachineInv w.caller returned w.machines i n (ap (λ c. mailed c i) e) (λ t. refl)
            (λ j. (v.each i n f).done (ap (λ c. joined c i) e ∙ ground (arith, below, past)))
            (v.each i n f)

  pub shuts-Inv :
      (w : World A) → w.caller ≡ stopping → Inv workers outcome w → Inv workers outcome (shut w)
  unfolding shut caller_started
  shuts-Inv w e v = record {
    size = subst (λ c. Sized workers c (length w.machines)) e v.size;
    born = v.born ∙ ap is_pushing e;
    stores = v.stores;
    sent = v.sent;
    running = v.running;
    left = λ l. v.left (ap left_loop e);
    each = λ i n f.
        calls-MachineInv w.caller locking w.machines i n (ap (λ c. mailed c i) e) (λ t. refl)
          (λ j. absurd (ground (arith, j))) (v.each i n f);
  }

  pub stops-Inv :
      (w : World A) → w.caller ≡ locking → Inv workers outcome w → Inv workers outcome (stop w)
  unfolding stop caller_started
  stops-Inv w e v = record {
    size = subst (λ c. Sized workers c (length w.machines)) e v.size;
    born = v.born ∙ ap is_pushing e;
    stores = v.stores;
    sent = v.sent;
    running = v.running;
    left = λ l. v.left (ap left_loop e);
    each = λ i n f.
        calls-MachineInv w.caller notifying w.machines i n (ap (λ c. mailed c i) e) (λ t. refl)
          (λ j. absurd (ground (arith, j))) (v.each i n f);
  }

  pub notifies-Inv :
      (w : World A)
      → w.caller ≡ notifying
      → Inv workers outcome w
      → Inv workers outcome (notify_all w)
  unfolding notify_all caller_started
  notifies-Inv w e v = record {
    size = length-wake w.machines ∙ subst (λ c. Sized workers c (length w.machines)) e v.size;
    born = v.born ∙ ap is_pushing e;
    stores = v.stores;
    sent = v.sent;
    running = v.running;
    left = λ l. v.left (ap left_loop e);
    each = λ i n f.
        let (m, g, is_n) = get_elem?-wake w.machines i n f in
        let u = v.each i m g in
        subst (MachineInv (joining 0) (wake w.machines) i) is_n (record {
          mails = u.mails ∙ ap (λ c. mailed c i) e;
          in_turn = λ t. refl;
          took = λ t. u.took (sym (woken-shut_down m.place) ∙ t);
          passed = λ t. all_of-wake w.machines ∙ u.passed (sym (woken-left_shutdown m.place) ∙ t);
          done = λ j. absurd (ground (arith, j));
        });
  }

  -- The caller comes to its loop, or leaves it.
  pub starts-Inv :
      (w : World A)
      → w.caller ≡ at_start
      → Inv workers outcome w
      → Inv workers outcome (calls w looping)
  unfolding caller_started
  starts-Inv w e v =
      calls-Inv workers outcome w looping v
        (subst (λ c. Sized workers c (length w.machines)) e v.size) (ap is_pushing e) refl
        (λ l. absurd (ground (arith, l)))
        λ i n f.
          calls-MachineInv w.caller looping w.machines i n (ap (λ c. mailed c i) e) (λ t. refl)
            (λ j. absurd (ground (arith, j))) (v.each i n f)

  pub leaves-Inv :
      (w : World A)
      → w.caller ≡ looping
      → w.is_running ≡ false
      → Inv workers outcome w
      → Inv workers outcome (calls w (sending 0))
  unfolding caller_started
  leaves-Inv w e off v =
      calls-Inv workers outcome w (sending 0) v
        (subst (λ c. Sized workers c (length w.machines)) e v.size) (ap is_pushing e) refl
        (λ l. off)
        λ i n f.
          calls-MachineInv w.caller (sending 0) w.machines i n
            (ap (λ c. mailed c i) e ∙ ground arith) (λ t. refl) (λ j. absurd (ground (arith, j)))
            (v.each i n f)
