-- ===== src/ThPoolBack/Tasks/Thread.antt =====
-- The steps of the pool threads of thread/ThPoolBack.cpp lose no task.
use domino_library.Prelude.{
  ℕ, ◌≡◌, refl, sym, ◌∙◌, ap, inl, inr, subst, Bool, true, false, not, ◌||◌, is_empty, List, [],
  ◌∷◌, Option, none, some, some-injective, if◌then◌else◌, ◌==◌, get_elem?, set, arith, if-eq,
  >>=-eq-some,
}
use mathlib.Core.Path.{fun_ext}
use domino_library.ThreadBack.{ThreadBack, mt_count}
use domino_library.ThreadBack.Found.{count, is_ready}
use domino_library.ThPoolBack.{
  Task, Shared, Phase, woken, testing, sleepy, asleep, chosen, running, ran, counted, ended,
  ThPoolBack, ready_shared, run_task, take_task, phase_step, mt_step,
}
use domino_library.ThPoolBack.Inv.{bit, count-set, count-pos}
use domino_library.ThPoolBack.Tasks.{
  named, unready, ready_shared-Shares, task_named, at_task, is_ran, held, misfit, foreign, is_bad,
  Tasks,
}

module _ {ℓ κ υ} {E : Type ℓ} {B : Type κ} {R : Type υ} (run : E → Option R)
    (fits : B → Option R → Bool) where
  -- Threads and a queue that hold as many tasks
  pub same-Tasks :
      (back : ThreadBack (Shared B) R) (queue queue' : List (Task E)) (xs ys : List (Phase E))
      (n : ℕ)
      → ((q : Task E → Bool) → held q queue' ys ≡ held q queue xs)
      → count is_ran ys ≡ count is_ran xs
      → Tasks run fits back queue xs n
      → Tasks run fits back queue' ys n
  same-Tasks back queue queue' xs ys n holds rans v = record {
    pending = λ x. v.pending x ∙ sym (holds (task_named x));
    unique = v.unique;
    fresh = v.fresh;
    done = omega (arith, rans, v.done);
    own = holds (is_bad run fits back.futs) ∙ v.own;
    fit = v.fit;
  }

  -- A thread goes on at no task.
  pub set-Tasks :
      (back : ThreadBack (Shared B) R) (queue : List (Task E)) (xs : List (Phase E)) (n i : ℕ)
      (a b : Phase E)
      → get_elem? xs i ≡ some a
      → ((q : Task E → Bool) → at_task q a ≡ at_task q b)
      → is_ran a ≡ is_ran b
      → Tasks run fits back queue xs n
      → Tasks run fits back queue (set xs i b) n
  unfolding held
  set-Tasks back queue xs n i a b at no_task no_ran v =
      same-Tasks back queue queue xs (set xs i b) n
        (λ q. omega (arith, count-set (at_task q) xs i a b at, ap bit (no_task q)))
        (omega (arith, count-set is_ran xs i a b at, ap bit no_ran)) v

  take-Tasks :
      (p : ThPoolBack E B R) (i : ℕ) (task : Task E) (queue : List (Task E))
      → p.queue ≡ task ∷ queue
      → get_elem? p.threads i ≡ some chosen
      → Tasks run fits p.back p.queue p.threads p.next_id
      → Tasks run fits p.back queue (set p.threads i (running task)) p.next_id
  unfolding held at_task is_ran count
  take-Tasks p i task queue front at v =
      same-Tasks p.back p.queue queue p.threads (set p.threads i (running task)) p.next_id
        (λ q.
          ground
            (arith, ap (count q) front, count-set (at_task q) p.threads i chosen (running task) at))
        (omega (arith, count-set is_ran p.threads i chosen (running task) at)) v

  -- `task()`: its own future becomes ready, with what the entry function gives.
  run-Tasks :
      (p : ThPoolBack E B R) (i : ℕ) (task : Task E)
      → get_elem? p.threads i ≡ some (running task)
      → Tasks run fits p.back p.queue p.threads p.next_id
      → Tasks run fits
          (record p.back { futs = ready_shared task.id (run task.entry) p.back.futs })
          p.queue
          (set p.threads i ran)
          p.next_id
  unfolding held at_task is_ran task_named unready named misfit is_bad foreign is_ready
  run-Tasks p i task at v =
      let x = task.id in
      let ret = run task.entry in
      let futs' = ready_shared x ret p.back.futs in
      let at_it = count-pos (at_task (task_named x)) p.threads i (running task) at (ground arith) in
      let s =
        ready_shared-Shares x ret p.back.futs (v.unique x) (omega (arith, v.pending x, at_it)) in
      let bad = is_bad run fits p.back.futs in
      let same_bad : (u : Task E) → is_bad run fits futs' u ≡ bad u = λ u.
        let e : count (foreign run fits u) futs' ≡ count (foreign run fits u) p.back.futs =
          omega (arith, s.changed (foreign run fits u)) in
        ap (λ (k : ℕ). not (k == 0)) e in
      let good : bad task ≡ false =
        ground (arith, v.own, count-set (at_task bad) p.threads i (running task) ran at) in
      let fits_own : fits s.fut.back_fn.fn ret ≡ true =
        ground (arith, good, s.same, s.within (foreign run fits task)) in
      record {
        pending = λ y. ground (
          arith,
          v.pending y,
          s.changed (unready y),
          s.same,
          s.waits,
          count-set (at_task (task_named y)) p.threads i (running task) ran at,
        );
        unique = λ y. ground (arith, s.changed (named y), v.unique y);
        fresh = λ y h. ground (arith, s.changed (named y), v.fresh y h);
        done = ground (
          arith,
          v.done,
          s.changed is_ready,
          s.waits,
          count-set is_ran p.threads i (running task) ran at,
        );
        own =
            rw (fun_ext same_bad)
              (omega (arith, v.own, count-set (at_task bad) p.threads i (running task) ran at));
        fit = ground (arith, v.fit, s.changed (misfit fits), s.waits, fits_own);
      }

  ran-Tasks :
      (p : ThPoolBack E B R) (i : ℕ)
      → get_elem? p.threads i ≡ some ran
      → Tasks run fits p.back p.queue p.threads p.next_id
      → Tasks run fits (mt_count p.back) p.queue (set p.threads i counted) p.next_id
  unfolding held at_task is_ran mt_count
  ran-Tasks p i at v = record {
    pending = λ x.
        omega (arith, v.pending x, count-set (at_task (task_named x)) p.threads i ran counted at);
    unique = v.unique;
    fresh = v.fresh;
    done = omega (arith, v.done, count-set is_ran p.threads i ran counted at);
    own = omega (
      arith,
      v.own,
      count-set (at_task (is_bad run fits p.back.futs)) p.threads i ran counted at,
    );
    fit = v.fit;
  }

  abbrev pub OfPool : ThPoolBack E B R → Type 0
  OfPool p = Tasks run fits p.back p.queue p.threads p.next_id

  take_task-Tasks :
      (p p' : ThPoolBack E B R) (i : ℕ) (queue : List (Task E))
      → p.queue ≡ queue
      → get_elem? p.threads i ≡ some chosen
      → take_task p i queue ≡ some p'
      → OfPool p
      → OfPool p'
  unfolding take_task
  take_task-Tasks p p' i [] front at e v = cc
  take_task-Tasks p p' i (task ∷ queue) front at e v =
      subst OfPool (some-injective _ _ e) (take-Tasks p i task queue front at v)

  -- A thread that goes on at no task
  idle-Tasks :
      (p : ThPoolBack E B R) (i : ℕ) (a b : Phase E)
      → get_elem? p.threads i ≡ some a
      → ((q : Task E → Bool) → at_task q a ≡ at_task q b)
      → is_ran a ≡ is_ran b
      → OfPool p
      → Tasks run fits p.back p.queue (set p.threads i b) p.next_id
  idle-Tasks p i a b at no_task no_ran v =
      set-Tasks p.back p.queue p.threads p.next_id i a b at no_task no_ran v

  phase_step-Tasks :
      (p p' : ThPoolBack E B R) (i : ℕ) (phase : Phase E)
      → get_elem? p.threads i ≡ some phase
      → phase_step run p i phase ≡ some p'
      → OfPool p
      → OfPool p'
  unfolding phase_step run_task at_task is_ran
  phase_step-Tasks p p' i woken at e v = elim (if-eq p.locked none (some _) e) [
    | inl (locked, stuck) ↦ cc
    | inr (free, go) ↦
        subst OfPool (some-injective _ _ go) (idle-Tasks p i woken testing at (λ q. refl) refl v)
  ]
  phase_step-Tasks p p' i testing at e v =
      let b = if p.stop || not (is_empty p.queue) then chosen else sleepy in
      subst OfPool (some-injective _ _ e)
        (idle-Tasks p i testing b at (λ q. ground arith) (ground arith) v)
  phase_step-Tasks p p' i sleepy at e v =
      subst OfPool (some-injective _ _ e) (idle-Tasks p i sleepy asleep at (λ q. refl) refl v)
  phase_step-Tasks p p' i asleep at e v = cc
  phase_step-Tasks p p' i chosen at e v = elim (if-eq p.stop (some _) (take_task p i p.queue) e) [
    | inl (stopped, go) ↦
        subst OfPool (some-injective _ _ go) (idle-Tasks p i chosen ended at (λ q. refl) refl v)
    | inr (goes_on, go) ↦ take_task-Tasks p p' i p.queue refl at go v
  ]
  phase_step-Tasks p p' i (running task) at e v =
      subst OfPool (some-injective _ _ e) (run-Tasks p i task at v)
  phase_step-Tasks p p' i ran at e v = subst OfPool (some-injective _ _ e) (ran-Tasks p i at v)
  phase_step-Tasks p p' i counted at e v =
      subst OfPool (some-injective _ _ e) (idle-Tasks p i counted woken at (λ q. refl) refl v)
  phase_step-Tasks p p' i ended at e v = cc

  pub mt_step-Tasks :
      (p p' : ThPoolBack E B R) (i : ℕ) → mt_step run p i ≡ some p' → OfPool p → OfPool p'
  unfolding mt_step
  mt_step-Tasks p p' i e v =
      let (phase, at, step) = >>=-eq-some (get_elem? p.threads i) (phase_step run p i) e in
      phase_step-Tasks p p' i phase at step v
