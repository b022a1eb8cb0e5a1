-- ===== src/ThPoolBack/Clean.antt =====
-- `clean_` of thread/ThPoolBack.cpp, and whether its threads end.
use domino_library.Prelude.{
  ℕ, ◌≡◌, ◌<◌, refl, sym, ◌∙◌, ap, inl, inr, subst, true, false, not, ◌||◌, List, [], ◌∷◌, Option,
  none, some, some-injective, if◌then◌else◌, is_empty, arith, if-eq, >>=-eq-some, get_elem?, set,
}
use domino_library.ThreadBack.{FutBackFn, hdl_done_fut}
use domino_library.ThreadBack.Found.{count, is_ready}
use domino_library.ThPoolBack.{
  Shared, Phase, woken, testing, sleepy, asleep, chosen, running, ran, counted, ended,
  to_notify_all, over, ThPoolBack, new_th_pool_back, run_task, take_task, phase_step, mt_step,
}
use domino_library.ThPoolBack.Calls.{
  is_asleep, is_ended, wake_all, all_ended, notify_all, pool_hdl_done_fut, join_all,
}
use domino_library.ThPoolBack.Run.{Steps, mt_steps, IsResting}
use domino_library.ThPoolBack.Inv.{bit, count-set, is_sleepy, is_active, is_clean, Inv}
use domino_library.ThPoolBack.Inv.Thread.{mt_step-Inv}
use domino_library.ThPoolBack.Inv.Wake.{count-wake_all}
use domino_library.ThPoolBack.Inv.Main.{notify_all-Inv}
use domino_library.ThPoolBack.Inv.Reach.{new_th_pool_back-Inv, Steps-Inv}
use domino_library.ThPoolBack.Tasks.Thread.{OfPool, mt_step-Tasks}
use domino_library.ThPoolBack.Tasks.Reach.{new_th_pool_back-Tasks, Steps-Tasks, notify_all-Tasks}
use domino_library.ThPoolBack.Rest.{resting_idle, idle-done, handles_ready}
use domino_library.ThPoolBack.Promises.{any_fits, all_fit}

module _ {ℓ} {E : Type ℓ} where
  none-asleep : (xs : List (Phase E)) → count is_asleep (wake_all xs) ≡ 0
  unfolding count wake_all is_asleep
  none-asleep [] = refl
  none-asleep (asleep ∷ xs) = omega (arith, none-asleep xs)
  none-asleep (_ ∷ xs) = omega (arith, none-asleep xs)

  all-ended :
      (xs : List (Phase E))
      → count is_active xs ≡ 0
      → count is_sleepy xs ≡ 0
      → count is_asleep xs ≡ 0
      → all_ended xs ≡ true
  unfolding count is_active is_sleepy is_asleep all_ended is_ended
  all-ended [] a s z = refl
  all-ended (ended ∷ xs) a s z =
      all-ended xs (omega (arith, a)) (omega (arith, s)) (omega (arith, z))
  all-ended (asleep ∷ xs) a s z = absurd (omega (arith, z))
  all-ended (sleepy ∷ xs) a s z = absurd (omega (arith, s))
  all-ended (woken ∷ xs) a s z = absurd (omega (arith, a))
  all-ended (testing ∷ xs) a s z = absurd (omega (arith, a))
  all-ended (chosen ∷ xs) a s z = absurd (omega (arith, a))
  all-ended (running task ∷ xs) a s z = absurd (omega (arith, a))
  all-ended (ran ∷ xs) a s z = absurd (omega (arith, a))
  all-ended (counted ∷ xs) a s z = absurd (omega (arith, a))

module _ {ℓ κ υ} {E : Type ℓ} {B : Type κ} {R : Type υ} (run : E → Option R) where
  pub mt_steps-keep {μ} :
      (P : ThPoolBack E B R → Type μ)
      → ((p p' : ThPoolBack E B R) (i : ℕ) → mt_step run p i ≡ some p' → P p → P p')
      → (p p' : ThPoolBack E B R) (is : List ℕ) → mt_steps run p is ≡ some p'
      → P p
      → P p'
  unfolding mt_steps
  mt_steps-keep P keep p p' [] e v = subst P (some-injective _ _ e) v
  mt_steps-keep P keep p p' (i ∷ is) e v =
      let (q, first, rest) = >>=-eq-some (mt_step run p i) _ e in
      mt_steps-keep P keep q p' is rest (keep p q i first v)

  -- Stopped, and nobody sleeps or is about to
  record IsUp (p : ThPoolBack E B R) : Type 0 where
    stopped : p.stop ≡ true
    none_sleepy : count is_sleepy p.threads ≡ 0
    none_asleep : count is_asleep p.threads ≡ 0

  -- A thread that goes on to a phase in which it neither sleeps nor is about to
  IsUp-set :
      (p p' : ThPoolBack E B R) (i : ℕ) (a b : Phase E)
      → get_elem? p.threads i ≡ some a
      → is_sleepy b ≡ false
      → is_asleep b ≡ false
      → p'.stop ≡ p.stop
      → p'.threads ≡ set p.threads i b
      → IsUp p
      → IsUp p'
  IsUp-set p p' i a b at not_sleepy not_asleep same_stop moved v = record {
    stopped = same_stop ∙ v.stopped;
    none_sleepy = omega (
      arith,
      ap (count is_sleepy) moved,
      count-set is_sleepy p.threads i a b at,
      v.none_sleepy,
      ap bit not_sleepy,
    );
    none_asleep = omega (
      arith,
      ap (count is_asleep) moved,
      count-set is_asleep p.threads i a b at,
      v.none_asleep,
      ap bit not_asleep,
    );
  }

  phase_step-IsUp :
      (p p' : ThPoolBack E B R) (i : ℕ) (phase : Phase E)
      → get_elem? p.threads i ≡ some phase
      → phase_step run p i phase ≡ some p'
      → IsUp p
      → IsUp p'
  unfolding phase_step run_task is_sleepy is_asleep
  phase_step-IsUp p p' i woken at e v = elim (if-eq p.locked none (some _) e) [
    | inl (locked, stuck) ↦ cc
    | inr (free, go) ↦
        subst IsUp (some-injective _ _ go) (IsUp-set p _ i woken testing at refl refl refl refl v)
  ]
  phase_step-IsUp p p' i testing at e v =
      let path : ◌≡◌ {A = Phase E} (if p.stop || not (is_empty p.queue) then chosen else sleepy)
          chosen =
        rw (v.stopped) refl in
      subst IsUp (some-injective _ _ e)
        (IsUp-set p _ i testing chosen at refl refl refl (ap (set p.threads i) path) v)
  phase_step-IsUp p p' i sleepy at e v =
      absurd (omega (arith, v.none_sleepy, count-set is_sleepy p.threads i sleepy woken at))
  phase_step-IsUp p p' i asleep at e v = cc
  phase_step-IsUp p p' i chosen at e v = elim (if-eq p.stop (some _) (take_task p i p.queue) e) [
    | inl (ends, go) ↦
        subst IsUp (some-injective _ _ go) (IsUp-set p _ i chosen ended at refl refl refl refl v)
    | inr (goes_on, go) ↦ absurd (ground (arith, v.stopped, goes_on))
  ]
  phase_step-IsUp p p' i (running task) at e v =
      subst IsUp (some-injective _ _ e) (IsUp-set p _ i (running task) ran at refl refl refl refl v)
  phase_step-IsUp p p' i ran at e v =
      subst IsUp (some-injective _ _ e) (IsUp-set p _ i ran counted at refl refl refl refl v)
  phase_step-IsUp p p' i counted at e v =
      subst IsUp (some-injective _ _ e) (IsUp-set p _ i counted woken at refl refl refl refl v)
  phase_step-IsUp p p' i ended at e v = cc

  mt_step-IsUp : (p p' : ThPoolBack E B R) (i : ℕ) → mt_step run p i ≡ some p' → IsUp p → IsUp p'
  unfolding mt_step
  mt_step-IsUp p p' i e v =
      let (phase, at, step) = >>=-eq-some (get_elem? p.threads i) (phase_step run p i) e in
      phase_step-IsUp p p' i phase at step v

  notify_all-IsUp :
      (p : ThPoolBack E B R)
      → Inv p
      → p.stage ≡ to_notify_all
      → count is_sleepy p.threads ≡ 0
      → IsUp (notify_all p)
  unfolding notify_all is_sleepy is_clean
  notify_all-IsUp p v stage calm = record {
    stopped = sym v.staged ∙ ap is_clean stage;
    none_sleepy = count-wake_all is_sleepy p.threads refl ∙ calm;
    none_asleep = none-asleep p.threads;
  }

  join_all-ends :
      (p : ThPoolBack E B R)
      → all_ended p.threads ≡ true
      → join_all p ≡ some (pool_hdl_done_fut (record p { stage = over }) true)
  unfolding join_all
  join_all-ends p ends = rw ends refl

  -- In any course from the constructor on in which no pool thread stands between a false test and its
  -- sleep when `clean_` calls `notify_all`: when no thread can take a step after it, all have ended,
  -- the rest of `clean_` goes through, and no task that is ready and a count of 0 are left.
  pub clean_joins :
      (default_thread default_task_q max_thread max_task_q : ℕ) {p p' : ThPoolBack E B R}
      {new : List (E × B)} {handled : List (FutBackFn (Shared B) R)} (is : List ℕ)
      → 0 < default_thread
      → Steps run
          (new_th_pool_back default_thread default_task_q max_thread max_task_q)
          new
          handled
          p
      → p.stage ≡ to_notify_all
      → count is_sleepy p.threads ≡ 0
      → mt_steps run (notify_all p) is ≡ some p'
      → IsResting run p'
      → (end : ThPoolBack E B R) × (last : List (FutBackFn (Shared B) R)) × (join_all p'
          ≡ some (end, last))
        × (count is_ready end.back.futs ≡ 0)
        × (end.back.n_done ≡ 0)
  unfolding pool_hdl_done_fut
  clean_joins default_thread default_task_q max_thread max_task_q {p = p} {p' = p'} {new = new} is
        pos steps stage calm moves rest =
      let fits = any_fits run in
      let v =
        Steps-Inv run steps
          (new_th_pool_back-Inv run default_thread default_task_q max_thread max_task_q pos) in
      let t =
        (Steps-Tasks run fits steps (all_fit run new) (
          new_th_pool_back-Tasks run fits default_thread default_task_q max_thread max_task_q)).0 in
      let q = notify_all p in
      let v' =
        mt_steps-keep Inv (λ a b i e w. mt_step-Inv run a i e w) q p' is moves
          (notify_all-Inv p stage v) in
      let t' =
        mt_steps-keep (OfPool run fits) (mt_step-Tasks run fits) q p' is moves
          (notify_all-Tasks run fits p t) in
      let u = mt_steps-keep IsUp mt_step-IsUp q p' is moves (notify_all-IsUp p v stage calm) in
      let idle = resting_idle run p' v' rest in
      let ends = all-ended p'.threads idle u.none_sleepy u.none_asleep in
      let r = hdl_done_fut (λ f. []) p'.back true in
      let done = handles_ready run fits p'.back r.0 r.1 (idle-done run fits p' t' idle) refl in
      let end = pool_hdl_done_fut (record p' { stage = over }) true in
      (end.0, end.1, join_all-ends p' ends, done.1, done.0)
