-- ===== src/ThPoolBack/Bound.antt =====
-- The threads of thread/ThPoolBack.cpp come to rest between two calls of the main thread.
use domino_library.Prelude.{
  ℕ, zero, suc, ◌+◌, ◌*◌, ◌≡◌, ◌<◌, ◌≤◌, refl, ap, inl, inr, not, ◌||◌, List, [], ◌∷◌, Option, none,
  some, some-injective, if◌then◌else◌, length, is_empty, arith, if-eq, >>=-eq-some, get_elem?, set,
}
use domino_library.ThreadBack.{mt_count}
use domino_library.ThPoolBack.{
  Task, Phase, woken, testing, sleepy, asleep, chosen, running, ran, counted, ended, ThPoolBack,
  run_task, take_task, phase_step, mt_step,
}
use domino_library.ThPoolBack.Run.{mt_steps}

module _ {ℓ} {E : Type ℓ} where
  -- The steps before a thread sleeps or takes a task
  weight : Phase E → ℕ
  weight asleep = 0
  weight ended = 0
  weight sleepy = 1
  weight chosen = 2
  weight testing = 3
  weight woken = 4
  weight counted = 5
  weight ran = 6
  weight (running task) = 7

  load : List (Phase E) → ℕ
  load [] = 0
  load (x ∷ xs) = weight x + load xs

  load-set :
      (xs : List (Phase E)) (i : ℕ) (a b : Phase E)
      → get_elem? xs i ≡ some a
      → load (set xs i b) + weight a ≡ load xs + weight b
  unfolding load
  load-set [] i a b at = cc
  load-set (x ∷ xs) zero a b at = omega (arith, ap weight (some-injective _ _ at))
  load-set (x ∷ xs) (suc i) a b at = omega (arith, load-set xs i a b at)

  load-le : (xs : List (Phase E)) → load xs ≤ 7 * length xs
  unfolding load weight
  load-le [] = omega arith
  load-le (asleep ∷ xs) = omega (arith, load-le xs)
  load-le (ended ∷ xs) = omega (arith, load-le xs)
  load-le (sleepy ∷ xs) = omega (arith, load-le xs)
  load-le (chosen ∷ xs) = omega (arith, load-le xs)
  load-le (testing ∷ xs) = omega (arith, load-le xs)
  load-le (woken ∷ xs) = omega (arith, load-le xs)
  load-le (counted ∷ xs) = omega (arith, load-le xs)
  load-le (ran ∷ xs) = omega (arith, load-le xs)
  load-le (running task ∷ xs) = omega (arith, load-le xs)

module _ {ℓ κ υ} {E : Type ℓ} {B : Type κ} {R : Type υ} (run : E → Option R) where
  measure : ThPoolBack E B R → ℕ
  measure p = 6 * length p.queue + load p.threads

  take_task-lt :
      (p p' : ThPoolBack E B R) (i : ℕ) (queue : List (Task E))
      → p.queue ≡ queue
      → get_elem? p.threads i ≡ some chosen
      → take_task p i queue ≡ some p'
      → measure p' < measure p
  unfolding take_task measure weight
  take_task-lt p p' i [] front at e = cc
  take_task-lt p p' i (task ∷ queue) front at e = omega (
    arith,
    ap measure (some-injective _ _ e),
    ap length front,
    load-set p.threads i chosen (running task) at,
  )

  phase_step-lt :
      (p p' : ThPoolBack E B R) (i : ℕ) (phase : Phase E)
      → get_elem? p.threads i ≡ some phase
      → phase_step run p i phase ≡ some p'
      → measure p' < measure p
  unfolding phase_step run_task mt_count measure weight
  phase_step-lt p p' i woken at e = elim (if-eq p.locked none (some _) e) [
    | inl (locked, stuck) ↦ cc
    | inr (free, go) ↦
        omega (arith, ap measure (some-injective _ _ go), load-set p.threads i woken testing at)
  ]
  phase_step-lt p p' i testing at e =
      let b : Phase E = if p.stop || not (is_empty p.queue) then chosen else sleepy in
      let small : weight b ≤ 2 = ground arith in
      omega (arith, small, ap measure (some-injective _ _ e), load-set p.threads i testing b at)
  phase_step-lt p p' i sleepy at e =
      omega (arith, ap measure (some-injective _ _ e), load-set p.threads i sleepy asleep at)
  phase_step-lt p p' i asleep at e = cc
  phase_step-lt p p' i chosen at e = elim (if-eq p.stop (some _) (take_task p i p.queue) e) [
    | inl (stopped, go) ↦
        omega (arith, ap measure (some-injective _ _ go), load-set p.threads i chosen ended at)
    | inr (goes_on, go) ↦ take_task-lt p p' i p.queue refl at go
  ]
  phase_step-lt p p' i (running task) at e =
      omega (arith, ap measure (some-injective _ _ e), load-set p.threads i (running task) ran at)
  phase_step-lt p p' i ran at e =
      omega (arith, ap measure (some-injective _ _ e), load-set p.threads i ran counted at)
  phase_step-lt p p' i counted at e =
      omega (arith, ap measure (some-injective _ _ e), load-set p.threads i counted woken at)
  phase_step-lt p p' i ended at e = cc

  mt_step-lt :
      (p p' : ThPoolBack E B R) (i : ℕ) → mt_step run p i ≡ some p' → measure p' < measure p
  unfolding mt_step
  mt_step-lt p p' i e =
      let (phase, at, step) = >>=-eq-some (get_elem? p.threads i) (phase_step run p i) e in
      phase_step-lt p p' i phase at step

  mt_steps-measure :
      (p p' : ThPoolBack E B R) (is : List ℕ)
      → mt_steps run p is ≡ some p'
      → length is + measure p' ≤ measure p
  unfolding mt_steps
  mt_steps-measure p p' [] e = omega (arith, ap measure (some-injective _ _ e))
  mt_steps-measure p p' (i ∷ is) e =
      let (q, first, rest) = >>=-eq-some (mt_step run p i) _ e in
      omega (arith, mt_step-lt p q i first, mt_steps-measure q p' is rest)

  -- Pool threads take at most 6 steps for each task in the queue and 7 for each thread before none can
  -- take one, if the main thread makes no call and no thread wakes by itself.
  pub mt_steps-bounded :
      (p p' : ThPoolBack E B R) (is : List ℕ)
      → mt_steps run p is ≡ some p'
      → length is ≤ 6 * length p.queue + 7 * length p.threads
  unfolding measure
  mt_steps-bounded p p' is e = omega (arith, mt_steps-measure p p' is e, load-le p.threads)
