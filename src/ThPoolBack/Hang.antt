-- ===== src/ThPoolBack/Hang.antt =====
-- A thread that misses the stop of `clean_` in thread/ThPoolBack.cpp.
use domino_library.Prelude.{
  ℕ, zero, suc, ◌≡◌, ◌≢◌, refl, sym, ◌∙◌, ap, inl, inr, subst, false, List, [], ◌∷◌, Option, none,
  some, some-injective, ◌==◌, arith, Bool-cases, if-eq, >>=-eq-some, get_elem?, set, ==_iff,
}
use domino_library.ThPoolBack.{
  Task, Phase, woken, testing, sleepy, asleep, chosen, running, ran, counted, ended, ThPoolBack,
  run_task, take_task, phase_step, mt_step,
}
use domino_library.ThPoolBack.Calls.{is_asleep, is_ended, wake_all, all_ended, notify_all, join_all}
use domino_library.ThPoolBack.Run.{mt_steps}
use domino_library.ThPoolBack.Clean.{mt_steps-keep}

get_elem?-set_ne {ℓ} :
    {A : Type ℓ} (xs : List A) (i j : ℕ) (a : A) → i ≢ j → get_elem? (set xs j a) i ≡ get_elem? xs i
get_elem?-set_ne [] i j a h = refl
get_elem?-set_ne (x ∷ xs) zero zero a h = absurd (h refl)
get_elem?-set_ne (x ∷ xs) zero (suc j) a h = refl
get_elem?-set_ne (x ∷ xs) (suc i) zero a h = refl
get_elem?-set_ne (x ∷ xs) (suc i) (suc j) a h = get_elem?-set_ne xs i j a (λ e. h (ap suc e))

get_elem?-set_self {ℓ} :
    {A : Type ℓ} (xs : List A) (i : ℕ) (a x : A)
    → get_elem? xs i ≡ some x
    → get_elem? (set xs i a) i ≡ some a
get_elem?-set_self [] i a x h = cc
get_elem?-set_self (y ∷ xs) zero a x h = refl
get_elem?-set_self (y ∷ xs) (suc i) a x h = get_elem?-set_self xs i a x h

module _ {ℓ} {E : Type ℓ} where
  asleep-all_ended :
      (xs : List (Phase E)) (i : ℕ) → get_elem? xs i ≡ some asleep → all_ended xs ≡ false
  unfolding all_ended is_ended
  asleep-all_ended [] i at = cc
  asleep-all_ended (x ∷ xs) zero at = rw (some-injective _ _ at) refl
  asleep-all_ended (x ∷ xs) (suc i) at = ground (arith, asleep-all_ended xs i at)

  get_elem?-wake_all :
      (xs : List (Phase E)) (i : ℕ)
      → get_elem? xs i ≡ some sleepy
      → get_elem? (wake_all xs) i ≡ some sleepy
  unfolding wake_all is_asleep
  get_elem?-wake_all [] i at = cc
  get_elem?-wake_all (x ∷ xs) zero at = rw (some-injective _ _ at) refl
  get_elem?-wake_all (x ∷ xs) (suc i) at = get_elem?-wake_all xs i at

module _ {ℓ κ υ} {E : Type ℓ} {B : Type κ} {R : Type υ} (run : E → Option R) where
  -- A step moves its own thread only.
  abbrev Moves : ThPoolBack E B R → ThPoolBack E B R → ℕ → Type ℓ
  Moves p p' i = (b : Phase E) × (p'.threads ≡ set p.threads i b)

  moves :
      (p p' : ThPoolBack E B R) (i : ℕ) (q : ThPoolBack E B R) (b : Phase E)
      → q.threads ≡ set p.threads i b
      → ◌≡◌ {A = Option (ThPoolBack E B R)} (some q) (some p')
      → Moves p p' i
  moves p p' i q b same e = (b, ap (λ x. x.threads) (sym (some-injective _ _ e)) ∙ same)

  take_task-Moves :
      (p p' : ThPoolBack E B R) (i : ℕ) (queue : List (Task E))
      → take_task p i queue ≡ some p'
      → Moves p p' i
  unfolding take_task
  take_task-Moves p p' i [] e = cc
  take_task-Moves p p' i (task ∷ queue) e = moves p p' i _ (running task) refl e

  phase_step-Moves :
      (p p' : ThPoolBack E B R) (i : ℕ) (phase : Phase E)
      → phase_step run p i phase ≡ some p'
      → Moves p p' i
  unfolding phase_step run_task
  phase_step-Moves p p' i woken e = elim (if-eq p.locked none (some _) e) [
    | inl (locked, stuck) ↦ cc
    | inr (free, go) ↦ moves p p' i _ testing refl go
  ]
  phase_step-Moves p p' i testing e = moves p p' i _ _ refl e
  phase_step-Moves p p' i sleepy e = moves p p' i _ asleep refl e
  phase_step-Moves p p' i asleep e = cc
  phase_step-Moves p p' i chosen e = elim (if-eq p.stop (some _) (take_task p i p.queue) e) [
    | inl (stopped, go) ↦ moves p p' i _ ended refl go
    | inr (goes_on, go) ↦ take_task-Moves p p' i p.queue go
  ]
  phase_step-Moves p p' i (running task) e = moves p p' i _ ran refl e
  phase_step-Moves p p' i ran e = moves p p' i _ counted refl e
  phase_step-Moves p p' i counted e = moves p p' i _ woken refl e
  phase_step-Moves p p' i ended e = cc

  asleep_stays :
      (p p' : ThPoolBack E B R) (i j : ℕ)
      → mt_step run p j ≡ some p'
      → get_elem? p.threads i ≡ some asleep
      → get_elem? p'.threads i ≡ some asleep
  unfolding mt_step phase_step
  asleep_stays p p' i j e at =
      let (phase, at', step) = >>=-eq-some (get_elem? p.threads j) (phase_step run p j) e in
      elim (Bool-cases (i == j)) [
        | inl same ↦
            let there : get_elem? p.threads j ≡ some asleep =
              subst (λ k. get_elem? p.threads k ≡ some asleep) ((==_iff i j).0 same) at in
            let it : phase ≡ asleep = some-injective _ _ (sym at' ∙ there) in
            let stuck : phase_step run p j phase ≡ none = ap (phase_step run p j) it in cc
        | inr other ↦
            let (b, moved) = phase_step-Moves p p' j phase step in
            ap (λ xs. get_elem? xs i) moved
            ∙ get_elem?-set_ne p.threads i j b (λ eq. cc ((==_iff i j).1 eq))
            ∙ at
      ]

  -- When a pool thread stands between a false test and its sleep as `clean_` calls `notify_all`, and
  -- goes to sleep then, `clean_` does not end, whatever steps the pool threads take, as long as none
  -- wakes by itself.
  pub clean_hangs :
      (p q p' : ThPoolBack E B R) (i : ℕ) (is : List ℕ)
      → get_elem? p.threads i ≡ some sleepy
      → mt_step run (notify_all p) i ≡ some q
      → mt_steps run q is ≡ some p'
      → join_all p' ≡ none
  unfolding notify_all mt_step phase_step join_all
  clean_hangs p q p' i is at sleeps steps =
      let here = get_elem?-wake_all p.threads i at in
      let r = notify_all p in
      let step : ◌≡◌ {A = Option (ThPoolBack E B R)}
          (some (record r { threads = set r.threads i asleep; locked = false })) (some q) =
        sym (rw (mt_step, here) refl) ∙ sleeps in
      let slept : get_elem? q.threads i ≡ some asleep =
        ap (λ x. get_elem? x.threads i) (sym (some-injective _ _ step))
        ∙ get_elem?-set_self r.threads i asleep sleepy here in
      let still =
        mt_steps-keep run (λ x. get_elem? x.threads i ≡ some asleep)
          (λ a b j e. asleep_stays a b i j e) q p' is steps slept in
      rw (asleep-all_ended p'.threads i still) refl
