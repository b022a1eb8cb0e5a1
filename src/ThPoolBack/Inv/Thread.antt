-- ===== src/ThPoolBack/Inv/Thread.antt =====
-- The steps of the pool threads of thread/ThPoolBack.cpp keep the invariant.
use domino_library.Prelude.{
  ℕ, ◌≡◌, refl, inl, inr, subst, true, false, not, ◌||◌, List, [], ◌∷◌, Option, none, some,
  some-injective, if◌then◌else◌, is_empty, get_elem?, set, arith, Bool-cases, if-eq, >>=-eq-some,
}
use domino_library.ThreadBack.{mt_count}
use domino_library.ThPoolBack.{
  Task, Phase, run_task, take_task, woken, testing, sleepy, asleep, chosen, running, ran, counted,
  ended, ThPoolBack, phase_step, mt_step,
}
use domino_library.ThPoolBack.Calls.{is_ended}
use domino_library.ThPoolBack.Inv.Turn.{Turned-set, drowsed-chose-le, turn-Inv}
use domino_library.ThPoolBack.Inv.{count-pos, holds, is_sleepy, is_chosen, is_active, Inv}

module _ {ℓ κ υ} {E : Type ℓ} {B : Type κ} {R : Type υ} (run : E → Option R) where
  testing-Inv :
      (p : ThPoolBack E B R) (i : ℕ)
      → get_elem? p.threads i ≡ some testing
      → Inv p
      → Inv (record p {
        threads = set p.threads i (if p.stop || not (is_empty p.queue) then chosen else sleepy);
      })
  unfolding holds is_sleepy is_chosen is_ended is_active
  testing-Inv p i at v = elim (Bool-cases (p.stop || not (is_empty p.queue))) [
    | inl go ↦ rw go (
        turn-Inv p _ p.back p.locked p.stage p.pings testing chosen
          (Turned-set p.threads i testing chosen at) refl refl (inl refl) (inr (ground arith))
          (inl refl) (inl refl) v)
    | inr rest ↦ rw rest (
        turn-Inv p _ p.back p.locked p.stage p.pings testing sleepy
          (Turned-set p.threads i testing sleepy at) refl refl (inr (ground arith)) (inl refl)
          (inl refl) (inr (ground arith)) v)
  ]

  take-Inv :
      (p : ThPoolBack E B R) (i : ℕ) (task : Task E) (queue : List (Task E))
      → get_elem? p.threads i ≡ some chosen
      → Inv p
      → Inv (record p { threads = set p.threads i (running task); queue = queue; locked = false })
  unfolding holds is_sleepy is_chosen is_ended is_active
  take-Inv p i task queue at v =
      let t = Turned-set p.threads i chosen (running task) at in
      let alone = drowsed-chose-le (set p.threads i (running task)) in
      let here = count-pos holds p.threads i chosen at refl in
      record {
        mutex = ground (arith, t.held, v.mutex);
        drowsy = inl (ground (arith, t.held, v.mutex, alone));
        fed = inl (ground (arith, t.held, v.mutex, alone));
        alive = ground (arith, t.left, v.alive);
        staged = v.staged;
        manned = omega (arith, t.long, v.manned);
        noticed = inr (inr (inr (ground (arith, t.acts))));
      }

  take_task-Inv :
      (p : ThPoolBack E B R) (i : ℕ) (queue : List (Task E)) {p' : ThPoolBack E B R}
      → get_elem? p.threads i ≡ some chosen
      → take_task p i queue ≡ some p'
      → Inv p
      → Inv p'
  unfolding take_task
  take_task-Inv p i [] at e v = cc
  take_task-Inv p i (task ∷ queue) at e v =
      subst Inv (some-injective _ _ e) (take-Inv p i task queue at v)

  phase_step-Inv :
      (p : ThPoolBack E B R) (i : ℕ) (phase : Phase E) {p' : ThPoolBack E B R}
      → get_elem? p.threads i ≡ some phase
      → phase_step run p i phase ≡ some p'
      → Inv p
      → Inv p'
  unfolding phase_step run_task mt_count holds is_sleepy is_chosen is_ended is_active
  phase_step-Inv p i woken at e v = elim (if-eq p.locked none (some _) e) [
    | inl (held, stuck) ↦ cc
    | inr (free, go) ↦ subst Inv (some-injective _ _ go) (
        turn-Inv p _ p.back true p.stage p.pings woken testing
          (Turned-set p.threads i woken testing at) refl (rw free refl) (inl refl) (inl refl)
          (inl refl) (inl refl) v)
  ]
  phase_step-Inv p i testing at e v = subst Inv (some-injective _ _ e) (testing-Inv p i at v)
  phase_step-Inv p i sleepy at e v =
      let waits = count-pos is_sleepy p.threads i sleepy at refl in
      let held = count-pos holds p.threads i sleepy at refl in
      subst Inv (some-injective _ _ e) (
        turn-Inv p _ p.back false p.stage p.pings sleepy asleep
          (Turned-set p.threads i sleepy asleep at) refl (ground (arith, v.mutex, held)) (inl refl)
          (inl refl) (inl refl) (inr (inl (ground (arith, v.drowsy, waits)))) v)
  phase_step-Inv p i asleep at e v = cc
  phase_step-Inv p i chosen at e v = elim (if-eq p.stop (some _) (take_task p i p.queue) e) [
    | inl (stopped, go) ↦
        let held = count-pos holds p.threads i chosen at refl in
        subst Inv (some-injective _ _ go) (
          turn-Inv p _ p.back false p.stage p.pings chosen ended
            (Turned-set p.threads i chosen ended at) refl (ground (arith, v.mutex, held)) (inl refl)
            (inl refl) (inr stopped) (inr (inr stopped)) v)
    | inr (goes_on, go) ↦ take_task-Inv p i p.queue at go v
  ]
  phase_step-Inv p i (running task) at e v = subst Inv (some-injective _ _ e) (
      turn-Inv p _ _ p.locked p.stage p.pings (running task) ran
        (Turned-set p.threads i (running task) ran at) refl refl (inl refl) (inl refl) (inl refl)
        (inl refl) v)
  phase_step-Inv p i ran at e v = subst Inv (some-injective _ _ e) (
      turn-Inv p _ _ p.locked p.stage p.pings ran counted (Turned-set p.threads i ran counted at)
        refl refl (inl refl) (inl refl) (inl refl) (inl refl) v)
  phase_step-Inv p i counted at e v = subst Inv (some-injective _ _ e) (
      turn-Inv p _ p.back p.locked p.stage _ counted woken (Turned-set p.threads i counted woken at)
        refl refl (inl refl) (inl refl) (inl refl) (inl refl) v)
  phase_step-Inv p i ended at e v = cc

  pub mt_step-Inv :
      (p : ThPoolBack E B R) (i : ℕ) {p' : ThPoolBack E B R}
      → mt_step run p i ≡ some p'
      → Inv p
      → Inv p'
  unfolding mt_step
  mt_step-Inv p i e v =
      let (phase, at, step) = >>=-eq-some (get_elem? p.threads i) (phase_step run p i) e in
      phase_step-Inv p i phase at step v
