-- ===== src/ThPoolBack/Rest.antt =====
-- What the pool of thread/ThPoolBack.cpp has done when its threads rest.
use domino_library.Prelude.{
  ℕ, suc, ◌≡◌, ◌≢◌, ◌≤◌, refl, sym, ◌∙◌, ap, inl, inr, Bool, true, false, List, [], ◌∷◌, Option,
  none, some, length, is_empty, arith, if-eq, get_elem?,
}
use domino_library.ThreadBack.{FutBackFn, ThreadBack, hdl_done_fut}
use domino_library.ThreadBack.Found.{count, is_ready}
use domino_library.ThreadBack.Done.{hdl_done_fut_lem}
use domino_library.ThreadBack.Limit.{started-nothing}
use domino_library.ThPoolBack.{
  Task, Shared, Phase, woken, testing, sleepy, asleep, chosen, running, ran, counted, ended,
  outside, ThPoolBack, take_task, phase_step, mt_step,
}
use domino_library.ThPoolBack.Run.{IsResting}
use domino_library.ThPoolBack.Inv.{
  bit, count-pos, holds, is_chosen, is_active, is_clean, is_to_notify, Inv,
}
use domino_library.ThPoolBack.Tasks.{count-le, unready, at_task, is_ran}
use domino_library.ThPoolBack.Tasks.Thread.{OfPool}

count-none {ℓ} :
    {A : Type ℓ} (q : A → Bool) (xs : List A)
    → ((i : ℕ) (x : A) → get_elem? xs i ≡ some x → q x ≡ false)
    → count q xs ≡ 0
unfolding count
count-none q [] h = refl
count-none q (x ∷ xs) h = ground (arith, h 0 x refl, count-none q xs (λ i y at. h (suc i) y at))

module _ {ℓ κ υ} {E : Type ℓ} {B : Type κ} {R : Type υ} (run : E → Option R) where
  -- The phase of a thread that cannot go on
  resting_step :
      (p : ThPoolBack E B R) (i : ℕ) (phase : Phase E)
      → IsResting run p
      → get_elem? p.threads i ≡ some phase
      → phase_step run p i phase ≡ none
  unfolding mt_step
  resting_step p i phase rest at =
      let path : mt_step run p i ≡ phase_step run p i phase = rw (mt_step, at) refl in
      sym path ∙ rest i

  take_task-none :
      (p : ThPoolBack E B R) (i : ℕ) (queue : List (Task E))
      → take_task p i queue ≡ none
      → is_empty queue ≡ true
  unfolding take_task
  take_task-none p i [] e = refl
  take_task-none p i (task ∷ queue) e = cc

  chosen_goes :
      (p : ThPoolBack E B R) (i : ℕ)
      → Inv p
      → get_elem? p.threads i ≡ some chosen
      → phase_step run p i chosen ≢ none
  unfolding phase_step is_chosen
  chosen_goes p i v at e =
      let here = count-pos is_chosen p.threads i chosen at refl in
      elim (if-eq p.stop (some _) (take_task p i p.queue) e) [
        | inl (stopped, go) ↦ cc
        | inr (goes_on, go) ↦ ground (arith, v.fed, take_task-none p i p.queue go)
      ]

  phase_holds :
      (p : ThPoolBack E B R) (i : ℕ) (phase : Phase E)
      → Inv p
      → get_elem? p.threads i ≡ some phase
      → phase_step run p i phase ≡ none
      → holds phase ≡ false
  unfolding phase_step holds
  phase_holds p i testing v at e = cc
  phase_holds p i sleepy v at e = cc
  phase_holds p i chosen v at e = absurd (chosen_goes p i v at e)
  phase_holds p i woken v at e = refl
  phase_holds p i asleep v at e = refl
  phase_holds p i (running task) v at e = refl
  phase_holds p i ran v at e = refl
  phase_holds p i counted v at e = refl
  phase_holds p i ended v at e = refl

  -- A thread at rest sleeps or has ended.
  phase_active :
      (p : ThPoolBack E B R) (i : ℕ) (phase : Phase E)
      → Inv p
      → p.locked ≡ false
      → get_elem? p.threads i ≡ some phase
      → phase_step run p i phase ≡ none
      → is_active phase ≡ false
  unfolding phase_step is_active
  phase_active p i woken v free at e = elim (if-eq p.locked none (some _) e) [
    | inl (locked, stuck) ↦ cc
    | inr (unlocked, go) ↦ cc
  ]
  phase_active p i testing v free at e = cc
  phase_active p i sleepy v free at e = refl
  phase_active p i chosen v free at e = absurd (chosen_goes p i v at e)
  phase_active p i asleep v free at e = refl
  phase_active p i (running task) v free at e = cc
  phase_active p i ran v free at e = cc
  phase_active p i counted v free at e = cc
  phase_active p i ended v free at e = refl

  resting_free : (p : ThPoolBack E B R) → Inv p → IsResting run p → p.locked ≡ false
  resting_free p v rest =
      let none_holds =
        count-none holds p.threads
          (λ i x at. phase_holds p i x v at (resting_step p i x rest at)) in
      ground (arith, v.mutex, none_holds)

  pub resting_idle :
      (p : ThPoolBack E B R) → Inv p → IsResting run p → count is_active p.threads ≡ 0
  resting_idle p v rest =
      count-none is_active p.threads
        (λ i x at. phase_active p i x v (resting_free p v rest) at (resting_step p i x rest at))

pub at_task-active {ℓ} :
    {E : Type ℓ} (q : Task E → Bool) (phase : Phase E)
    → bit (at_task q phase) ≤ bit (is_active phase)
unfolding at_task is_active
at_task-active q (running task) = ground arith
at_task-active q asleep = omega arith
at_task-active q _ = omega arith

is_ran-active {ℓ} : {E : Type ℓ} (phase : Phase E) → bit (is_ran phase) ≤ bit (is_active phase)
unfolding is_ran is_active
is_ran-active ran = omega arith
is_ran-active asleep = omega arith
is_ran-active _ = omega arith

module _ {κ υ} {B : Type κ} {R : Type υ} where
  pub none-unready :
      (fs : List (FutBackFn (Shared B) R))
      → ((x : ℕ) → count (unready x) fs ≡ 0)
      → count is_ready fs ≡ length fs
  unfolding count unready is_ready
  none-unready [] h = refl
  none-unready (f ∷ fs) h =
      ground (arith, h f.back_fn.id, none-unready fs (λ x. omega (arith, h x)))

  is_ready-le : (fs : List (FutBackFn (Shared B) R)) → count is_ready fs ≤ length fs
  unfolding count
  is_ready-le [] = omega arith
  is_ready-le (f ∷ fs) = ground (arith, is_ready-le fs)

module _ {ℓ κ υ} {E : Type ℓ} {B : Type κ} {R : Type υ} (run : E → Option R)
    (fits : B → Option R → Bool) where
  -- No thread is before its count: the ready futures are as many as the count says.
  pub idle-done :
      (p : ThPoolBack E B R)
      → OfPool run fits p
      → count is_active p.threads ≡ 0
      → p.back.n_done ≡ count is_ready p.back.futs
  idle-done p t idle =
      omega (arith, t.done, idle, count-le is_ran is_active p.threads is_ran-active)

  -- `hdlDoneFut` with as many ready futures as the count says leaves none ready.
  pub handles_ready :
      (back back' : ThreadBack (Shared B) R) (handled : List (FutBackFn (Shared B) R))
      → back.n_done ≡ count is_ready back.futs
      → hdl_done_fut (λ f. []) back true ≡ (back', handled)
      → (back'.n_done ≡ 0) × (count is_ready back'.futs ≡ 0)
  unfolding count
  handles_ready back back' handled full e =
      let did = hdl_done_fut_lem (λ f. []) back back' handled is_ready e in
      let nothing = ap (count is_ready) (started-nothing handled) in
      elim did.3 [
        | inl zero_left ↦ (zero_left, omega (arith, did.0, did.1, did.2, nothing, full, zero_left))
        | inr no_ready ↦ (omega (arith, did.0, did.1, did.2, nothing, full, no_ready), no_ready)
      ]

  pub resting_queue :
      (p : ThPoolBack E B R)
      → Inv p
      → p.stage ≡ outside
      → count is_active p.threads ≡ 0
      → is_empty p.queue ≡ true
  unfolding is_clean is_to_notify
  resting_queue p v out idle =
      let goes_on : p.stop ≡ false = sym v.staged ∙ ap is_clean out in
      let told : is_to_notify p.stage ≡ false = ap is_to_notify out in
      ground (arith, v.noticed, goes_on, told, idle)
