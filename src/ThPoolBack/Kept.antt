-- ===== src/ThPoolBack/Kept.antt =====
-- Each accepted task of the pool of thread/ThPoolBack.cpp waits for its back function or has had it.
use domino_library.Prelude.{
  ℕ, ◌+◌, ◌≡◌, ◌⊎◌, refl, sym, ◌∙◌, ap, inl, inr, Bool, true, false, List, [], ◌∷◌, Option, none,
  some, some-injective, arith, if-eq, >>=-eq-some, get_elem?,
}
use domino_library.ThreadBack.{FutBackFn, mt_count, hdl_done_fut}
use domino_library.ThreadBack.Found.{count, count-append}
use domino_library.ThreadBack.Done.{hdl_done_fut_lem}
use domino_library.ThreadBack.Limit.{started-nothing}
use domino_library.ThPoolBack.{
  Task, Shared, Phase, woken, testing, sleepy, asleep, chosen, running, ran, counted, ended,
  ThPoolBack, ready_shared, run_task, take_task, phase_step, mt_step,
}
use domino_library.ThPoolBack.Calls.{
  spurious_wake, notify_one, store_stop, notify_all, some_asleep, wake_at, add_task,
  pool_hdl_done_fut,
}
use domino_library.ThPoolBack.Cases.{
  Added, new_task_ok-cases, limit_new_task_ok-cases, pool_hdl_done_fut-other,
}
use domino_library.ThPoolBack.Run.{
  accepted, Step, thread_step, wakes, new_task, limited, notifies, handles, stops, notifies_all,
  joins, Steps, here, next,
}
use domino_library.ThPoolBack.Inv.Main.{join_all-some}

-- A test of the back functions that wait or have been called, and of those of new tasks
unfoldable pub has_fn {κ υ} : {B : Type κ} {R : Type υ} → (B → Bool) → FutBackFn (Shared B) R → Bool
has_fn q f = q f.back_fn.fn

unfoldable pub new_fn {ℓ κ} : {E : Type ℓ} {B : Type κ} → (B → Bool) → E × B → Bool
new_fn q task = q task.1

module _ {ℓ κ υ} {E : Type ℓ} {B : Type κ} {R : Type υ} (run : E → Option R) (q : B → Bool) where
  waiting : ThPoolBack E B R → ℕ
  waiting p = count (has_fn q) p.back.futs

  waiting-ready_shared :
      (x : ℕ) (ret : Option R) (fs : List (FutBackFn (Shared B) R))
      → count (has_fn q) (ready_shared x ret fs) ≡ count (has_fn q) fs
  unfolding ready_shared count has_fn
  waiting-ready_shared x ret [] = refl
  waiting-ready_shared x ret (f ∷ fs) = ground (arith, waiting-ready_shared x ret fs)

  take_task-waiting :
      (p p' : ThPoolBack E B R) (i : ℕ) (queue : List (Task E))
      → take_task p i queue ≡ some p'
      → waiting p' ≡ waiting p
  unfolding take_task waiting
  take_task-waiting p p' i [] e = cc
  take_task-waiting p p' i (task ∷ queue) e = ap waiting (sym (some-injective _ _ e))

  phase_step-waiting :
      (p p' : ThPoolBack E B R) (i : ℕ) (phase : Phase E)
      → phase_step run p i phase ≡ some p'
      → waiting p' ≡ waiting p
  unfolding phase_step run_task mt_count waiting
  phase_step-waiting p p' i woken e = elim (if-eq p.locked none (some _) e) [
    | inl (locked, stuck) ↦ cc
    | inr (free, go) ↦ ap waiting (sym (some-injective _ _ go))
  ]
  phase_step-waiting p p' i asleep e = cc
  phase_step-waiting p p' i ended e = cc
  phase_step-waiting p p' i chosen e = elim (if-eq p.stop (some _) (take_task p i p.queue) e) [
    | inl (stopped, go) ↦ ap waiting (sym (some-injective _ _ go))
    | inr (goes_on, go) ↦ take_task-waiting p p' i p.queue go
  ]
  phase_step-waiting p p' i (running task) e =
      ap waiting (sym (some-injective _ _ e))
      ∙ waiting-ready_shared task.id (run task.entry) p.back.futs
  phase_step-waiting p p' i testing e = ap waiting (sym (some-injective _ _ e))
  phase_step-waiting p p' i sleepy e = ap waiting (sym (some-injective _ _ e))
  phase_step-waiting p p' i ran e = ap waiting (sym (some-injective _ _ e))
  phase_step-waiting p p' i counted e = ap waiting (sym (some-injective _ _ e))

  mt_step-waiting :
      (p p' : ThPoolBack E B R) (i : ℕ) → mt_step run p i ≡ some p' → waiting p' ≡ waiting p
  unfolding mt_step
  mt_step-waiting p p' i e =
      let (phase, at, step) = >>=-eq-some (get_elem? p.threads i) (phase_step run p i) e in
      phase_step-waiting p p' i phase step

  spurious_wake-waiting :
      (p p' : ThPoolBack E B R) (i : ℕ) → spurious_wake p i ≡ some p' → waiting p' ≡ waiting p
  unfolding spurious_wake waiting
  spurious_wake-waiting p p' i e =
      let (ys, woke, step) = >>=-eq-some (wake_at p.threads i) _ e in
      ap waiting (sym (some-injective _ _ step))

  notify_one-waiting :
      (p p' : ThPoolBack E B R) (i : ℕ) → notify_one p i ≡ some p' → waiting p' ≡ waiting p
  unfolding notify_one waiting
  notify_one-waiting p p' i e = elim (if-eq (some_asleep p.threads) _ _ e) [
    | inl (sleeps, g) ↦
        let (ys, woke, step) = >>=-eq-some (wake_at p.threads i) _ g in
        ap waiting (sym (some-injective _ _ step))
    | inr (nobody, g) ↦ ap waiting (sym (some-injective _ _ g))
  ]

  Added-waiting :
      (p p' : ThPoolBack E B R) (entry : Option E) (back_fn : Option B) (ok : Bool)
      → ((p ≡ p') × (ok ≡ false)) ⊎ (Added p entry back_fn p' × (ok ≡ true))
      → waiting p' ≡ waiting p + count (new_fn q) (accepted entry back_fn ok)
  unfolding accepted count new_fn has_fn waiting add_task
  Added-waiting p p' none back_fn ok (inl (same, no_task)) = omega (arith, ap waiting same)
  Added-waiting p p' (some e) none ok (inl (same, no_task)) = omega (arith, ap waiting same)
  Added-waiting p p' (some e) (some fn) ok (inl (same, no_task)) =
      rw no_task (omega (arith, ap waiting same))
  Added-waiting p p' entry back_fn ok (inr (a, yes_task)) =
      let path : accepted entry back_fn ok ≡ (a.e, a.fn) ∷ [] =
        rw (a.some_entry, a.some_fn, yes_task) refl in
      omega (
        arith,
        ap waiting (sym a.adds),
        count-append (has_fn q) p.back.futs (
            record { ready = false; ret = none; back_fn = record { id = p.next_id; fn = a.fn } }
            ∷ []),
        ap (count (new_fn q)) path,
      )

  hdl-waiting :
      (p p' : ThPoolBack E B R) (main : Bool) (handled : List (FutBackFn (Shared B) R))
      → pool_hdl_done_fut p main ≡ (p', handled)
      → count (has_fn q) handled + waiting p' ≡ waiting p
  unfolding pool_hdl_done_fut count waiting
  hdl-waiting p p' true handled e =
      let r = hdl_done_fut (λ f. []) p.back true in
      let did = (hdl_done_fut_lem (λ f. []) p.back r.0 r.1 (has_fn q) refl).0 in
      omega (
        arith,
        did,
        ap (count (has_fn q)) (started-nothing r.1),
        ap (λ x. waiting x.0) e,
        ap (λ x. count (has_fn q) x.1) e,
      )
  hdl-waiting p p' false handled e =
      let idle = pool_hdl_done_fut-other p in
      omega
        (arith, ap (λ x. waiting x.0) (sym idle ∙ e), ap (λ x. count (has_fn q) x.1) (sym idle ∙ e))

  Step-waiting :
      {p p' : ThPoolBack E B R} {new : List (E × B)} {handled : List (FutBackFn (Shared B) R)}
      → Step run p new handled p'
      → count (has_fn q) handled + waiting p' ≡ waiting p + count (new_fn q) new
  unfolding count store_stop notify_all waiting
  Step-waiting (thread_step i e) = omega (arith, mt_step-waiting _ _ i e)
  Step-waiting (wakes i e) = omega (arith, spurious_wake-waiting _ _ i e)
  Step-waiting (new_task main entry back_fn ok out e) =
      omega
        (arith, Added-waiting _ _ entry back_fn ok (new_task_ok-cases _ _ main entry back_fn ok e))
  Step-waiting (limited main entry back_fn ok out e) = omega (
    arith,
    Added-waiting _ _ entry back_fn ok (limit_new_task_ok-cases _ _ main entry back_fn ok e),
  )
  Step-waiting (notifies i stage e) = omega (arith, notify_one-waiting _ _ i e)
  Step-waiting (handles main out e) = omega (arith, hdl-waiting _ _ main _ e)
  Step-waiting (stops out) = omega arith
  Step-waiting (notifies_all stage) = omega arith
  Step-waiting (joins stage e) = omega (arith, hdl-waiting _ _ true _ (join_all-some _ _ _ e).1)

  pub Steps-waiting :
      {p p' : ThPoolBack E B R} {new : List (E × B)} {handled : List (FutBackFn (Shared B) R)}
      → Steps run p new handled p'
      → count (has_fn q) handled + count (has_fn q) p'.back.futs
        ≡ count (has_fn q) p.back.futs + count (new_fn q) new
  unfolding count waiting
  Steps-waiting here = omega arith
  Steps-waiting (next {new = new} {new' = new'} {handled = hs} {handled' = hs'} steps step) =
      omega (
        arith,
        Steps-waiting steps,
        Step-waiting step,
        count-append (has_fn q) hs hs',
        count-append (new_fn q) new new',
      )
