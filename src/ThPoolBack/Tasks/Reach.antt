-- ===== src/ThPoolBack/Tasks/Reach.antt =====
-- No task of the pool of thread/ThPoolBack.cpp is lost, in any course from its constructor on.
use domino_library.Prelude.{
  ℕ, ◌≡◌, ◌⊎◌, refl, sym, ◌∙◌, ap, inl, inr, subst, Bool, true, false, not, List, [], ◌∷◌, Option,
  some, some-injective, if◌then◌else◌, ◌==◌, arith, if-eq, >>=-eq-some,
}
use domino_library.ThreadBack.{FutBackFn, new_thread_back}
use domino_library.ThreadBack.Found.{count, count-append, is_ready}
use domino_library.ThPoolBack.{Shared, Phase, woken, ThPoolBack, new_th_pool_back}
use domino_library.ThPoolBack.Calls.{
  spurious_wake, notify_one, store_stop, notify_all, some_asleep, wake_at,
}
use domino_library.ThPoolBack.Cases.{Added, new_task_ok-cases, limit_new_task_ok-cases}
use domino_library.ThPoolBack.Run.{
  accepted, Step, thread_step, wakes, new_task, limited, notifies, handles, stops, notifies_all,
  joins, Steps, here, next,
}
use domino_library.ThPoolBack.Inv.Main.{join_all-some}
use domino_library.ThPoolBack.Inv.Reach.{count-replicate}
use domino_library.ThPoolBack.Tasks.{
  named, unready, task_named, at_task, is_ran, held, misfit, is_bad,
}
use domino_library.ThPoolBack.Tasks.Thread.{OfPool, mt_step-Tasks}
use domino_library.ThPoolBack.Tasks.Main.{
  wake_at-Tasks, wake_all-Tasks, add_task-Tasks, pool_hdl_done_fut-Tasks,
}

module _ {ℓ κ υ} {E : Type ℓ} {B : Type κ} {R : Type υ} (run : E → Option R)
    (fits : B → Option R → Bool) where
  -- A new task whose back function does not fit what its entry function gives
  unfoldable pub unfit : E × B → Bool
  unfit task = not (fits task.1 (run task.0))

  pub new_th_pool_back-Tasks :
      (default_thread default_task_q max_thread max_task_q : ℕ)
      → OfPool run fits (new_th_pool_back default_thread default_task_q max_thread max_task_q)
  unfolding new_th_pool_back new_thread_back held count at_task is_ran named unready misfit is_ready
  new_th_pool_back-Tasks default_thread default_task_q max_thread max_task_q =
      let n = if max_thread == 0 then default_thread else max_thread in
      let w : Phase E = woken in
      record {
        pending = λ x. sym (omega (arith, count-replicate (at_task (task_named x)) n w refl));
        unique = λ x. omega arith;
        fresh = λ x h. refl;
        done = omega (arith, count-replicate is_ran n w refl);
        own = omega (arith, count-replicate (at_task (is_bad run fits [])) n w refl);
        fit = refl;
      }

  Added-Tasks :
      (p p' : ThPoolBack E B R) (entry : Option E) (back_fn : Option B) (ok : Bool)
      → count unfit (accepted entry back_fn ok) ≡ 0
      → ((p ≡ p') × (ok ≡ false)) ⊎ (Added p entry back_fn p' × (ok ≡ true))
      → OfPool run fits p
      → OfPool run fits p'
  unfolding accepted count unfit
  Added-Tasks p p' entry back_fn ok good (inl (same, no_task)) v = subst (OfPool run fits) same v
  Added-Tasks p p' entry back_fn ok good (inr (a, yes_task)) v =
      let path : accepted entry back_fn ok ≡ (a.e, a.fn) ∷ [] =
        rw (a.some_entry, a.some_fn, yes_task) refl in
      let fine : fits a.fn (run a.e) ≡ true = ground (arith, sym (ap (count unfit) path) ∙ good) in
      subst (OfPool run fits) a.adds (add_task-Tasks run fits p a.e a.fn fine v)

  spurious_wake-Tasks :
      (p p' : ThPoolBack E B R) (i : ℕ)
      → spurious_wake p i ≡ some p'
      → OfPool run fits p
      → OfPool run fits p'
  unfolding spurious_wake
  spurious_wake-Tasks p p' i e v =
      let (ys, woke, step) = >>=-eq-some (wake_at p.threads i) _ e in
      subst (OfPool run fits) (some-injective _ _ step) (wake_at-Tasks run fits p i ys woke v)

  notify_one-Tasks :
      (p p' : ThPoolBack E B R) (i : ℕ)
      → notify_one p i ≡ some p'
      → OfPool run fits p
      → OfPool run fits p'
  unfolding notify_one
  notify_one-Tasks p p' i e v = elim (if-eq (some_asleep p.threads) _ _ e) [
    | inl (sleeps, g) ↦
        let (ys, woke, step) = >>=-eq-some (wake_at p.threads i) _ g in
        subst (OfPool run fits) (some-injective _ _ step) (wake_at-Tasks run fits p i ys woke v)
    | inr (nobody, g) ↦ subst (OfPool run fits) (some-injective _ _ g) v
  ]

  pub notify_all-Tasks : (p : ThPoolBack E B R) → OfPool run fits p → OfPool run fits (notify_all p)
  unfolding notify_all
  notify_all-Tasks p v = wake_all-Tasks run fits p v

  store_stop-Tasks : (p : ThPoolBack E B R) → OfPool run fits p → OfPool run fits (store_stop p)
  unfolding store_stop
  store_stop-Tasks p v = v

  Step-Tasks :
      {p p' : ThPoolBack E B R} {new : List (E × B)} {handled : List (FutBackFn (Shared B) R)}
      → Step run p new handled p'
      → count unfit new ≡ 0
      → OfPool run fits p
      → OfPool run fits p' × (count (misfit fits) handled ≡ 0)
  unfolding count
  Step-Tasks (thread_step i e) good v = (mt_step-Tasks run fits _ _ i e v, refl)
  Step-Tasks (wakes i e) good v = (spurious_wake-Tasks _ _ i e v, refl)
  Step-Tasks (new_task main entry back_fn ok out e) good v = (
    Added-Tasks _ _ entry back_fn ok good (new_task_ok-cases _ _ main entry back_fn ok e) v,
    refl,
  )
  Step-Tasks (limited main entry back_fn ok out e) good v = (
    Added-Tasks _ _ entry back_fn ok good (limit_new_task_ok-cases _ _ main entry back_fn ok e) v,
    refl,
  )
  Step-Tasks (notifies i stage e) good v = (notify_one-Tasks _ _ i e v, refl)
  Step-Tasks (handles main out e) good v = pool_hdl_done_fut-Tasks run fits _ _ main _ e v
  Step-Tasks (stops out) good v = (store_stop-Tasks _ v, refl)
  Step-Tasks (notifies_all stage) good v = (notify_all-Tasks _ v, refl)
  Step-Tasks (joins stage e) good v =
      pool_hdl_done_fut-Tasks run fits _ _ true _ (join_all-some _ _ _ e).1 v

  pub Steps-Tasks :
      {p p' : ThPoolBack E B R} {new : List (E × B)} {handled : List (FutBackFn (Shared B) R)}
      → Steps run p new handled p'
      → count unfit new ≡ 0
      → OfPool run fits p
      → OfPool run fits p' × (count (misfit fits) handled ≡ 0)
  unfolding count
  Steps-Tasks here good v = (v, refl)
  Steps-Tasks (next {new = new} {new' = new'} {handled = hs} {handled' = hs'} steps step) good v =
      let two = count-append unfit new new' in
      let (kept, fit) = Steps-Tasks steps (omega (arith, two, good)) v in
      let (kept', fit') = Step-Tasks step (omega (arith, two, good)) kept in
      (kept', omega (arith, count-append (misfit fits) hs hs', fit, fit'))
