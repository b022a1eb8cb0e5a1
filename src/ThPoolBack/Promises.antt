-- ===== src/ThPoolBack/Promises.antt =====
-- What a user of the pool of thread/ThPoolBack.cpp relies on.
use domino_library.Prelude.{
  ℕ, ◌+◌, ◌≡◌, ◌<◌, refl, ap, Bool, true, List, [], ◌∷◌, Option, length, is_empty, arith,
}
use domino_library.ThreadBack.{FutBackFn, ThreadBack, hdl_done_fut, new_thread_back}
use domino_library.ThreadBack.Done.{hdl_done_fut_lem}
use domino_library.ThreadBack.Limit.{started-nothing, count-all}
use domino_library.ThreadBack.Found.{count, is_ready}
use domino_library.ThPoolBack.{Shared, outside, ThPoolBack, new_th_pool_back}
use domino_library.ThPoolBack.Calls.{pool_hdl_done_fut}
use domino_library.ThPoolBack.Run.{Steps, IsResting}
use domino_library.ThPoolBack.Inv.{is_active}
use domino_library.ThPoolBack.Inv.Reach.{new_th_pool_back-Inv, Steps-Inv}
use domino_library.ThPoolBack.Tasks.{count-le, unready, task_named, at_task, held, misfit}
use domino_library.ThPoolBack.Tasks.Reach.{unfit, new_th_pool_back-Tasks, Steps-Tasks}
use domino_library.ThPoolBack.Kept.{has_fn, new_fn, Steps-waiting}
use domino_library.ThPoolBack.Rest.{
  resting_idle, resting_queue, idle-done, handles_ready, none-unready, at_task-active,
}

is_empty-true {ℓ} : {A : Type ℓ} (xs : List A) → is_empty xs ≡ true → xs ≡ []
is_empty-true [] h = refl
is_empty-true (x ∷ xs) h = cc

length-zero {ℓ} : {A : Type ℓ} (xs : List A) → length xs ≡ 0 → xs ≡ []
length-zero [] h = refl
length-zero (x ∷ xs) h = absurd (omega arith)

-- If all futures are ready and none that stays is ready, none stays.
hdl_done_fut-all {κ υ} :
    {B : Type κ} {R : Type υ} (back back' : ThreadBack (Shared B) R)
    (handled : List (FutBackFn (Shared B) R))
    → count is_ready back.futs ≡ length back.futs
    → count is_ready back'.futs ≡ 0
    → hdl_done_fut (λ f. []) back true ≡ (back', handled)
    → back'.futs ≡ []
unfolding count is_ready
hdl_done_fut-all back back' handled full none_ready e =
    let did = hdl_done_fut_lem (λ f. []) back back' handled in
    let all = did (λ f. true) e in
    let ready = did is_ready e in
    let new = started-nothing handled in
    length-zero back'.futs (
      omega (
        arith,
        full,
        none_ready,
        all.0,
        ready.0,
        ready.1,
        ap (count (λ f. true)) new,
        ap (count is_ready) new,
        count-all back.futs,
        count-all back'.futs,
        count-all handled,
      ))

module _ {ℓ κ υ} {E : Type ℓ} {B : Type κ} {R : Type υ} (run : E → Option R) where
  -- Any test that accepts all
  pub any_fits : B → Option R → Bool
  any_fits fn ret = true

  pub all_fit : (new : List (E × B)) → count (unfit run any_fits) new ≡ 0
  unfolding count unfit any_fits
  all_fit [] = refl
  all_fit (x ∷ xs) = omega (arith, all_fit xs)

module _ {ℓ κ υ} {E : Type ℓ} {B : Type κ} {R : Type υ} (run : E → Option R)
    (default_thread default_task_q max_thread max_task_q : ℕ) where
  -- Through any steps of the threads and calls of the main thread from the constructor on, the tasks
  -- accepted are those whose back functions have been called and those that wait, counted by any
  -- test of the back function; and if each accepted task passes a test of its back function with
  -- what its entry function gives, each back function called got what passes the test.
  pub pool_calls_back :
      {p : ThPoolBack E B R} {new : List (E × B)} {handled : List (FutBackFn (Shared B) R)}
      (fits : B → Option R → Bool) (q : B → Bool)
      → Steps run
          (new_th_pool_back default_thread default_task_q max_thread max_task_q)
          new
          handled
          p
      → count (unfit run fits) new ≡ 0
      → (count (has_fn q) handled + count (has_fn q) p.back.futs ≡ count (new_fn q) new)
        × (count (misfit fits) handled ≡ 0)
  unfolding count new_th_pool_back new_thread_back
  pool_calls_back fits q steps good =
      let start =
        new_th_pool_back-Tasks run fits default_thread default_task_q max_thread max_task_q in
      (omega (arith, Steps-waiting run q steps), (Steps-Tasks run fits steps good start).1)

  -- In any course from the constructor on, when the main thread is outside of the pool and no pool
  -- thread can take a step, the queue is empty, and `hdlDoneFut` in the main thread leaves no task
  -- that waits and a count of 0.
  pub pool_rests_done :
      {p : ThPoolBack E B R} {new : List (E × B)} {handled : List (FutBackFn (Shared B) R)}
      → 0 < default_thread
      → Steps run
          (new_th_pool_back default_thread default_task_q max_thread max_task_q)
          new
          handled
          p
      → p.stage ≡ outside
      → IsResting run p
      → (p.queue ≡ [])
        × ((pool_hdl_done_fut p true).0.back.futs ≡ [])
        × ((pool_hdl_done_fut p true).0.back.n_done ≡ 0)
  unfolding pool_hdl_done_fut any_fits held count
  pool_rests_done {p = p} {new = new} pos steps out rest =
      let v =
        Steps-Inv run steps
          (new_th_pool_back-Inv run default_thread default_task_q max_thread max_task_q pos) in
      let t =
        (Steps-Tasks run (any_fits run) steps (all_fit run new) (
          new_th_pool_back-Tasks run (any_fits run) default_thread default_task_q max_thread
            max_task_q)).0 in
      let idle = resting_idle run p v rest in
      let empty = is_empty-true p.queue (resting_queue run (any_fits run) p v out idle) in
      let nothing : (x : ℕ) → count (unready x) p.back.futs ≡ 0 = λ x. omega (
        arith,
        t.pending x,
        ap (count (task_named x)) empty,
        idle,
        count-le (at_task (task_named x)) is_active p.threads (at_task-active (task_named x)),
      ) in
      let r = hdl_done_fut (λ f. []) p.back true in
      let done =
        handles_ready run (any_fits run) p.back r.0 r.1 (idle-done run (any_fits run) p t idle)
          refl in
      let all = hdl_done_fut-all p.back r.0 r.1 (none-unready p.back.futs nothing) done.1 refl in
      (empty, all, done.0)
