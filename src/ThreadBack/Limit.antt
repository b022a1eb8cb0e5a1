-- ===== src/ThreadBack/Limit.antt =====
-- The number of tasks of thread/ThreadBack.cpp under `limitNewTaskOK`.
use domino_library.Prelude.{
  ℕ, zero, suc, ◌≡◌, ◌≤◌, ◌<◌, refl, sym, ap, subst, inl, inr, Bool, true, false, ◌&&◌, List, [],
  ◌∷◌, Option, none, some, leb, length, length-append, arith, Bool-cases,
}
use domino_library.ThreadBack.{
  FutBackFn, ThreadBack, n_fut, new_task_ok, limit_new_task_ok, mt_count, mt_ready, ready_at,
  hdl_done_fut,
}
use domino_library.ThreadBack.Found.{count}
use domino_library.ThreadBack.Done.{started, hdl_done_fut_lem}

-- What happens to the tasks, in any order, where back functions start no task: a limited new task,
-- the end of a task in its thread, and `hdlDoneFut`
pub data Event {ℓ κ} (B : Type ℓ) (R : Type κ) : Type (ℓ ⊔ κ) where
  limit_event : (main has_entry : Bool) → Option B → Event B R
  count_event : Event B R
  ready_event : ℕ → Option R → Event B R
  done_event : Bool → Event B R

module _ {ℓ κ} {B : Type ℓ} {R : Type κ} where
  unfoldable pub do_event : ThreadBack B R → Event B R → ThreadBack B R
  unfolding limit_new_task_ok mt_count mt_ready hdl_done_fut
  do_event tb (limit_event main has_entry back_fn) = (limit_new_task_ok tb main has_entry back_fn).0
  do_event tb count_event = mt_count tb
  do_event tb (ready_event i ret) = mt_ready tb i ret
  do_event tb (done_event main) = (hdl_done_fut (λ f. []) tb main).0

  unfoldable pub do_events : ThreadBack B R → List (Event B R) → ThreadBack B R
  unfolding do_event
  do_events tb [] = tb
  do_events tb (e ∷ es) = do_events (do_event tb e) es

  -- Within the limit
  Within : ThreadBack B R → ℕ → Type 0
  Within tb max = (tb.max_parallel ≡ max) × (n_fut tb ≤ max)

  new_task_ok-Within :
      (tb : ThreadBack B R) (main has_entry : Bool) (back_fn : Option B)
      → n_fut tb < tb.max_parallel
      → Within (new_task_ok tb main has_entry back_fn).0 tb.max_parallel
  unfolding new_task_ok Within
  new_task_ok-Within tb main has_entry none room = (refl, omega (arith, room))
  new_task_ok-Within tb main has_entry (some back_fn) room = elim (Bool-cases (main && has_entry)) [
    | inl ok ↦
        rw (new_task_ok, ok)
          (
            refl,
            omega (
              arith,
              room,
              length-append tb.futs (record { ready = false; ret = none; back_fn = back_fn } ∷ []),
            ),
          )
    | inr refused ↦ rw (new_task_ok, refused) (refl, omega (arith, room))
  ]

  limit_new_task_ok-Within :
      (tb : ThreadBack B R) (main has_entry : Bool) (back_fn : Option B) (max : ℕ)
      → Within tb max
      → Within (limit_new_task_ok tb main has_entry back_fn).0 max
  unfolding limit_new_task_ok Within
  limit_new_task_ok-Within tb main has_entry back_fn max w = elim (Bool-cases main) [
    | inr other_thread ↦ rw (limit_new_task_ok, other_thread) w
    | inl on_main ↦ elim (Bool-cases (leb tb.max_parallel (n_fut tb))) [
      | inl reached ↦ rw (limit_new_task_ok, on_main, reached) w
      | inr room ↦
          let small = new_task_ok-Within tb main has_entry back_fn (ground arith) in
          let path : limit_new_task_ok tb main has_entry back_fn
              ≡ new_task_ok tb main has_entry back_fn =
            rw (limit_new_task_ok, on_main, room) refl in
          subst (λ x. Within x.0 max) (sym path)
            (subst (Within (new_task_ok tb main has_entry back_fn).0) w.0 small)
    ]
  ]

  length-ready_at :
      (i : ℕ) (ret : Option R) (fs : List (FutBackFn B R)) → length (ready_at i ret fs) ≡ length fs
  unfolding ready_at
  length-ready_at i ret [] = refl
  length-ready_at zero ret (f ∷ fs) = refl
  length-ready_at (suc i) ret (f ∷ fs) = ap suc (length-ready_at i ret fs)

  pub started-nothing : (fs : List (FutBackFn B R)) → started (λ f. []) fs ≡ []
  unfolding started
  started-nothing [] = refl
  started-nothing (f ∷ fs) = started-nothing fs

  pub count-all : (fs : List (FutBackFn B R)) → count (λ f. true) fs ≡ length fs
  unfolding count
  count-all [] = refl
  count-all (f ∷ fs) = omega (arith, count-all fs)

  hdl_done_fut-Within :
      (tb : ThreadBack B R) (main : Bool) (max : ℕ)
      → Within tb max
      → Within (hdl_done_fut (λ f. []) tb main).0 max
  unfolding Within hdl_done_fut count
  hdl_done_fut-Within tb main max w = elim (Bool-cases main) [
    | inr other_thread ↦ rw (hdl_done_fut, other_thread) w
    | inl on_main ↦
        let r = hdl_done_fut (λ f. []) tb true in
        let kept = (hdl_done_fut_lem (λ f. []) tb r.0 r.1 (λ f. true) refl).0 in
        let none_new = ap (count (λ f. true)) (started-nothing r.1) in
        let fewer : n_fut r.0 ≤ n_fut tb =
          omega (arith, kept, none_new, count-all tb.futs, count-all r.0.futs, count-all r.1) in
        let path = ap (λ b. (hdl_done_fut (λ f. []) tb b).0) on_main in
        subst (λ x. Within x max) (sym path) (w.0, omega (arith, fewer, w.1))
  ]

  do_event-Within :
      (tb : ThreadBack B R) (e : Event B R) (max : ℕ) → Within tb max → Within (do_event tb e) max
  unfolding do_event mt_count mt_ready Within
  do_event-Within tb (limit_event main has_entry back_fn) max w =
      limit_new_task_ok-Within tb main has_entry back_fn max w
  do_event-Within tb count_event max w = w
  do_event-Within tb (ready_event i ret) max w =
      (w.0, omega (arith, w.1, length-ready_at i ret tb.futs))
  do_event-Within tb (done_event main) max w = hdl_done_fut-Within tb main max w

  do_events-Within :
      (tb : ThreadBack B R) (es : List (Event B R)) (max : ℕ)
      → Within tb max
      → Within (do_events tb es) max
  unfolding do_events
  do_events-Within tb [] max w = w
  do_events-Within tb (e ∷ es) max w =
      do_events-Within (do_event tb e) es max (do_event-Within tb e max w)

  -- Where tasks are started by `limitNewTaskOK` only, and back functions start no task, `nFut` stays
  -- within `maxParallel_`, if it was, through any new tasks, ends of tasks and calls of `hdlDoneFut`.
  pub do_events-limit :
      (tb : ThreadBack B R) (es : List (Event B R))
      → n_fut tb ≤ tb.max_parallel
      → n_fut (do_events tb es) ≤ tb.max_parallel
  unfolding Within
  do_events-limit tb es room = (do_events-Within tb es tb.max_parallel (refl, room)).1
