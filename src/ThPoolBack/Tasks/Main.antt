-- ===== src/ThPoolBack/Tasks/Main.antt =====
-- The calls of the main thread of thread/ThPoolBack.cpp lose no task.
use domino_library.Prelude.{
  ℕ, ◌+◌, ◌≡◌, ◌≤◌, refl, sym, ◌∙◌, ap, subst, Bool, true, false, List, [], ◌∷◌, ◌++◌, Option, none,
  some, if◌then◌else◌, arith,
}
use domino_library.ThreadBack.{FutBackFn, ThreadBack, hdl_done_fut}
use domino_library.ThreadBack.Found.{count, count-append, is_ready}
use domino_library.ThreadBack.Done.{hdl_done_fut_lem}
use domino_library.ThreadBack.Limit.{started-nothing}
use domino_library.ThPoolBack.{Task, Shared, Phase, running, woken, asleep, ThPoolBack}
use domino_library.ThPoolBack.Calls.{add_task, wake_at, wake_all, pool_hdl_done_fut}
use domino_library.ThPoolBack.Cases.{wake_at-some, pool_hdl_done_fut-other}
use domino_library.ThPoolBack.Inv.{bit}
use domino_library.ThPoolBack.Inv.Wake.{count-wake_all}
use domino_library.ThPoolBack.Tasks.{
  count-cover, count-le, count-length, named, unready, task_named, at_task, is_ran, held, misfit,
  foreign, is_bad, Tasks,
}
use domino_library.ThPoolBack.Tasks.Thread.{OfPool, same-Tasks, set-Tasks}

at_task-cover {ℓ} :
    {E : Type ℓ} (q a b : Task E → Bool)
    → ((u : Task E) → bit (q u) ≤ bit (a u) + bit (b u))
    → (phase : Phase E) → bit (at_task q phase) ≤ bit (at_task a phase) + bit (at_task b phase)
unfolding at_task
at_task-cover q a b h (running task) = h task
at_task-cover q a b h asleep = omega arith
at_task-cover q a b h _ = omega arith

at_task-le {ℓ} :
    {E : Type ℓ} (q a : Task E → Bool)
    → ((u : Task E) → bit (q u) ≤ bit (a u))
    → (phase : Phase E) → bit (at_task q phase) ≤ bit (at_task a phase)
unfolding at_task
at_task-le q a h (running task) = h task
at_task-le q a h asleep = omega arith
at_task-le q a h _ = omega arith

module _ {ℓ κ υ} {E : Type ℓ} {B : Type κ} {R : Type υ} (run : E → Option R)
    (fits : B → Option R → Bool) where
  pub wake_at-Tasks :
      (p : ThPoolBack E B R) (i : ℕ) (ys : List (Phase E))
      → wake_at p.threads i ≡ some ys
      → OfPool run fits p
      → Tasks run fits p.back p.queue ys p.next_id
  unfolding at_task is_ran
  wake_at-Tasks p i ys e v =
      let (at, same) = wake_at-some p.threads ys i e in
      subst (λ zs. Tasks run fits p.back p.queue zs p.next_id) same
        (set-Tasks run fits p.back p.queue p.threads p.next_id i asleep woken at (λ q. refl) refl v)

  pub wake_all-Tasks :
      (p : ThPoolBack E B R)
      → OfPool run fits p
      → Tasks run fits p.back p.queue (wake_all p.threads) p.next_id
  unfolding held at_task is_ran
  wake_all-Tasks p v =
      same-Tasks run fits p.back p.queue p.queue p.threads (wake_all p.threads) p.next_id
        (λ q. omega (arith, count-wake_all (at_task q) p.threads refl))
        (count-wake_all is_ran p.threads refl) v

  pub add_task-Tasks :
      (p : ThPoolBack E B R) (entry : E) (fn : B)
      → fits fn (run entry) ≡ true
      → OfPool run fits p
      → OfPool run fits (add_task p entry fn)
  unfolding add_task held task_named unready named is_bad foreign misfit is_ready count
  add_task-Tasks p entry fn good v =
      let shared : Shared B = record { id = p.next_id; fn = fn } in
      let fut : FutBackFn (Shared B) R = record { ready = false; ret = none; back_fn = shared } in
      let task : Task E = record { id = p.next_id; entry = entry } in
      let futs = p.back.futs in
      let more = λ (q : FutBackFn (Shared B) R → Bool). count-append q futs (fut ∷ []) in
      let queued = λ (q : Task E → Bool). count-append q p.queue (task ∷ []) in
      let new : count (named p.next_id) futs ≡ 0 = v.fresh p.next_id (omega arith) in
      let none_waits : held (task_named p.next_id) p.queue p.threads ≡ 0 = omega (
        arith,
        v.pending p.next_id,
        new,
        count-le (unready p.next_id) (named p.next_id) futs (λ f. ground arith),
      ) in
      let bad = is_bad run fits futs in
      let bad' = is_bad run fits (futs ++ fut ∷ []) in
      let covered : (u : Task E) → bit (bad' u) ≤ bit (bad u) + bit (task_named p.next_id u) =
        λ u. ground (arith, more (foreign run fits u)) in
      let fine : bad' task ≡ false = ground (
        arith,
        good,
        new,
        more (foreign run fits task),
        count-le (foreign run fits task) (named p.next_id) futs (λ f. ground arith),
      ) in
      record {
        pending = λ x. ground (arith, v.pending x, more (unready x), queued (task_named x));
        unique = λ x. ground (arith, v.unique x, v.fresh x, more (named x));
        fresh = λ x h. ground (arith, v.fresh x, more (named x));
        done = omega (arith, v.done, more is_ready);
        own = omega (
          arith,
          v.own,
          none_waits,
          queued bad',
          ap (λ b. if◌then◌else◌ {A = ℕ} b 1 0) fine,
          count-cover bad' bad (task_named p.next_id) p.queue covered,
          count-cover (at_task bad') (at_task bad) (at_task (task_named p.next_id)) p.threads
              (at_task-cover bad' bad (task_named p.next_id) covered),
        );
        fit = omega (arith, v.fit, more (misfit fits));
      }

  -- What stays after `hdlDoneFut`, and what it handled
  hdl_done_fut-Tasks :
      (back back' : ThreadBack (Shared B) R) (handled : List (FutBackFn (Shared B) R))
      (queue : List (Task E)) (threads : List (Phase E)) (n : ℕ)
      → hdl_done_fut (λ f. []) back true ≡ (back', handled)
      → Tasks run fits back queue threads n
      → Tasks run fits back' queue threads n × (count (misfit fits) handled ≡ 0)
  unfolding held named unready is_bad is_ready count
  hdl_done_fut-Tasks back back' handled queue threads n e v =
      let did = hdl_done_fut_lem (λ f. []) back back' handled in
      let split : (q : FutBackFn (Shared B) R → Bool)
          → count q back.futs ≡ count q handled + count q back'.futs =
        λ q. omega (arith, (did q e).0, ap (count q) (started-nothing handled)) in
      let full = (did is_ready e).1 in
      let bad = is_bad run fits back.futs in
      let bad' = is_bad run fits back'.futs in
      let fewer : (u : Task E) → bit (bad' u) ≤ bit (bad u) =
        λ u. ground (arith, split (foreign run fits u)) in
      (
        record {
          pending = λ x.
              let none_handled =
                count-length (unready x) is_ready handled (λ f. ground arith) full in
              omega (arith, v.pending x, split (unready x), none_handled);
          unique = λ x. omega (arith, v.unique x, split (named x));
          fresh = λ x h. omega (arith, v.fresh x h, split (named x));
          done = omega (arith, v.done, split is_ready, full, (did is_ready e).2);
          own = omega (
            arith,
            v.own,
            count-le bad' bad queue fewer,
            count-le (at_task bad') (at_task bad) threads (at_task-le bad' bad fewer),
          );
          fit = omega (arith, v.fit, split (misfit fits));
        },
        omega (arith, v.fit, split (misfit fits)),
      )

  -- `hdlDoneFut` of the pool: in another thread it does nothing.
  pub pool_hdl_done_fut-Tasks :
      (p p' : ThPoolBack E B R) (main : Bool) (handled : List (FutBackFn (Shared B) R))
      → pool_hdl_done_fut p main ≡ (p', handled)
      → OfPool run fits p
      → OfPool run fits p' × (count (misfit fits) handled ≡ 0)
  unfolding pool_hdl_done_fut count
  pool_hdl_done_fut-Tasks p p' true handled e v =
      let r = hdl_done_fut (λ f. []) p.back true in
      let (kept, fit) = hdl_done_fut-Tasks p.back r.0 r.1 p.queue p.threads p.next_id refl v in
      (
        subst (OfPool run fits) (ap (λ x. x.0) e) kept,
        sym (ap (λ x. count (misfit fits) x.1) e) ∙ fit,
      )
  pool_hdl_done_fut-Tasks p p' false handled e v =
      let idle = pool_hdl_done_fut-other p in
      (
        subst (OfPool run fits) (ap (λ x. x.0) (sym idle ∙ e)) v,
        sym (ap (λ x. count (misfit fits) x.1) (sym idle ∙ e)),
      )
