-- ===== src/ThPoolBack/Inv/Reach.antt =====
-- The invariant holds of the pool of thread/ThPoolBack.cpp from its constructor on.
use domino_library.Prelude.{
  ℕ, zero, suc, ◌≡◌, ◌<◌, refl, inl, inr, subst, Bool, false, List, Option, if◌then◌else◌, ◌==◌,
  arith, replicate, length-replicate,
}
use domino_library.ThreadBack.{FutBackFn}
use domino_library.ThreadBack.Found.{count}
use domino_library.ThPoolBack.{Shared, Phase, woken, outside, ThPoolBack, new_th_pool_back}
use domino_library.ThPoolBack.Calls.{is_ended}
use domino_library.ThPoolBack.Cases.{Added, new_task_ok-cases, limit_new_task_ok-cases}
use domino_library.ThPoolBack.Run.{
  Step, thread_step, wakes, new_task, limited, notifies, handles, stops, notifies_all, joins, Steps,
  here, next,
}
use domino_library.ThPoolBack.Inv.{holds, is_sleepy, is_chosen, is_clean, Inv}
use domino_library.ThPoolBack.Inv.Thread.{mt_step-Inv}
use domino_library.ThPoolBack.Inv.Wake.{spurious_wake-Inv, notify_one-Inv}
use domino_library.ThPoolBack.Inv.Main.{
  add_task-Inv, store_stop-Inv, notify_all-Inv, handles-Inv, join_all-Inv,
}

pub count-replicate {ℓ} :
    {A : Type ℓ} (q : A → Bool) (n : ℕ) (a : A) → q a ≡ false → count q (replicate n a) ≡ 0
unfolding count
count-replicate q zero a h = refl
count-replicate q (suc n) a h = ground (arith, count-replicate q n a h)

module _ {ℓ κ υ} {E : Type ℓ} {B : Type κ} {R : Type υ} (run : E → Option R) where
  pub new_th_pool_back-Inv :
      (default_thread default_task_q max_thread max_task_q : ℕ)
      → 0 < default_thread
      → Inv (
          new_th_pool_back {E = E} {B = B} {R = R} default_thread default_task_q max_thread
            max_task_q)
  unfolding new_th_pool_back holds is_sleepy is_chosen is_ended is_clean
  new_th_pool_back-Inv default_thread default_task_q max_thread max_task_q h =
      let n = if max_thread == 0 then default_thread else max_thread in
      record {
        mutex = count-replicate holds n woken refl;
        drowsy = inl (count-replicate is_sleepy n woken refl);
        fed = inl (count-replicate is_chosen n woken refl);
        alive = inl (count-replicate is_ended n woken refl);
        staged = refl;
        manned =
            let woken_thread : Phase E = woken in
            let some_threads : 0 < n = ground arith in
            omega (arith, length-replicate n woken_thread, some_threads);
        noticed = inr (inl refl);
      }

  Added-Inv :
      (p p' : ThPoolBack E B R) (entry : Option E) (back_fn : Option B)
      → p.stage ≡ outside
      → Added p entry back_fn p'
      → Inv p
      → Inv p'
  Added-Inv p p' entry back_fn out a v = subst Inv a.adds (add_task-Inv p a.e a.fn out a.free v)

  Step-Inv :
      {p p' : ThPoolBack E B R} {new : List (E × B)} {handled : List (FutBackFn (Shared B) R)}
      → Step run p new handled p'
      → Inv p
      → Inv p'
  Step-Inv (thread_step i e) v = mt_step-Inv run _ i e v
  Step-Inv (wakes i e) v = spurious_wake-Inv _ _ i e v
  Step-Inv (new_task main entry back_fn ok out e) v =
      elim (new_task_ok-cases _ _ main entry back_fn ok e) [
        | inl (same, no_task) ↦ subst Inv same v
        | inr (a, yes_task) ↦ Added-Inv _ _ entry back_fn out a v
      ]
  Step-Inv (limited main entry back_fn ok out e) v =
      elim (limit_new_task_ok-cases _ _ main entry back_fn ok e) [
        | inl (same, no_task) ↦ subst Inv same v
        | inr (a, yes_task) ↦ Added-Inv _ _ entry back_fn out a v
      ]
  Step-Inv (notifies i stage e) v = notify_one-Inv _ _ i stage e v
  Step-Inv (handles main out e) v = handles-Inv _ _ main _ e v
  Step-Inv (stops out) v = store_stop-Inv _ v
  Step-Inv (notifies_all stage) v = notify_all-Inv _ stage v
  Step-Inv (joins stage e) v = join_all-Inv _ _ _ stage e v

  pub Steps-Inv :
      {p p' : ThPoolBack E B R} {new : List (E × B)} {handled : List (FutBackFn (Shared B) R)}
      → Steps run p new handled p'
      → Inv p
      → Inv p'
  Steps-Inv here v = v
  Steps-Inv (next steps step) v = Step-Inv step (Steps-Inv steps v)
