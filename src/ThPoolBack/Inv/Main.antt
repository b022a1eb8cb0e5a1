-- ===== src/ThPoolBack/Inv/Main.antt =====
-- The calls of the main thread of thread/ThPoolBack.cpp keep the invariant.
use domino_library.Prelude.{
  none, ◌≡◌, ◌∙◌, refl, inl, inr, sym, ap, subst, Bool, true, false, List, some, some-injective,
  arith, if-eq,
}
use domino_library.ThreadBack.{FutBackFn, ThreadBack}
use domino_library.ThreadBack.Found.{count}
use domino_library.ThPoolBack.{Shared, outside, to_notify_all, joining, over, ThPoolBack}
use domino_library.ThPoolBack.Calls.{
  is_ended, add_task, store_stop, notify_all, all_ended, pool_hdl_done_fut, join_all,
}
use domino_library.ThPoolBack.Inv.{bit, holds, is_sleepy, is_chosen, is_clean, is_to_notify, Inv}
use domino_library.ThPoolBack.Inv.Turn.{drowsed-chose-le}
use domino_library.ThPoolBack.Inv.Wake.{count-wake_all, length-wake_all}

module _ {ℓ κ υ} {E : Type ℓ} {B : Type κ} {R : Type υ} where
  pub add_task-Inv :
      (p : ThPoolBack E B R) (entry : E) (fn : B)
      → p.stage ≡ outside
      → p.locked ≡ false
      → Inv p
      → Inv (add_task p entry fn)
  unfolding add_task is_clean is_to_notify
  add_task-Inv p entry fn out free v =
      let alone = drowsed-chose-le p.threads in
      let nobody : count holds p.threads ≡ 0 = v.mutex ∙ ap bit free in
      record {
        mutex = v.mutex;
        drowsy = inl (omega (arith, alone, nobody));
        fed = inl (omega (arith, alone, nobody));
        alive = v.alive;
        staged = ap is_clean (sym out) ∙ v.staged;
        manned = v.manned;
        noticed = inr (inr (inl refl));
      }

  pub store_stop-Inv : (p : ThPoolBack E B R) → Inv p → Inv (store_stop p)
  unfolding store_stop is_clean
  store_stop-Inv p v = record {
    mutex = v.mutex;
    drowsy = v.drowsy;
    fed = inr (inr refl);
    alive = inr refl;
    staged = refl;
    manned = v.manned;
    noticed = inl refl;
  }

  pub notify_all-Inv : (p : ThPoolBack E B R) → p.stage ≡ to_notify_all → Inv p → Inv (notify_all p)
  unfolding notify_all is_clean holds is_sleepy is_chosen is_ended
  notify_all-Inv p stage v =
      let stopped : p.stop ≡ true = sym v.staged ∙ ap is_clean stage in
      record {
        mutex = count-wake_all holds p.threads refl ∙ v.mutex;
        drowsy = elim v.drowsy [
          | inl none_yet ↦ inl (count-wake_all is_sleepy p.threads refl ∙ none_yet)
          | inr empty ↦ inr empty
        ];
        fed = inr (inr stopped);
        alive = inr stopped;
        staged = sym stopped;
        manned = omega (arith, length-wake_all p.threads, v.manned);
        noticed = inl stopped;
      }

  back-Inv :
      (p : ThPoolBack E B R) (back : ThreadBack (Shared B) R)
      → Inv p
      → Inv (record p { back = back })
  back-Inv p back v = record {
    mutex = v.mutex;
    drowsy = v.drowsy;
    fed = v.fed;
    alive = v.alive;
    staged = v.staged;
    manned = v.manned;
    noticed = v.noticed;
  }

  over-Inv : (p : ThPoolBack E B R) → p.stage ≡ joining → Inv p → Inv (record p { stage = over })
  unfolding is_clean
  over-Inv p stage v =
      let stopped : p.stop ≡ true = sym v.staged ∙ ap is_clean stage in
      record {
        mutex = v.mutex;
        drowsy = v.drowsy;
        fed = v.fed;
        alive = v.alive;
        staged = sym stopped;
        manned = v.manned;
        noticed = inl stopped;
      }

  pub handles-Inv :
      (p p' : ThPoolBack E B R) (main : Bool) (handled : List (FutBackFn (Shared B) R))
      → pool_hdl_done_fut p main ≡ (p', handled)
      → Inv p
      → Inv p'
  unfolding pool_hdl_done_fut
  handles-Inv p p' main handled e v = subst Inv (ap (λ x. x.0) e) (back-Inv p _ v)

  -- Joined: every thread has ended, and `hdlDoneFut` has run.
  pub join_all-some :
      (p p' : ThPoolBack E B R) (handled : List (FutBackFn (Shared B) R))
      → join_all p ≡ some (p', handled)
      → (all_ended p.threads ≡ true)
        × (pool_hdl_done_fut (record p { stage = over }) true ≡ (p', handled))
  unfolding join_all
  join_all-some p p' handled e = elim (if-eq (all_ended p.threads) _ none e) [
    | inl (ends, g) ↦ (ends, some-injective _ _ g)
    | inr (waits, g) ↦ cc
  ]

  pub join_all-Inv :
      (p p' : ThPoolBack E B R) (handled : List (FutBackFn (Shared B) R))
      → p.stage ≡ joining
      → join_all p ≡ some (p', handled)
      → Inv p
      → Inv p'
  join_all-Inv p p' handled stage e v =
      handles-Inv (record p { stage = over }) p' true handled (join_all-some p p' handled e).1
        (over-Inv p stage v)
