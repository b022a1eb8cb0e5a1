-- ===== src/ThPoolBack/Inv/Wake.antt =====
-- Threads of thread/ThPoolBack.cpp that wake keep the invariant.
use domino_library.Prelude.{
  ℕ, suc, ◌+◌, ◌≡◌, ◌∙◌, refl, inl, inr, sym, ap, subst, Bool, false, List, [], ◌∷◌, some,
  some-injective, if◌then◌else◌, length, get_elem?, set, arith, if-eq, >>=-eq-some,
}
use domino_library.ThreadBack.Found.{count}
use domino_library.ThPoolBack.{
  Phase, woken, testing, sleepy, asleep, chosen, running, ran, counted, ended, Stage, outside,
  to_notify, ThPoolBack,
}
use domino_library.ThPoolBack.Calls.{
  is_asleep, is_ended, some_asleep, wake_all, notify_one, spurious_wake, wake_at,
}
use domino_library.ThPoolBack.Cases.{wake_at-some}
use domino_library.ThPoolBack.Inv.{
  holds, is_sleepy, is_chosen, is_active, is_clean, is_to_notify, Inv,
}
use domino_library.ThPoolBack.Inv.Turn.{Turned-set, turn-Inv}

module _ {ℓ} {E : Type ℓ} where
  -- If no thread sleeps, each has something to do, is about to sleep or has ended.
  active-or :
      (xs : List (Phase E))
      → some_asleep xs ≡ false
      → count is_active xs + count is_sleepy xs + count is_ended xs ≡ length xs
  unfolding some_asleep count is_active is_sleepy is_ended
  active-or [] h = refl
  active-or (sleepy ∷ xs) h = omega (arith, active-or xs h)
  active-or (asleep ∷ xs) h = cc
  active-or (ended ∷ xs) h = omega (arith, active-or xs h)
  active-or (woken ∷ xs) h = omega (arith, active-or xs h)
  active-or (testing ∷ xs) h = omega (arith, active-or xs h)
  active-or (chosen ∷ xs) h = omega (arith, active-or xs h)
  active-or (running task ∷ xs) h = omega (arith, active-or xs h)
  active-or (ran ∷ xs) h = omega (arith, active-or xs h)
  active-or (counted ∷ xs) h = omega (arith, active-or xs h)

  -- Waking all changes no count but those of the sleepers and the active.
  pub count-wake_all :
      (q : Phase E → Bool) (xs : List (Phase E))
      → q woken ≡ q asleep
      → count q (wake_all xs) ≡ count q xs
  unfolding count wake_all is_asleep
  count-wake_all q [] h = refl
  count-wake_all q (asleep ∷ xs) h =
      rw h (ap (λ n. (if q asleep then 1 else 0) + n) (count-wake_all q xs h))
  count-wake_all q (_ ∷ xs) h = omega (arith, count-wake_all q xs h)

  pub length-wake_all : (xs : List (Phase E)) → length (wake_all xs) ≡ length xs
  unfolding wake_all
  length-wake_all [] = refl
  length-wake_all (x ∷ xs) = ap suc (length-wake_all xs)

module _ {ℓ κ υ} {E : Type ℓ} {B : Type κ} {R : Type υ} where
  woken-Inv :
      (p : ThPoolBack E B R) (i : ℕ) (stage : Stage)
      → get_elem? p.threads i ≡ some asleep
      → is_clean stage ≡ is_clean p.stage
      → Inv p
      → Inv (record p { threads = set p.threads i woken; stage = stage })
  unfolding holds is_sleepy is_chosen is_ended is_active
  woken-Inv p i stage at same v =
      turn-Inv p _ p.back p.locked stage p.pings asleep woken
        (Turned-set p.threads i asleep woken at) same refl (inl refl) (inl refl) (inl refl)
        (inl refl) v

  pub spurious_wake-Inv :
      (p p' : ThPoolBack E B R) (i : ℕ) → spurious_wake p i ≡ some p' → Inv p → Inv p'
  unfolding spurious_wake
  spurious_wake-Inv p p' i e v =
      let (ys, woke, step) = >>=-eq-some (wake_at p.threads i) _ e in
      let (at, same) = wake_at-some p.threads ys i woke in
      subst Inv (ap (λ zs. record p { threads = zs }) same ∙ some-injective _ _ step)
        (woken-Inv p i p.stage at refl v)

  rested-Inv :
      (p : ThPoolBack E B R)
      → some_asleep p.threads ≡ false
      → p.stage ≡ to_notify
      → Inv p
      → Inv (record p { stage = outside })
  unfolding is_clean is_to_notify
  rested-Inv p nobody stage v =
      let counts = active-or p.threads nobody in
      record {
        mutex = v.mutex;
        drowsy = v.drowsy;
        fed = v.fed;
        alive = v.alive;
        staged = ap is_clean (sym stage) ∙ v.staged;
        manned = v.manned;
        noticed = ground (arith, counts, v.drowsy, v.alive, v.manned);
      }

  pub notify_one-Inv :
      (p p' : ThPoolBack E B R) (i : ℕ)
      → p.stage ≡ to_notify
      → notify_one p i ≡ some p'
      → Inv p
      → Inv p'
  unfolding notify_one is_clean
  notify_one-Inv p p' i stage e v = elim (if-eq (some_asleep p.threads) _ _ e) [
    | inl (sleeps, g) ↦
        let (ys, woke, step) = >>=-eq-some (wake_at p.threads i) _ g in
        let (at, same) = wake_at-some p.threads ys i woke in
        subst Inv
          (ap (λ zs. record p { threads = zs; stage = outside }) same ∙ some-injective _ _ step)
          (woken-Inv p i outside at (ap is_clean (sym stage)) v)
    | inr (nobody, g) ↦ subst Inv (some-injective _ _ g) (rested-Inv p nobody stage v)
  ]
