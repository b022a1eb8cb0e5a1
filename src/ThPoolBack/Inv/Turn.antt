-- ===== src/ThPoolBack/Inv/Turn.antt =====
-- What a thread of thread/ThPoolBack.cpp that goes on to another phase changes in the invariant.
use domino_library.Prelude.{
  ℕ, ◌+◌, ◌≡◌, ◌≤◌, ◌⊎◌, ◌∙◌, Bool, true, false, List, [], ◌∷◌, some, length, is_empty, get_elem?,
  set, arith, length-set,
}
use domino_library.ThreadBack.{ThreadBack}
use domino_library.ThreadBack.Found.{count}
use domino_library.ThPoolBack.{Shared, Stage, Phase, testing, sleepy, chosen, ThPoolBack}
use domino_library.ThPoolBack.Calls.{is_ended}
use domino_library.ThPoolBack.Inv.{
  is_clean, bit, count-set, count-set_ge, holds, is_sleepy, is_chosen, is_active, Inv,
}

module _ {ℓ} {E : Type ℓ} where
  -- What a new phase of a thread changes in the counts
  pub record Turned (xs ys : List (Phase E)) (a b : Phase E) : Type 0 where
    pub held : count holds ys + bit (holds a) ≡ count holds xs + bit (holds b)
    pub drowsed : count is_sleepy ys + bit (is_sleepy a) ≡ count is_sleepy xs + bit (is_sleepy b)
    pub chose : count is_chosen ys + bit (is_chosen a) ≡ count is_chosen xs + bit (is_chosen b)
    pub left : count is_ended ys + bit (is_ended a) ≡ count is_ended xs + bit (is_ended b)
    pub acts : bit (is_active b) ≤ count is_active ys
    pub long : length ys ≡ length xs

  pub Turned-set :
      (xs : List (Phase E)) (i : ℕ) (a b : Phase E)
      → get_elem? xs i ≡ some a
      → Turned xs (set xs i b) a b
  Turned-set xs i a b h = record {
    held = count-set holds xs i a b h;
    drowsed = count-set is_sleepy xs i a b h;
    chose = count-set is_chosen xs i a b h;
    left = count-set is_ended xs i a b h;
    acts = count-set_ge is_active xs i a b h;
    long = length-set xs i b;
  }

  -- Who sleeps soon or has the wait behind it has the lock.
  pub drowsed-chose-le :
      (xs : List (Phase E)) → count is_sleepy xs + count is_chosen xs ≤ count holds xs
  unfolding count is_sleepy is_chosen holds
  drowsed-chose-le [] = omega arith
  drowsed-chose-le (sleepy ∷ xs) = omega (arith, drowsed-chose-le xs)
  drowsed-chose-le (chosen ∷ xs) = omega (arith, drowsed-chose-le xs)
  drowsed-chose-le (testing ∷ xs) = omega (arith, drowsed-chose-le xs)
  drowsed-chose-le (_ ∷ xs) = omega (arith, drowsed-chose-le xs)

module _ {ℓ κ υ} {E : Type ℓ} {B : Type κ} {R : Type υ} where
  -- A thread goes on from phase `a` to phase `b`, with the same queue and the same stop.
  pub turn-Inv :
      (p : ThPoolBack E B R) (ys : List (Phase E)) (back : ThreadBack (Shared B) R) (locked : Bool)
      (stage : Stage) (pings : ℕ) (a b : Phase E)
      → Turned p.threads ys a b
      → is_clean stage ≡ is_clean p.stage
      → bit locked + bit (holds a) ≡ bit p.locked + bit (holds b)
      → (is_sleepy b ≡ false) ⊎ (is_empty p.queue ≡ true)
      → (is_chosen b ≡ false) ⊎ ((is_empty p.queue ≡ false) ⊎ (p.stop ≡ true))
      → (is_ended b ≡ false) ⊎ (p.stop ≡ true)
      → (is_active b ≡ true) ⊎ ((is_empty p.queue ≡ true) ⊎ (p.stop ≡ true))
      → Inv p
      → Inv (record p { back = back; threads = ys; locked = locked; stage = stage; pings = pings })
  turn-Inv p ys back locked stage pings a b t same lock tired fed ends acts v = record {
    mutex = omega (arith, t.held, v.mutex, lock);
    drowsy = ground (arith, t.drowsed, v.drowsy);
    fed = ground (arith, t.chose, v.fed);
    alive = ground (arith, t.left, v.alive);
    staged = same ∙ v.staged;
    manned = omega (arith, t.long, v.manned);
    noticed = ground (arith, t.acts);
  }
