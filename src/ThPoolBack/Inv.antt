-- ===== src/ThPoolBack/Inv.antt =====
-- What holds of the lock, the sleep and the stop of the pool of thread/ThPoolBack.cpp between steps.
pub mod Turn
pub mod Thread
pub mod Wake
pub mod Main
pub mod Reach
use domino_library.Prelude.{
  ℕ, zero, suc, ◌+◌, ◌≡◌, ◌<◌, ◌≤◌, ◌⊎◌, Bool, true, false, List, [], ◌∷◌, some, length, is_empty,
  get_elem?, set, arith,
}
use domino_library.ThreadBack.Found.{count}
use domino_library.ThPoolBack.{
  Phase, testing, sleepy, asleep, chosen, ended, Stage, outside, to_notify, ThPoolBack,
}
use domino_library.ThPoolBack.Calls.{is_ended}

abbrev pub bit : Bool → ℕ
bit true = 1
bit false = 0

pub count-set {ℓ} :
    {A : Type ℓ} (q : A → Bool) (xs : List A) (i : ℕ) (x y : A)
    → get_elem? xs i ≡ some x
    → count q (set xs i y) + bit (q x) ≡ count q xs + bit (q y)
unfolding count
count-set q [] i x y h = cc
count-set q (z ∷ xs) zero x y h = ground arith
count-set q (z ∷ xs) (suc i) x y h = omega (arith, count-set q xs i x y h)

pub count-set_ge {ℓ} :
    {A : Type ℓ} (q : A → Bool) (xs : List A) (i : ℕ) (x y : A)
    → get_elem? xs i ≡ some x
    → bit (q y) ≤ count q (set xs i y)
unfolding count
count-set_ge q [] i x y h = cc
count-set_ge q (z ∷ xs) zero x y h = ground arith
count-set_ge q (z ∷ xs) (suc i) x y h = omega (arith, count-set_ge q xs i x y h)

pub count-pos {ℓ} :
    {A : Type ℓ} (q : A → Bool) (xs : List A) (i : ℕ) (x : A)
    → get_elem? xs i ≡ some x
    → q x ≡ true
    → 0 < count q xs
unfolding count
count-pos q [] i x h t = cc
count-pos q (z ∷ xs) zero x h t = ground arith
count-pos q (z ∷ xs) (suc i) x h t = omega (arith, count-pos q xs i x h t)

module _ {ℓ} {E : Type ℓ} where
  -- Has the lock
  unfoldable pub holds : Phase E → Bool
  holds phase = elim phase [ testing ↦ true | sleepy ↦ true | chosen ↦ true | _ ↦ false ]

  unfoldable pub is_sleepy : Phase E → Bool
  is_sleepy phase = elim phase [ sleepy ↦ true | _ ↦ false ]

  unfoldable pub is_chosen : Phase E → Bool
  is_chosen phase = elim phase [ chosen ↦ true | _ ↦ false ]

  -- Will come to the test of the queue without a call
  unfoldable pub is_active : Phase E → Bool
  is_active phase = elim phase [ sleepy ↦ false | asleep ↦ false | ended ↦ false | _ ↦ true ]

-- In `clean_` or after it
unfoldable pub is_clean : Stage → Bool
is_clean stage = elim stage [ outside ↦ false | to_notify ↦ false | _ ↦ true ]

unfoldable pub is_to_notify : Stage → Bool
is_to_notify stage = elim stage [ to_notify ↦ true | _ ↦ false ]

module _ {ℓ κ υ} {E : Type ℓ} {B : Type κ} {R : Type υ} where
  pub record Inv (p : ThPoolBack E B R) : Type 0 where
    pub mutex : count holds p.threads ≡ bit p.locked
    pub drowsy : (count is_sleepy p.threads ≡ 0) ⊎ (is_empty p.queue ≡ true)
    pub fed : (count is_chosen p.threads ≡ 0) ⊎ ((is_empty p.queue ≡ false) ⊎ (p.stop ≡ true))
    pub alive : (count is_ended p.threads ≡ 0) ⊎ (p.stop ≡ true)
    pub staged : is_clean p.stage ≡ p.stop
    pub manned : 0 < length p.threads
    pub noticed :
        (p.stop ≡ true)
        ⊎ ((is_empty p.queue ≡ true)
            ⊎ ((is_to_notify p.stage ≡ true) ⊎ (0 < count is_active p.threads)))
