-- ===== src/ThreadBack/Found.antt =====
-- The search of the loop of `hdlDoneFut` in thread/ThreadBack.cpp for the next ready future.
use domino_library.Prelude.{
  ℕ, zero, suc, ◌+◌, ◌≡◌, refl, sym, ◌∙◌, ap, subst, inl, inr, Bool, true, false, not, ◌&&◌, List,
  [], ◌∷◌, ◌++◌, Option, none, some, some-injective, if◌then◌else◌, arith, Bool-cases, Option-cases,
}
use domino_library.ThreadBack.{
  FutBackFn, last_or, drop_last, back_to_front, swap_erase_at, find_ready,
}

-- How many items pass a test
unfoldable pub count {ℓ} : {A : Type ℓ} → (A → Bool) → List A → ℕ
count p [] = 0
count p (x ∷ xs) = (if p x then 1 else 0) + count p xs

pub count-append {ℓ} :
    {A : Type ℓ} (p : A → Bool) (xs ys : List A) → count p (xs ++ ys) ≡ count p xs + count p ys
unfolding count
count-append p [] ys = omega arith
count-append p (x ∷ xs) ys = omega (arith, count-append p xs ys)

count-drop_last {ℓ} :
    {A : Type ℓ} (p : A → Bool) (x : A) (xs : List A)
    → (if p (last_or x xs) then 1 else 0) + count p (drop_last x xs)
      ≡ (if p x then 1 else 0) + count p xs
unfolding count last_or drop_last
count-drop_last p x [] = refl
count-drop_last p x (y ∷ ys) = omega (arith, count-drop_last p y ys)

count-back_to_front {ℓ} :
    {A : Type ℓ} (p : A → Bool) (xs : List A) → count p (back_to_front xs) ≡ count p xs
unfolding count back_to_front
count-back_to_front p [] = refl
count-back_to_front p (x ∷ xs) = count-drop_last p x xs

module _ {ℓ κ} {B : Type ℓ} {R : Type κ} where
  unfoldable pub is_ready : FutBackFn B R → Bool
  is_ready f = f.ready

  -- None of the first is ready
  unfoldable pub idle_before : ℕ → List (FutBackFn B R) → Bool
  idle_before zero fs = true
  idle_before (suc i) [] = true
  idle_before (suc i) (f ∷ fs) = not f.ready && idle_before i fs

  -- The task at an index, and what the swap-erase leaves
  pub record Found (futs : List (FutBackFn B R)) (j : ℕ) (task : FutBackFn B R) : Type (ℓ ⊔ κ) where
    pub was_ready : task.ready ≡ true
    pub counted :
        (p : FutBackFn B R → Bool)
        → count p futs ≡ (if p task then 1 else 0) + count p (swap_erase_at j futs)
    pub before : (more : List (FutBackFn B R)) → idle_before j (swap_erase_at j futs ++ more) ≡ true

  Found-skip :
      (f : FutBackFn B R) (fs : List (FutBackFn B R)) (j : ℕ) (task : FutBackFn B R)
      → f.ready ≡ false
      → Found fs j task
      → Found (f ∷ fs) (suc j) task
  unfolding idle_before swap_erase_at count
  Found-skip f fs j task unready found = record {
    was_ready = found.was_ready;
    counted = λ p. omega (arith, found.counted p);
    before = λ more. ground (arith, found.before more, unready);
  }

  Found-here :
      (f : FutBackFn B R) (fs : List (FutBackFn B R)) → f.ready ≡ true → Found (f ∷ fs) zero f
  unfolding idle_before swap_erase_at count
  Found-here f fs now = record {
    was_ready = now;
    counted = λ p. omega (arith, count-back_to_front p fs);
    before = λ more. refl;
  }

  Found-at :
      (futs : List (FutBackFn B R)) (j j' : ℕ) (task task' : FutBackFn B R)
      → Found futs j task
      → ◌≡◌ {A = Option (ℕ × FutBackFn B R)} (some (j, task)) (some (j', task'))
      → Found futs j' task'
  Found-at futs j j' task task' found e =
      let same = some-injective _ _ e in subst (λ x. Found futs x.0 x.1) same found

  find_ready-here :
      (f : FutBackFn B R) (fs : List (FutBackFn B R))
      → f.ready ≡ true
      → find_ready zero (f ∷ fs) ≡ some (zero, f)
  unfolding find_ready
  find_ready-here f fs now =
      ap
        (λ b.
          if b
          then some (zero, f)
          else elim (find_ready zero fs) [ none ↦ none | some r ↦ some (suc r.0, r.1) ])
        now

  pub find_ready-some :
      (i : ℕ) (futs : List (FutBackFn B R)) (j : ℕ) (task : FutBackFn B R)
      → find_ready i futs ≡ some (j, task)
      → idle_before i futs ≡ true
      → Found futs j task
  unfolding find_ready idle_before
  find_ready-some zero [] j task e idle = absurd (ground arith)
  find_ready-some (suc i) [] j task e idle = absurd (ground arith)
  find_ready-some zero (f ∷ fs) j task e idle = elim (Bool-cases f.ready) [
    | inl now ↦
        Found-at (f ∷ fs) zero j f task (Found-here f fs now) (sym (find_ready-here f fs now) ∙ e)
    | inr later ↦ elim (Option-cases (find_ready zero fs)) [
      | inl nothing ↦ absurd (ground arith)
      | inr ((k, t), found) ↦
          Found-at (f ∷ fs) (suc k) j t task
            (Found-skip f fs k t later (find_ready-some zero fs k t found refl))
            (rw (later, found) at e)
    ]
  ]
  find_ready-some (suc i) (f ∷ fs) j task e idle = elim (Option-cases (find_ready i fs)) [
    | inl nothing ↦ absurd (ground arith)
    | inr ((k, t), found) ↦
        Found-at (f ∷ fs) (suc k) j t task
          (Found-skip f fs k t (ground (arith, idle))
            (find_ready-some i fs k t found (ground (arith, idle))))
          (rw found at e)
  ]

  pub find_ready-none :
      (i : ℕ) (futs : List (FutBackFn B R))
      → find_ready i futs ≡ none
      → idle_before i futs ≡ true
      → count is_ready futs ≡ 0
  unfolding find_ready idle_before count is_ready
  find_ready-none zero [] e idle = refl
  find_ready-none (suc i) [] e idle = refl
  find_ready-none zero (f ∷ fs) e idle = elim (Bool-cases f.ready) [
    | inl now ↦ absurd (ground (arith, e, now))
    | inr later ↦ elim (Option-cases (find_ready zero fs)) [
      | inl nothing ↦ ground (arith, later, find_ready-none zero fs nothing refl)
      | inr ((k, t), found) ↦ absurd (ground arith)
    ]
  ]
  find_ready-none (suc i) (f ∷ fs) e idle = elim (Option-cases (find_ready i fs)) [
    | inl nothing ↦ ground (arith, idle, find_ready-none i fs nothing (ground (arith, idle)))
    | inr (r, found) ↦ absurd (ground arith)
  ]
