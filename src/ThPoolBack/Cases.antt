-- ===== src/ThPoolBack/Cases.antt =====
-- What the calls of thread/ThPoolBack.cpp by the main thread can do.
use domino_library.Prelude.{
  [], ℕ, ◌≡◌, ◌∙◌, ◌⊎◌, refl, inl, inr, sym, ap, Bool, true, false, not, List, Option, none, some,
  some-injective, if◌then◌else◌, leb, set, get_elem?, if-eq, Option-cases,
}
use domino_library.ThreadBack.{hdl_done_fut, n_fut, base_new_task_ok}
use domino_library.ThPoolBack.{
  Phase, woken, testing, sleepy, asleep, chosen, running, ran, counted, ended, ThPoolBack,
}
use domino_library.ThPoolBack.Calls.{
  is_asleep, wake_at, add_task, new_task_ok, limit_new_task_ok, pool_hdl_done_fut,
}

module _ {ℓ} {E : Type ℓ} where
  is_asleep-true : (phase : Phase E) → is_asleep phase ≡ true → phase ≡ asleep
  unfolding is_asleep
  is_asleep-true asleep h = refl
  is_asleep-true woken h = cc
  is_asleep-true testing h = cc
  is_asleep-true sleepy h = cc
  is_asleep-true chosen h = cc
  is_asleep-true (running task) h = cc
  is_asleep-true ran h = cc
  is_asleep-true counted h = cc
  is_asleep-true ended h = cc

  -- A thread that is woken slept.
  pub wake_at-some :
      (xs ys : List (Phase E)) (i : ℕ)
      → wake_at xs i ≡ some ys
      → (get_elem? xs i ≡ some asleep) × (set xs i woken ≡ ys)
  unfolding wake_at
  wake_at-some xs ys i e = elim (Option-cases (get_elem? xs i)) [
    | inl nobody ↦ let stuck : wake_at xs i ≡ none = rw (wake_at, nobody) refl in cc
    | inr (phase, at) ↦
        let step : wake_at xs i ≡ (if is_asleep phase then some (set xs i woken) else none) =
          rw (wake_at, at) refl in
        elim (if-eq (is_asleep phase) (some (set xs i woken)) none (sym step ∙ e)) [
          | inl (slept, woke) ↦ (rw (at, is_asleep-true phase slept) refl, some-injective _ _ woke)
          | inr (awake, stuck) ↦ cc
        ]
  ]

module _ {ℓ κ υ} {E : Type ℓ} {B : Type κ} {R : Type υ} where
  -- A call is refused, or its task is added while no thread has the lock.
  pub record Added (p : ThPoolBack E B R) (entry : Option E) (back_fn : Option B)
      (p' : ThPoolBack E B R) : Type (ℓ ⊔ κ ⊔ υ) where
    pub e : E
    pub fn : B
    pub some_entry : entry ≡ some e
    pub some_fn : back_fn ≡ some fn
    pub free : p.locked ≡ false
    pub adds : add_task p e fn ≡ p'

  refused :
      (p p' : ThPoolBack E B R) (ok : Bool)
      → ◌≡◌ {A = Option (ThPoolBack E B R × Bool)} (some (p, false)) (some (p', ok))
      → (p ≡ p') × (ok ≡ false)
  refused p p' ok e =
      (ap (λ x. x.0) (some-injective _ _ e), sym (ap (λ x. x.1) (some-injective _ _ e)))

  pub new_task_ok-cases :
      (p p' : ThPoolBack E B R) (main : Bool) (entry : Option E) (back_fn : Option B) (ok : Bool)
      → new_task_ok p main entry back_fn ≡ some (p', ok)
      → ((p ≡ p') × (ok ≡ false)) ⊎ (Added p entry back_fn p' × (ok ≡ true))
  unfolding new_task_ok
  new_task_ok-cases p p' main none back_fn ok h = inl (refused p p' ok h)
  new_task_ok-cases p p' main (some e) none ok h = inl (refused p p' ok h)
  new_task_ok-cases p p' main (some e) (some fn) ok h =
      elim (if-eq (not (base_new_task_ok main true (some fn))) (some (p, false)) _ h) [
        | inl (bad_call, g) ↦ inl (refused p p' ok g)
        | inr (fine, g) ↦ elim (if-eq p.locked none (some (add_task p e fn, true)) g) [
          | inl (held, stuck) ↦ cc
          | inr (free, added) ↦ inr (
            record {
              e = e;
              fn = fn;
              some_entry = refl;
              some_fn = refl;
              free = free;
              adds = ap (λ x. x.0) (some-injective _ _ added);
            },
            sym (ap (λ x. x.1) (some-injective _ _ added)),
          )
        ]
      ]

  pub limit_new_task_ok-cases :
      (p p' : ThPoolBack E B R) (main : Bool) (entry : Option E) (back_fn : Option B) (ok : Bool)
      → limit_new_task_ok p main entry back_fn ≡ some (p', ok)
      → ((p ≡ p') × (ok ≡ false)) ⊎ (Added p entry back_fn p' × (ok ≡ true))
  unfolding limit_new_task_ok
  limit_new_task_ok-cases p p' main entry back_fn ok h =
      elim (if-eq (not main) (some (p, false)) _ h) [
        | inl (other_thread, g) ↦ inl (refused p p' ok g)
        | inr (on_main, g) ↦
            elim (if-eq (leb p.back.max_parallel (n_fut p.back)) (some (p, false)) _ g) [
              | inl (reached, g') ↦ inl (refused p p' ok g')
              | inr (room, g') ↦ new_task_ok-cases p p' main entry back_fn ok g'
            ]
      ]

  pub pool_hdl_done_fut-other : (p : ThPoolBack E B R) → pool_hdl_done_fut p false ≡ (p, [])
  unfolding pool_hdl_done_fut hdl_done_fut
  pool_hdl_done_fut-other p = refl
