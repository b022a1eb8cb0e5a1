-- ===== src/ThPoolBack/Tasks.antt =====
-- Where the tasks of the pool of thread/ThPoolBack.cpp are, and what their back functions get.
pub mod Thread
pub mod Main
pub mod Reach
use domino_library.Prelude.{
  ℕ, zero, suc, ◌+◌, ◌≡◌, ◌<◌, ◌≤◌, ◌⊎◌, refl, sym, ◌∙◌, ap, inl, inr, Bool, true, false, not, ◌&&◌,
  List, [], ◌∷◌, ◌++◌, Option, none, some, if◌then◌else◌, ◌==◌, length, arith, Bool-cases,
}
use domino_library.ThreadBack.{FutBackFn, ThreadBack}
use domino_library.ThreadBack.Found.{count, is_ready}
use domino_library.ThPoolBack.{Task, Shared, Phase, running, ran, ThPoolBack, ready_shared}
use domino_library.ThPoolBack.Inv.{bit}

-- A test that two others cover
pub count-cover {ℓ} :
    {A : Type ℓ} (q a b : A → Bool) (xs : List A)
    → ((x : A) → bit (q x) ≤ bit (a x) + bit (b x))
    → count q xs ≤ count a xs + count b xs
unfolding count
count-cover q a b [] h = omega arith
count-cover q a b (x ∷ xs) h = ground (arith, h x, count-cover q a b xs h)

-- A test that is one less than another
pub count-le {ℓ} :
    {A : Type ℓ} (q a : A → Bool) (xs : List A)
    → ((x : A) → bit (q x) ≤ bit (a x))
    → count q xs ≤ count a xs
unfolding count
count-le q a [] h = omega arith
count-le q a (x ∷ xs) h = ground (arith, h x, count-le q a xs h)

count-apart {ℓ} :
    {A : Type ℓ} (q a : A → Bool) (xs : List A)
    → ((x : A) → bit (q x) + bit (a x) ≤ 1)
    → count q xs + count a xs ≤ length xs
unfolding count
count-apart q a [] h = omega arith
count-apart q a (x ∷ xs) h = ground (arith, h x, count-apart q a xs h)

-- A test that excludes one which all pass
pub count-length {ℓ} :
    {A : Type ℓ} (q a : A → Bool) (xs : List A)
    → ((x : A) → bit (q x) + bit (a x) ≤ 1)
    → count a xs ≡ length xs
    → count q xs ≡ 0
count-length q a xs h full = omega (arith, count-apart q a xs h, full)

module _ {κ υ} {B : Type κ} {R : Type υ} where
  unfoldable pub named : ℕ → FutBackFn (Shared B) R → Bool
  named x f = f.back_fn.id == x

  unfoldable pub unready : ℕ → FutBackFn (Shared B) R → Bool
  unready x f = not f.ready && (f.back_fn.id == x)

  -- The future that `task()` makes ready: the one of its name
  pub record Shares (x : ℕ) (ret : Option R) (fs : List (FutBackFn (Shared B) R))
      : Type (κ ⊔ υ) where
    pub fut : FutBackFn (Shared B) R
    pub same : fut.back_fn.id ≡ x
    pub waits : fut.ready ≡ false
    pub within : (q : FutBackFn (Shared B) R → Bool) → bit (q fut) ≤ count q fs
    pub changed :
        (q : FutBackFn (Shared B) R → Bool)
        → count q (ready_shared x ret fs) + bit (q fut)
          ≡ count q fs + bit (q (record fut { ready = true; ret = ret }))

  pub ready_shared-Shares :
      (x : ℕ) (ret : Option R) (fs : List (FutBackFn (Shared B) R))
      → count (named x) fs ≤ 1
      → 0 < count (unready x) fs
      → Shares x ret fs
  unfolding ready_shared count named unready
  ready_shared-Shares x ret [] one some_one = absurd (omega arith)
  ready_shared-Shares x ret (f ∷ fs) one some_one = elim (Bool-cases (f.back_fn.id == x)) [
    | inl here ↦ record {
      fut = f;
      same = ground arith;
      waits = ground (arith, count-le (unready x) (named x) fs (λ g. ground arith));
      within = λ q. ground arith;
      changed = λ q. rw here (ground arith);
    }
    | inr elsewhere ↦
        let rest = ready_shared-Shares x ret fs (ground arith) (ground arith) in
        record {
          fut = rest.fut;
          same = rest.same;
          waits = rest.waits;
          within = λ q. ground (arith, rest.within q);
          changed = λ q. rw elsewhere (omega (arith, rest.changed q));
        }
  ]

module _ {ℓ} {E : Type ℓ} where
  unfoldable pub task_named : ℕ → Task E → Bool
  task_named x task = task.id == x

  -- At a task that passes a test
  unfoldable pub at_task : (Task E → Bool) → Phase E → Bool
  at_task q phase = elim phase [ running task ↦ q task | _ ↦ false ]

  unfoldable pub is_ran : Phase E → Bool
  is_ran phase = elim phase [ ran ↦ true | _ ↦ false ]

  -- The tasks in the queue and in the threads that pass a test
  unfoldable pub held : (Task E → Bool) → List (Task E) → List (Phase E) → ℕ
  held q queue threads = count q queue + count (at_task q) threads

-- `fits` is any test of a back function with what it gets.
unfoldable pub misfit {κ υ} :
    {B : Type κ} {R : Type υ} → (B → Option R → Bool) → FutBackFn (Shared B) R → Bool
misfit fits f = f.ready && not (fits f.back_fn.fn f.ret)

module _ {ℓ κ υ} {E : Type ℓ} {B : Type κ} {R : Type υ} (run : E → Option R)
    (fits : B → Option R → Bool) where
  -- The future of the task, if what the task will give does not fit it
  unfoldable pub foreign : Task E → FutBackFn (Shared B) R → Bool
  foreign task f = (f.back_fn.id == task.id) && not (fits f.back_fn.fn (run task.entry))

  unfoldable pub is_bad : List (FutBackFn (Shared B) R) → Task E → Bool
  unfolding foreign
  is_bad futs task = not (count (foreign task) futs == 0)

  -- Each future that is not ready has its packaged_task in the queue or in one thread, names are
  -- used once, and the count of done tasks lags behind the ready futures by the threads that are
  -- about to count.
  pub record Tasks (back : ThreadBack (Shared B) R) (queue : List (Task E))
      (threads : List (Phase E)) (next_id : ℕ) : Type 0 where
    pub pending : (x : ℕ) → count (unready x) back.futs ≡ held (task_named x) queue threads
    pub unique : (x : ℕ) → count (named x) back.futs ≤ 1
    pub fresh : (x : ℕ) → next_id ≤ x → count (named x) back.futs ≡ 0
    pub done : back.n_done + count is_ran threads ≡ count is_ready back.futs
    pub own : held (is_bad back.futs) queue threads ≡ 0
    pub fit : count (misfit fits) back.futs ≡ 0
