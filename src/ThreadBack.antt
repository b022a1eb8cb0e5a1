-- ===== src/ThreadBack.antt =====
-- thread/ThreadBack.hpp, thread/ThreadBack.cpp, thread/AsyncBack.cpp and thread/ThPoolBack.cpp: tasks
-- run in other threads, and their back functions in the main thread. Each function is one step; what
-- the other threads do is `mt_count` and `mt_ready` between. `main` is the answer of `mt_reqMainTH`.
pub mod Found
pub mod Done
pub mod Limit
pub mod ViaMsgSelf
use domino_library.Prelude.{
  ℕ, zero, suc, ◌+◌, ◌-◌, Bool, true, false, not, ◌&&◌, List, [], ◌∷◌, ◌++◌, Option, none, some,
  if◌then◌else◌, ◌==◌, leb, length,
}

-- Fut_BackFN: whether the future is ready, what it then gives (`none` for null and for an
-- exception), and the back function
pub record FutBackFn {ℓ κ} (B : Type ℓ) (R : Type κ) : Type (ℓ ⊔ κ) where
  pub ready : Bool
  pub ret : Option R
  pub back_fn : B

-- `mt_nDoneFut_` is `n_done`, `fut_backFN_S_` is `futs`, `maxParallel_` is `max_parallel`.
pub record ThreadBack {ℓ κ} (B : Type ℓ) (R : Type κ) : Type (ℓ ⊔ κ) where
  pub n_done : ℕ
  pub futs : List (FutBackFn B R)
  pub max_parallel : ℕ

-- The end of a vector that is moved to the place before, if there is one: `v[i] = v.back();
-- v.pop_back();`
unfoldable pub last_or {ℓ} : {A : Type ℓ} → A → List A → A
last_or x [] = x
last_or x (y ∷ ys) = last_or y ys

unfoldable pub drop_last {ℓ} : {A : Type ℓ} → A → List A → List A
drop_last x [] = []
drop_last x (y ∷ ys) = x ∷ drop_last y ys

unfoldable pub back_to_front {ℓ} : {A : Type ℓ} → List A → List A
unfolding last_or drop_last
back_to_front [] = []
back_to_front (x ∷ xs) = last_or x xs ∷ drop_last x xs

unfoldable pub swap_erase_at {ℓ} : {A : Type ℓ} → ℕ → List A → List A
unfolding back_to_front
swap_erase_at i [] = []
swap_erase_at zero (x ∷ xs) = back_to_front xs
swap_erase_at (suc i) (x ∷ xs) = x ∷ swap_erase_at i xs

-- `ThreadBack::newTaskOK`: whether a task can be started. `has_entry` says whether the entry
-- function is not null, `none` is a null back function.
unfoldable pub base_new_task_ok {ℓ} : {B : Type ℓ} → (main has_entry : Bool) → Option B → Bool
base_new_task_ok main has_entry none = false
base_new_task_ok main has_entry (some back_fn) = main && has_entry

module _ {ℓ κ} {B : Type ℓ} {R : Type κ} where
  abbrev pub n_fut : ThreadBack B R → ℕ
  n_fut tb = length tb.futs

  -- The constructors of AsyncBack and ThPoolBack; `max_default` is MAX_ASYNC or MAX_TASKQ.
  unfoldable pub new_thread_back : (max_default max : ℕ) → ThreadBack B R
  new_thread_back max_default max = record {
    n_done = 0;
    futs = [];
    max_parallel = if max == 0 then max_default else max;
  }

  -- `AsyncBack::newTaskOK`: a task in a new thread. That of ThPoolBack puts it into the queue of the
  -- pool.
  unfoldable pub new_task_ok :
      ThreadBack B R → (main has_entry : Bool) → Option B → ThreadBack B R × Bool
  unfolding base_new_task_ok
  new_task_ok tb main has_entry none = (tb, false)
  new_task_ok tb main has_entry (some back_fn) =
      if base_new_task_ok main has_entry (some back_fn)
      then (
        record tb {
          futs = tb.futs ++ record { ready = false; ret = none; back_fn = back_fn } ∷ [];
        },
        true,
      )
      else (tb, false)

  unfoldable pub limit_new_task_ok :
      ThreadBack B R → (main has_entry : Bool) → Option B → ThreadBack B R × Bool
  unfolding new_task_ok
  limit_new_task_ok tb main has_entry back_fn =
      if not main
      then (tb, false)
      else if leb tb.max_parallel (n_fut tb)
      then (tb, false)
      else new_task_ok tb main has_entry back_fn

  -- What a thread does at the end of a task: it counts the task and makes its future ready, AsyncBack
  -- in this order, ThPoolBack the other way round.
  unfoldable pub mt_count : ThreadBack B R → ThreadBack B R
  mt_count tb = record tb { n_done = tb.n_done + 1 }

  unfoldable pub ready_at : ℕ → Option R → List (FutBackFn B R) → List (FutBackFn B R)
  ready_at i ret [] = []
  ready_at zero ret (f ∷ fs) = record f { ready = true; ret = ret } ∷ fs
  ready_at (suc i) ret (f ∷ fs) = f ∷ ready_at i ret fs

  unfoldable pub mt_ready : ThreadBack B R → ℕ → Option R → ThreadBack B R
  unfolding ready_at
  mt_ready tb i ret = record tb { futs = ready_at i ret tb.futs }

  -- The rounds of the loop of `hdlDoneFut` up to the next ready future: its index and task
  unfoldable pub find_ready : ℕ → List (FutBackFn B R) → Option (ℕ × FutBackFn B R)
  find_ready i [] = none
  find_ready zero (f ∷ fs) =
      let rest = find_ready zero fs in
      if f.ready then some (0, f) else elim rest [ none ↦ none | some r ↦ some (suc r.0, r.1) ]
  find_ready (suc i) (f ∷ fs) = elim (find_ready i fs) [
    | none ↦ none
    | some r ↦ some (suc r.0, r.1)
  ]

  -- `starts` are the tasks that a back function starts when it is called. The loop ends when `left`
  -- tasks are handled, or no future from `i` on is ready; it gives the vector and the tasks whose
  -- back functions it called, in order.
  module _ (starts : FutBackFn B R → List (FutBackFn B R)) where
    unfoldable pub done_loop :
        (left i : ℕ) → List (FutBackFn B R) → List (FutBackFn B R) × List (FutBackFn B R)
    unfolding find_ready swap_erase_at
    done_loop zero i futs = (futs, [])
    done_loop (suc left) i futs = elim (find_ready i futs) [
      | none ↦ (futs, [])
      | some (j, task) ↦
          let (futs', handled) = done_loop left j (swap_erase_at j futs ++ starts task) in
          (futs', task ∷ handled)
    ]

    -- `hdlDoneFut`, with the tasks handled
    unfoldable pub hdl_done_fut :
        ThreadBack B R → (main : Bool) → ThreadBack B R × List (FutBackFn B R)
    unfolding done_loop
    hdl_done_fut tb main =
        let (futs, handled) = done_loop tb.n_done 0 tb.futs in
        if main
        then (record tb { n_done = tb.n_done - length handled; futs = futs }, handled)
        else (tb, [])
