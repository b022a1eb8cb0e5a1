-- ===== src/ThPoolBack.antt =====
-- thread/ThPoolBack.hpp and thread/ThPoolBack.cpp: a pool of threads that take tasks from a queue.
-- One call of `mt_step` is what a pool thread does up to its next access to what the threads share;
-- the calls of the main thread are steps of their own. `none` is a step that has to wait.
pub mod Calls
pub mod Cases
pub mod Run
pub mod Inv
pub mod Tasks
pub mod Kept
pub mod Bound
pub mod Rest
pub mod Promises
pub mod Clean
pub mod Hang
use domino_library.Prelude.{
  ℕ, zero, suc, ◌+◌, ◌≡◌, Bool, true, false, not, ◌&&◌, ◌||◌, List, [], ◌∷◌, ◌++◌, Option, none,
  some, if◌then◌else◌, ◌==◌, leb, set, get_elem?, is_empty, replicate, ◌>>=◌,
}
use domino_library.ThreadBack.{
  FutBackFn, ThreadBack, n_fut, base_new_task_ok, new_thread_back, mt_count, hdl_done_fut,
}

-- A packaged_task: its entry function, and the name of the state that it shares with its future
pub record Task {ℓ} (E : Type ℓ) : Type ℓ where
  pub id : ℕ
  pub entry : E

-- What stands beside a future in `fut_backFN_S_`: the name of its shared state, the back function
pub record Shared {ℓ} (B : Type ℓ) : Type ℓ where
  pub id : ℕ
  pub fn : B

-- Where a pool thread stands in `mt_threadMain_`: before the lock; with the lock, before the
-- predicate of `mt_qCv_.wait`; with the lock, after a predicate that was false; asleep in the wait,
-- without the lock; after the wait, with the lock; at `task()`; after it; after the count; returned.
pub data Phase {ℓ} (E : Type ℓ) : Type ℓ where
  woken : Phase E
  testing : Phase E
  sleepy : Phase E
  asleep : Phase E
  chosen : Phase E
  running : Task E → Phase E
  ran : Phase E
  counted : Phase E
  ended : Phase E

-- The main thread: outside of the pool; in `newTaskOK` before `notify_one`; in `clean_` before
-- `notify_all`; in `clean_` after it; after `clean_`.
pub data Stage : Type 0 where
  outside : Stage
  to_notify : Stage
  to_notify_all : Stage
  joining : Stage
  over : Stage

-- `mt_taskQ_` is `queue`, `mt_stopAllTH_` is `stop`, `thPool_` is `threads`; `locked` is whether
-- `mt_mutex_` is held; `pings` counts the calls of `mt_pingMainTH`.
pub record ThPoolBack {ℓ κ υ} (E : Type ℓ) (B : Type κ) (R : Type υ) : Type (ℓ ⊔ κ ⊔ υ) where
  pub back : ThreadBack (Shared B) R
  pub queue : List (Task E)
  pub threads : List (Phase E)
  pub locked : Bool
  pub stop : Bool
  pub stage : Stage
  pub next_id : ℕ
  pub pings : ℕ

module _ {κ υ} {B : Type κ} {R : Type υ} where
  -- `task()`: the future that shares the state is ready.
  unfoldable pub ready_shared :
      ℕ → Option R → List (FutBackFn (Shared B) R) → List (FutBackFn (Shared B) R)
  ready_shared id ret [] = []
  ready_shared id ret (f ∷ fs) =
      if f.back_fn.id == id
      then record f { ready = true; ret = ret } ∷ fs
      else f ∷ ready_shared id ret fs

module _ {ℓ κ υ} {E : Type ℓ} {B : Type κ} {R : Type υ} where
  -- The constructor; the two defaults are MAX_THREAD and MAX_TASKQ.
  unfoldable pub new_th_pool_back :
      (default_thread default_task_q max_thread max_task_q : ℕ) → ThPoolBack E B R
  unfolding new_thread_back
  new_th_pool_back default_thread default_task_q max_thread max_task_q = record {
    back = new_thread_back default_task_q max_task_q;
    queue = [];
    threads = replicate (if max_thread == 0 then default_thread else max_thread) woken;
    locked = false;
    stop = false;
    stage = outside;
    next_id = 0;
    pings = 0;
  }

  unfoldable pub run_task : ThPoolBack E B R → ℕ → Option R → ThPoolBack E B R
  unfolding ready_shared
  run_task p id ret = record p { back = record p.back { futs = ready_shared id ret p.back.futs } }

  -- `front()` of an empty queue is undefined: no step.
  unfoldable pub take_task : ThPoolBack E B R → ℕ → List (Task E) → Option (ThPoolBack E B R)
  take_task p i [] = none
  take_task p i (task ∷ queue) =
      some (record p { threads = set p.threads i (running task); queue = queue; locked = false })

  -- `run` is what a call of an entry function gives, `none` for null and for an exception.
  module _ (run : E → Option R) where
    -- Thread `i` leaves the phase.
    unfoldable pub phase_step : ThPoolBack E B R → ℕ → Phase E → Option (ThPoolBack E B R)
    unfolding run_task mt_count take_task
    phase_step p i woken =
        if p.locked
        then none
        else some (record p { threads = set p.threads i testing; locked = true })
    phase_step p i testing = some (record p {
      threads = set p.threads i (if p.stop || not (is_empty p.queue) then chosen else sleepy);
    })
    phase_step p i sleepy = some (record p { threads = set p.threads i asleep; locked = false })
    phase_step p i asleep = none
    phase_step p i chosen =
        if p.stop
        then some (record p { threads = set p.threads i ended; locked = false })
        else take_task p i p.queue
    phase_step p i (running task) =
        some (record (run_task p task.id (run task.entry)) { threads = set p.threads i ran })
    phase_step p i ran =
        some (record p { back = mt_count p.back; threads = set p.threads i counted })
    phase_step p i counted =
        some (record p { threads = set p.threads i woken; pings = p.pings + 1 })
    phase_step p i ended = none

    unfoldable pub mt_step : ThPoolBack E B R → ℕ → Option (ThPoolBack E B R)
    unfolding phase_step
    mt_step p i = get_elem? p.threads i >>= phase_step p i
