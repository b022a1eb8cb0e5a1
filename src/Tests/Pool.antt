-- ===== src/Tests/Pool.antt =====
-- thread/ThPoolBack.cpp at a pool of one thread, as in ut/thread/ThPoolBackTest.hpp.
use domino_library.Prelude.{
  zero, suc, subst, ◌++◌, append-nil, some-injective, >>=-eq-some, ℕ, ◌+◌, ◌*◌, ◌≡◌, ◌≤◌, refl,
  Bool, true, false, List, [], ◌∷◌, Option, none, some, ◌==◌, if◌then◌else◌, arith,
}
use domino_library.ThreadBack.{FutBackFn}
use domino_library.ThreadBack.Found.{count, is_ready}
use domino_library.ThPoolBack.{
  Shared, woken, sleepy, asleep, ended, outside, to_notify_all, joining, ThPoolBack,
  new_th_pool_back, mt_step,
}
use domino_library.ThPoolBack.Calls.{
  store_stop, new_task_ok, notify_one, notify_all, join_all, pool_hdl_done_fut,
}
use domino_library.ThPoolBack.Run.{
  accepted, thread_step, new_task, notifies, handles, stops, Steps, here, next, mt_steps, IsResting,
}
use domino_library.ThPoolBack.Inv.{is_sleepy}
use domino_library.ThPoolBack.Tasks.{misfit}
use domino_library.ThPoolBack.Tasks.Reach.{unfit}
use domino_library.ThPoolBack.Kept.{has_fn, new_fn}
use domino_library.ThPoolBack.Bound.{mt_steps-bounded}
use domino_library.ThPoolBack.Promises.{pool_calls_back, pool_rests_done}
use domino_library.ThPoolBack.Clean.{clean_joins}
use domino_library.ThPoolBack.Hang.{clean_hangs}

-- An entry function gives the double of its number, and null for 0.
abbrev double : ℕ → Option ℕ
double e = if e == 0 then none else some (e * 2)

abbrev new_pool : ThPoolBack ℕ ℕ ℕ
new_pool = record {
  back = record { n_done = 0; futs = []; max_parallel = 2 };
  queue = [];
  threads = woken ∷ [];
  locked = false;
  stop = false;
  stage = outside;
  next_id = 0;
  pings = 0;
}

new_pool_made : new_th_pool_back 100 10000 1 2 ≡ new_pool
unfolding new_th_pool_back
new_pool_made = refl

abbrev fut : Bool → Option ℕ → FutBackFn (Shared ℕ) ℕ
fut ready ret = record { ready = ready; ret = ret; back_fn = record { id = 0; fn = 6 } }

abbrev with_task : ThPoolBack ℕ ℕ ℕ
with_task = record new_pool {
  back = record { n_done = 0; futs = fut false none ∷ []; max_parallel = 2 };
  queue = record { id = 0; entry = 3 } ∷ [];
  next_id = 1;
}

-- The thread has run the task and sleeps.
abbrev rested : ThPoolBack ℕ ℕ ℕ
rested = record with_task {
  back = record { n_done = 1; futs = fut true (some 6) ∷ []; max_parallel = 2 };
  queue = [];
  threads = asleep ∷ [];
  pings = 1;
}

abbrev nine : List ℕ
nine = 0 ∷ 0 ∷ 0 ∷ 0 ∷ 0 ∷ 0 ∷ 0 ∷ 0 ∷ 0 ∷ []

nine_run : mt_steps double with_task nine ≡ some rested
unfolding mt_steps
nine_run = refl

mt_steps-bounded_example : 9 ≤ 13
mt_steps-bounded_example = mt_steps-bounded double with_task rested nine nine_run

task_accepted : Steps double (new_th_pool_back 100 10000 1 2) ((3, 6) ∷ []) [] with_task
unfolding new_th_pool_back new_task_ok notify_one accepted
task_accepted =
    next {new = (3, 6) ∷ []} {new' = []} {handled = []} {handled' = []}
      (next {new = []} {new' = (3, 6) ∷ []} {handled = []} {handled' = []} here
        (new_task true (some 3) (some 6) true refl refl))
      (notifies 0 refl refl)

-- Steps of pool threads after a course
runs_on :
    {p : ThPoolBack ℕ ℕ ℕ} {new : List (ℕ × ℕ)} {handled : List (FutBackFn (Shared ℕ) ℕ)}
    (is : List ℕ) {q r : ThPoolBack ℕ ℕ ℕ}
    → Steps double p new handled q
    → mt_steps double q is ≡ some r
    → Steps double p new handled r
unfolding mt_steps
runs_on {p = p} {new = new} {handled = handled} [] steps e =
    subst (Steps double p new handled) (some-injective _ _ e) steps
runs_on {p = p} {new = new} {handled = handled} (i ∷ is) {q = q} steps e =
    let (mid, first, rest) = >>=-eq-some (mt_step double q i) _ e in
    let stepped : Steps double p (new ++ []) (handled ++ []) mid =
      next steps (thread_step i first) in
    let same = subst (λ ns. Steps double p ns (handled ++ []) mid) (append-nil new) stepped in
    runs_on is (subst (λ hs. Steps double p new hs mid) (append-nil handled) same) rest

task_run : Steps double (new_th_pool_back 100 10000 1 2) ((3, 6) ∷ []) [] rested
task_run = runs_on nine task_accepted nine_run

rested_rests : IsResting double rested
unfolding mt_step
rested_rests zero = refl
rested_rests (suc i) = refl

pool_rests_done_example :
    (rested.queue ≡ [])
    × ((pool_hdl_done_fut rested true).0.back.futs ≡ [])
    × ((pool_hdl_done_fut rested true).0.back.n_done ≡ 0)
pool_rests_done_example =
    pool_rests_done double 100 10000 1 2 (omega arith) task_run refl rested_rests

abbrev over_again : ThPoolBack ℕ ℕ ℕ
over_again = record rested { back = record { n_done = 0; futs = []; max_parallel = 2 } }

task_handled :
    Steps double (new_th_pool_back 100 10000 1 2) ((3, 6) ∷ []) (fut true (some 6) ∷ []) over_again
unfolding pool_hdl_done_fut
task_handled =
    next {new = (3, 6) ∷ []} {new' = []} {handled = []} {handled' = fut true (some 6) ∷ []} task_run
      (handles true refl refl)

-- The back function 6 wants 6.
abbrev wants : ℕ → Option ℕ → Bool
wants fn ret = elim ret [ none ↦ fn == 0 | some r ↦ r == fn ]

pool_calls_back_example :
    (count (has_fn (λ fn. fn == 6)) (fut true (some 6) ∷ []) + 0
      ≡ count (new_fn {E = ℕ} (λ fn. fn == 6)) ((3, 6) ∷ []))
    × (count (misfit wants) (fut true (some 6) ∷ []) ≡ 0)
unfolding count unfit
pool_calls_back_example =
    pool_calls_back double 100 10000 1 2 wants (λ fn. fn == 6) task_handled refl

-- `clean_` while the thread sleeps: it wakes and ends.
abbrev stopped : ThPoolBack ℕ ℕ ℕ
stopped = record over_again { stop = true; stage = to_notify_all }

course_stopped :
    Steps double (new_th_pool_back 100 10000 1 2) ((3, 6) ∷ []) (fut true (some 6) ∷ []) stopped
unfolding store_stop
course_stopped =
    next {new = (3, 6) ∷ []} {new' = []} {handled = fut true (some 6) ∷ []} {handled' = []}
      task_handled (stops refl)

abbrev all_over : ThPoolBack ℕ ℕ ℕ
all_over = record stopped { threads = ended ∷ []; stage = joining }

three_run : mt_steps double (notify_all stopped) (0 ∷ 0 ∷ 0 ∷ []) ≡ some all_over
unfolding mt_steps notify_all
three_run = refl

over_rests : IsResting double all_over
unfolding mt_step
over_rests zero = refl
over_rests (suc i) = refl

clean_joins_example :
    (end : ThPoolBack ℕ ℕ ℕ) × (last : List (FutBackFn (Shared ℕ) ℕ)) × (join_all all_over
      ≡ some (end, last))
    × (count is_ready end.back.futs ≡ 0)
    × (end.back.n_done ≡ 0)
unfolding count is_sleepy
clean_joins_example =
    clean_joins double 100 10000 1 2 (0 ∷ 0 ∷ 0 ∷ []) (omega arith) course_stopped refl refl
      three_run over_rests

-- `clean_` while the thread is between its test and its sleep: the course is one of the code.
abbrev nodding : ThPoolBack ℕ ℕ ℕ
nodding = record new_pool { threads = sleepy ∷ []; locked = true }

abbrev missed : ThPoolBack ℕ ℕ ℕ
missed = record nodding { stop = true; stage = to_notify_all }

nodding_run : mt_steps double new_pool (0 ∷ 0 ∷ []) ≡ some nodding
unfolding mt_steps
nodding_run = refl

course_missed : Steps double (new_th_pool_back 100 10000 1 2) [] [] missed
unfolding store_stop new_th_pool_back
course_missed =
    next {new = []} {new' = []} {handled = []} {handled' = []}
      (runs_on (0 ∷ 0 ∷ []) here nodding_run) (stops refl)

abbrev asleep_forever : ThPoolBack ℕ ℕ ℕ
asleep_forever = record missed { threads = asleep ∷ []; locked = false; stage = joining }

falls_asleep : mt_step double (notify_all missed) 0 ≡ some asleep_forever
unfolding mt_step notify_all
falls_asleep = refl

clean_hangs_example : join_all asleep_forever ≡ none
unfolding mt_steps
clean_hangs_example =
    clean_hangs double missed asleep_forever asleep_forever 0 [] refl falls_asleep refl
