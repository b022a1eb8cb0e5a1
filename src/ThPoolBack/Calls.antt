-- ===== src/ThPoolBack/Calls.antt =====
-- thread/ThPoolBack.cpp: what the main thread does with the pool, step by step.
use domino_library.Prelude.{
  ℕ, ◌+◌, Bool, true, false, not, ◌&&◌, ◌||◌, List, [], ◌∷◌, ◌++◌, Option, none, some,
  if◌then◌else◌, leb, set, get_elem?, ◌>>=◌,
}
use domino_library.ThreadBack.{FutBackFn, n_fut, base_new_task_ok, hdl_done_fut}
use domino_library.ThPoolBack.{
  Shared, Phase, woken, asleep, ended, outside, to_notify, to_notify_all, joining, over, ThPoolBack,
}

-- Waking from the wait
module _ {ℓ} {E : Type ℓ} where
  unfoldable pub is_asleep : Phase E → Bool
  is_asleep phase = elim phase [ asleep ↦ true | _ ↦ false ]

  unfoldable pub is_ended : Phase E → Bool
  is_ended phase = elim phase [ ended ↦ true | _ ↦ false ]

  unfoldable pub some_asleep : List (Phase E) → Bool
  unfolding is_asleep
  some_asleep [] = false
  some_asleep (phase ∷ phases) = is_asleep phase || some_asleep phases

  unfoldable pub all_ended : List (Phase E) → Bool
  unfolding is_ended
  all_ended [] = true
  all_ended (phase ∷ phases) = is_ended phase && all_ended phases

  unfoldable pub wake_at : List (Phase E) → ℕ → Option (List (Phase E))
  unfolding is_asleep
  wake_at phases i = elim (get_elem? phases i) [
    | none ↦ none
    | some phase ↦ if is_asleep phase then some (set phases i woken) else none
  ]

  unfoldable pub wake_all : List (Phase E) → List (Phase E)
  unfolding is_asleep
  wake_all [] = []
  wake_all (phase ∷ phases) = (if is_asleep phase then woken else phase) ∷ wake_all phases

module _ {ℓ κ υ} {E : Type ℓ} {B : Type κ} {R : Type υ} where
  -- The future goes into `fut_backFN_S_`, its packaged_task into the queue.
  unfoldable pub add_task : ThPoolBack E B R → E → B → ThPoolBack E B R
  add_task p entry fn =
      let shared : Shared B = record { id = p.next_id; fn = fn } in
      record p {
        back = record p.back {
          futs = p.back.futs ++ record { ready = false; ret = none; back_fn = shared } ∷ [];
        };
        queue = p.queue ++ record { id = p.next_id; entry = entry } ∷ [];
        next_id = p.next_id + 1;
        stage = to_notify;
      }

  -- `newTaskOK` up to the end of its lock; `notify_one` is to follow if it answers true.
  unfoldable pub new_task_ok :
      ThPoolBack E B R → (main : Bool) → Option E → Option B → Option (ThPoolBack E B R × Bool)
  unfolding base_new_task_ok add_task
  new_task_ok p main none back_fn = some (p, false)
  new_task_ok p main (some entry) none = some (p, false)
  new_task_ok p main (some entry) (some fn) =
      if not (base_new_task_ok main true (some fn))
      then some (p, false)
      else if p.locked
      then none
      else some (add_task p entry fn, true)

  -- `limitNewTaskOK` with the `newTaskOK` of the pool
  unfoldable pub limit_new_task_ok :
      ThPoolBack E B R → (main : Bool) → Option E → Option B → Option (ThPoolBack E B R × Bool)
  unfolding new_task_ok
  limit_new_task_ok p main entry back_fn =
      if not main
      then some (p, false)
      else if leb p.back.max_parallel (n_fut p.back)
      then some (p, false)
      else new_task_ok p main entry back_fn

  -- `mt_qCv_.notify_one()`: some thread that sleeps wakes, here thread `i`, if one sleeps.
  unfoldable pub notify_one : ThPoolBack E B R → ℕ → Option (ThPoolBack E B R)
  unfolding some_asleep wake_at
  notify_one p i =
      if some_asleep p.threads
      then wake_at p.threads i
        >>= (λ threads. some (record p { threads = threads; stage = outside }))
      else some (record p { stage = outside })

  -- A thread can wake from the wait without a call.
  unfoldable pub spurious_wake : ThPoolBack E B R → ℕ → Option (ThPoolBack E B R)
  unfolding wake_at
  spurious_wake p i = wake_at p.threads i >>= λ threads. some (record p { threads = threads })

  -- `clean_`: the store of `mt_stopAllTH_`, `mt_qCv_.notify_all()`, and the rest, which waits for all
  -- threads. It gives the tasks handled.
  unfoldable pub store_stop : ThPoolBack E B R → ThPoolBack E B R
  store_stop p = record p { stop = true; stage = to_notify_all }

  unfoldable pub notify_all : ThPoolBack E B R → ThPoolBack E B R
  unfolding wake_all
  notify_all p = record p { threads = wake_all p.threads; stage = joining }

  -- `hdlDoneFut` of the pool, with back functions that start no task
  unfoldable pub pool_hdl_done_fut :
      ThPoolBack E B R → (main : Bool) → ThPoolBack E B R × List (FutBackFn (Shared B) R)
  unfolding hdl_done_fut
  pool_hdl_done_fut p main =
      let (back, handled) = hdl_done_fut (λ f. []) p.back main in
      (record p { back = back }, handled)

  unfoldable pub join_all :
      ThPoolBack E B R → Option (ThPoolBack E B R × List (FutBackFn (Shared B) R))
  unfolding all_ended pool_hdl_done_fut
  join_all p =
      if all_ended p.threads
      then some (pool_hdl_done_fut (record p { stage = over }) true)
      else none
