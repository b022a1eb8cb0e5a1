-- ===== src/Tests/ThreadBack.antt =====
-- thread/ThreadBack.cpp at a few tasks, as in ut/thread/ThreadBackTest.hpp.
use domino_library.Prelude.{
  Option, ℕ, ◌+◌, ◌≡◌, ◌≤◌, ◌⊎◌, refl, true, false, List, [], ◌∷◌, none, some, arith,
}
use domino_library.ThreadBack.{FutBackFn, ThreadBack, n_fut, new_thread_back, hdl_done_fut}
use domino_library.ThreadBack.Found.{count, is_ready}
use domino_library.ThreadBack.Done.{started, hdl_done_fut_lem}
use domino_library.ThreadBack.Limit.{
  Event, limit_event, count_event, ready_event, done_event, do_events, do_events-limit,
}
use domino_library.MsgSelf.{handle_all_msg}
use domino_library.MsgSelf.Order.{queued, expected}
use domino_library.ThreadBack.ViaMsgSelf.{
  Via, via_msg_self, call_backs, messages, all_valid, call_backs-handle_all_msg,
}

abbrev waits : FutBackFn ℕ ℕ
waits = record { ready = false; ret = none; back_fn = 1 }

abbrev first : FutBackFn ℕ ℕ
first = record { ready = true; ret = some 7; back_fn = 2 }

abbrev last : FutBackFn ℕ ℕ
last = record { ready = true; ret = none; back_fn = 3 }

abbrev two_done : ThreadBack ℕ ℕ
two_done = record { n_done = 2; futs = first ∷ waits ∷ last ∷ []; max_parallel = 3 }

-- The back function of `first` starts a task. `last` moves to the place of `first`.
abbrev starts : FutBackFn ℕ ℕ → List (FutBackFn ℕ ℕ)
starts f = elim f.ret [ none ↦ [] | some x ↦ waits ∷ [] ]

abbrev handled : ThreadBack ℕ ℕ
handled = record two_done { n_done = 0; futs = waits ∷ waits ∷ [] }

handled_runs : hdl_done_fut starts two_done true ≡ (handled, first ∷ last ∷ [])
unfolding hdl_done_fut
handled_runs = refl

hdl_done_fut_lem_example :
    (4 ≡ count (λ f. true) (first ∷ last ∷ []) + 2)
    × (count is_ready (first ∷ last ∷ []) ≡ 2)
    × (2 + handled.n_done ≡ 2)
    × ((handled.n_done ≡ 0) ⊎ (count is_ready handled.futs ≡ 0))
unfolding count started
hdl_done_fut_lem_example =
    hdl_done_fut_lem starts two_done handled (first ∷ last ∷ []) (λ f. true) handled_runs

-- Two tasks at most: the third is refused, and accepted after the first is done.
abbrev events : List (Event ℕ ℕ)
events =
    limit_event true true (some 1)
    ∷ limit_event true true (some 2)
    ∷ limit_event true true (some 3)
    ∷ count_event
    ∷ ready_event 0 (some 7)
    ∷ done_event true
    ∷ limit_event true true (some 4)
    ∷ []

do_events-limit_example : n_fut (do_events {R = ℕ} (new_thread_back 10 2) events) ≤ 2
unfolding new_thread_back
do_events-limit_example = do_events-limit (new_thread_back 10 2) events (omega arith)

events_run : n_fut (do_events {R = ℕ} (new_thread_back 10 2) events) ≡ 2
unfolding do_events new_thread_back
events_run = refl

-- Two handled tasks by messages, the second of low priority, after a normal message from before
abbrev by_message : ℕ → ℕ → Option ℕ → FutBackFn (Via ℕ) ℕ
by_message fn pri ret = record { ready = true; ret = ret; back_fn = record { fn = fn; pri = pri } }

abbrev note : ℕ × Option ℕ → List ℕ → List ℕ × List ((ℕ × Option ℕ) × ℕ)
note m w = (m.0 ∷ w, [])

call_backs-handle_all_msg_example :
    handle_all_msg note 4
      (call_backs
        (queued [] ((9, none) ∷ []) [] 1 0)
        (by_message 5 0 none ∷ by_message 6 1 (some 7) ∷ []))
      []
    ≡ some (queued [] [] [] 0 2, 5 ∷ 6 ∷ 9 ∷ [])
unfolding expected messages all_valid
call_backs-handle_all_msg_example =
    call_backs-handle_all_msg note (λ m w. refl) 4 [] ((9, none) ∷ []) [] 1 0 []
      (by_message 5 0 none ∷ by_message 6 1 (some 7) ∷ []) refl refl (omega arith)

via_runs :
    (via_msg_self {B = ℕ} (some 5) 0 true ≡ some (record { fn = 5; pri = 0 }))
    × (via_msg_self {B = ℕ} (some 5) 0 false ≡ none)
unfolding via_msg_self
via_runs = (refl, refl)
