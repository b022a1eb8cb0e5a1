-- ===== src/Tests/MtInQueue.antt =====
-- thread/MtInQueue.cpp at small queues, as in ut/thread/MtInQueueTest.cpp.
use domino_library.Prelude.{
  ℕ, ◌+◌, ◌≡◌, ◌<◌, refl, true, false, List, [], ◌∷◌, some, lookup, if◌then◌else◌, ◌==◌,
}
use domino_library.MtInQueue.{
  MtInQueue, Push, empty_queue, handle_all_ele, size, clear_all, clear_hdlr_pool, n_hdlr,
}
use domino_library.MtInQueue.Fifo.{
  Call, push_call, pop_call, pop_type_call, do_calls, all_given, all_accepted, do_calls-fifo,
}
use domino_library.MtInQueue.Handle.{calls_of, handle_all_ele_lem}

-- Two elements of types 0 and 1; the second call finds the lock taken, the third a shared element.
abbrev session : List (Call ℕ ℕ)
session =
    push_call (some 5) 1 0
    ∷ pop_call false
    ∷ push_call (some 6) 2 0
    ∷ push_call (some 7) 1 1
    ∷ pop_call true
    ∷ pop_type_call true 0
    ∷ []

session_runs :
    do_calls empty_queue session ≡ record { queue = []; cache = (7, 1) ∷ []; hdlrs = []; pings = 3 }
unfolding do_calls
session_runs = refl

do_calls-fifo_example : (5, 0) ∷ (7, 1) ∷ [] ≡ all_accepted {H = ℕ} empty_queue session
unfolding do_calls all_given all_accepted
do_calls-fifo_example = do_calls-fifo empty_queue session

abbrev loaded : MtInQueue ℕ ℕ
loaded = record {
  queue = (3, 1) ∷ [];
  cache = (1, 0) ∷ (2, 2) ∷ [];
  hdlrs = (0, 10) ∷ (1, 20) ∷ [];
  pings = 0;
}

-- The handler of 1 pushes 9, and so does that of 9; nothing handles type 2.
abbrev push_nine : ℕ → ℕ → List ℕ → List ℕ × List (Push ℕ)
push_nine hdlr ele w = ((hdlr + ele) ∷ w, if ele == 3 then [] else (some 9, (1, 0)) ∷ [])

handle_all_ele_lem_example :
    ((handle_all_ele push_nine loaded [] true true).0.cache ≡ [])
    × ((handle_all_ele push_nine loaded [] true true).0.queue ≡ (9, 0) ∷ [])
    × ((handle_all_ele push_nine loaded [] true true).1.0 ≡ 19 ∷ 23 ∷ 11 ∷ [])
    × ((handle_all_ele push_nine loaded [] true true).1.1 ≡ 4)
    × ((handle_all_ele push_nine loaded [] true false).0.cache ≡ [])
    × ((handle_all_ele push_nine loaded [] true false).0.queue ≡ (3, 1) ∷ (9, 0) ∷ [])
    × ((handle_all_ele push_nine loaded [] true false).1.0 ≡ 11 ∷ [])
    × ((handle_all_ele push_nine loaded [] true false).1.1 ≡ 2)
    × (0 < (handle_all_ele push_nine loaded [] true false).0.pings)
unfolding calls_of lookup
handle_all_ele_lem_example =
    handle_all_ele_lem push_nine loaded [] (11 ∷ [], (9, 0) ∷ []) (19 ∷ 23 ∷ 11 ∷ [], (9, 0) ∷ [])
      refl refl

-- The size with and without the lock, and an emptied queue
sizes : (size loaded true true false ≡ 3) × (size loaded true false false ≡ 2)
unfolding size
sizes = (refl, refl)

cleared :
    (clear_all loaded true ≡ record { queue = []; cache = []; hdlrs = []; pings = 0 })
    × (n_hdlr (clear_hdlr_pool loaded) ≡ 0)
unfolding clear_all clear_hdlr_pool
cleared = (refl, refl)
