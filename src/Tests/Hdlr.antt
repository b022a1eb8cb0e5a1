-- ===== src/Tests/Hdlr.antt =====
-- Handlers of events at a small domino, as in ut/domino/HdlrDominoTest.cpp,
-- ut/domino/MultiHdlrDominoTest.cpp and ut/domino/FreeHdlrDominoTest.cpp.
use domino_library.Prelude.{
  ℕ, ◌&&◌, ◌==◌, elem, ◌≡◌, refl, true, false, List, [], ◌∷◌, none, some, lookup, insert,
}
use domino_library.Domino.State.{get_event_by, new_event}
use domino_library.Domino.Remove.{rm_ev}
use domino_library.HdlrDomino.State.{
  Shared, Msg, HdlrDomino, new_hdlr_domino, get_priority, is_repeat_hdlr, own,
}
use domino_library.HdlrDomino.Hdlr.{rm_one_hdlr_ok, set_state_hdlr}
use domino_library.HdlrDomino.Calls.{cb_hdlr, rm_ev_ok_hdlr}
use domino_library.HdlrDomino.Own.{Owned, new_hdlr_domino-Owned}
use domino_library.HdlrDomino.Sent.{sent_to}
use domino_library.HdlrDomino.Session.{
  Call, set_hdlr_call, multi_hdlr_call, priority_call, set_state_call, message_call, end_call,
  do_calls,
}
use domino_library.HdlrDomino.Promises.Owners.{do_calls-Owned, withdrawn, freed_once}
use domino_library.HdlrDomino.Promises.Effects.{set_state_sends, rm_ev_ok_hdlr-forgets}
use domino_library.Tests.Domino.{linked, linked-Inv, a_up}

-- "c" has high priority and the two handlers 10 and 20, the second by the name "x".
abbrev setup : List (Call ℕ)
setup = priority_call "c" 2 ∷ set_hdlr_call "c" (some 10) ∷ multi_hdlr_call "c" (some 20) "x" ∷ []

abbrev first : Shared ℕ
first = record { id = 0; cb = 10 }

abbrev second : Shared ℕ
second = record { id = 1; cb = 20 }

abbrev ready : HdlrDomino ℕ
ready = record {
  dom = linked;
  hdlrs = some first ∷ [];
  multi = (("x", second) ∷ []) ∷ [];
  repeats = [];
  pris = (0, 2) ∷ [];
  sent = [];
  next_id = 2;
  running = [];
}

setup_runs : do_calls true 10 (new_hdlr_domino linked) setup ≡ some ready
unfolding do_calls new_event lookup insert
setup_runs = refl

ready-Owned : Owned ready
ready-Owned =
    do_calls-Owned true 10 (new_hdlr_domino linked) ready setup (new_hdlr_domino-Owned linked)
      setup_runs

do_calls-Owned_example : Owned ready
do_calls-Owned_example =
    do_calls-Owned true 10 (new_hdlr_domino linked) ready setup (new_hdlr_domino-Owned linked)
      setup_runs

-- "a" goes up, so "c" comes up and both handlers are called once.
abbrev to_first : Msg ℕ
to_first = record { frees = true; ev = 0; weak = first }

abbrev called : HdlrDomino ℕ
called = record ready {
  dom = record linked { marks = record { states = true ∷ true ∷ false ∷ []; effect_evs = [] } };
  sent = (to_first, 2) ∷ (record { frees = true; ev = 0; weak = second }, 2) ∷ [];
}

called_runs : set_state_hdlr true 10 ready a_up ≡ some (called, 1)
unfolding set_state_hdlr new_event lookup insert
called_runs = refl

set_state_sends_example :
    (new : List (Msg ℕ × ℕ)) × (called.sent ≡ new)
    × ((id pri : ℕ) → sent_to id 0 pri new ≡ (elem id (0 ∷ 1 ∷ []) && 2 == pri))
unfolding own get_priority lookup
set_state_sends_example = set_state_sends true 10 ready called a_up 1 0 linked-Inv called_runs refl

-- After `rmOneHdlrOK` another handler is set, and "a" goes up.
abbrev later : List (Call ℕ)
later = set_hdlr_call "c" (some 30) ∷ set_state_call a_up ∷ []

abbrev replaced : HdlrDomino ℕ
replaced = record called {
  hdlrs = some (record { id = 2; cb = 30 }) ∷ [];
  sent =
      (record { frees = true; ev = 0; weak = record { id = 2; cb = 30 } }, 2)
      ∷ (record { frees = true; ev = 0; weak = second }, 2)
      ∷ [];
  next_id = 3;
}

replaced_runs : do_calls true 10 (rm_one_hdlr_ok ready "c").0 later ≡ some replaced
unfolding do_calls rm_one_hdlr_ok new_event lookup insert get_event_by
replaced_runs = refl

withdrawn_example : (cb_hdlr replaced to_first).1 ≡ none
unfolding get_event_by lookup
withdrawn_example =
    withdrawn true 10 ready replaced "c" 0 to_first later ready-Owned refl refl refl replaced_runs

-- The first message calls its handler and frees it.
abbrev freed : HdlrDomino ℕ
freed = record called { hdlrs = none ∷ [] }

-- The callback of the handler calls `handleAllMsg`, and another message for it calls it again.
abbrev nested : List (Call ℕ)
nested = message_call to_first ∷ end_call ∷ end_call ∷ []

called_again :
    cb_hdlr (cb_hdlr called to_first).0 to_first ≡ (record freed { running = 0 ∷ 0 ∷ [] }, some 10)
unfolding cb_hdlr
called_again = refl

called-Owned : Owned called
unfolding do_calls set_state_hdlr new_event lookup insert
called-Owned = do_calls-Owned true 10 ready called (set_state_call a_up ∷ []) ready-Owned refl

freed_runs : do_calls true 10 (cb_hdlr called to_first).0 nested ≡ some freed
unfolding do_calls cb_hdlr
freed_runs = refl

freed_once_example : ((cb_hdlr called to_first).1 ≡ some 10) × ((cb_hdlr freed to_first).1 ≡ none)
unfolding own do_calls
freed_once_example =
    freed_once true 10 called freed freed to_first to_first nested [] called-Owned refl refl refl
      freed_runs refl refl

-- "c" is removed: a new event in its place starts without handlers.
abbrev removed_c : HdlrDomino ℕ
removed_c = record {
  dom = record {
    marks = record { states = false ∷ false ∷ false ∷ []; effect_evs = [] };
    prev = record { on_true = [] ∷ [] ∷ [] ∷ []; on_false = [] ∷ [] ∷ [] ∷ [] };
    next = record { on_true = [] ∷ [] ∷ [] ∷ []; on_false = [] ∷ [] ∷ [] ∷ [] };
    en_ev = ("a", 1) ∷ ("b", 2) ∷ [];
    ev_en = "" ∷ "a" ∷ "b" ∷ [];
    is_removed_ev = record { items = 0 ∷ []; first = λ _. 0 };
  };
  hdlrs = none ∷ [];
  multi = [] ∷ [];
  repeats = [];
  pris = [];
  sent = [];
  next_id = 2;
  running = [];
}

removed_runs : rm_ev_ok_hdlr true 10 ready "c" ≡ some (removed_c, true)
unfolding rm_ev_ok_hdlr rm_ev lookup insert get_event_by
removed_runs = refl

rm_ev_ok_hdlr-forgets_example :
    (true ≡ true)
    × (own removed_c 0 ≡ [])
    × (get_priority removed_c 0 ≡ 1)
    × (is_repeat_hdlr removed_c 0 ≡ false)
unfolding get_event_by lookup
rm_ev_ok_hdlr-forgets_example =
    rm_ev_ok_hdlr-forgets true 10 ready removed_c "c" 0 true refl removed_runs
