-- ===== src/Tests/Domino.antt =====
-- domino/Domino.cpp at small dominoes, as in ut/domino/DominoTest.cpp.
use domino_library.Prelude.{
  ℕ, ◌≡◌, ◌≢◌, ◌↔◌, ◌⊎◌, ◌<◌, refl, ap, inl, Bool, true, false, String, [], ◌∷◌, Option, none, some,
  elem, length, get_or, lookup, insert, string_eq, arith,
}
use domino_library.Domino.Links.{branch, find_peer_evs}
use domino_library.Domino.Marks.{state}
use domino_library.Domino.State.{
  Domino, SimuEvents, empty_domino, get_event_by, new_event, is_removed,
}
use domino_library.Domino.Ops.{Done, are_free, set_prev, set_state}
use domino_library.Domino.Search.{Walk, here, onward}
use domino_library.Domino.Inv.{Inv}
use domino_library.Domino.SetPrev.Wire.{AllLinked}
use domino_library.Domino.SetState.Values.{Holds}
use domino_library.Domino.Meaning.{Supported}
use domino_library.Domino.SetState.Counted.{differ}
use domino_library.Domino.WhyFalse.Peers.{IsRoot}
use domino_library.Domino.WhyFalse.{why_false}
use domino_library.Domino.WhyFalse.Cause.{why_false_fuel, why_false_lem}
use domino_library.Domino.Promises.NewEvent.{empty_domino-Inv, new_event_lem}
use domino_library.Domino.Promises.SetPrev.{
  set_prev-Inv, set_prev_links, set_prev_effects, set_prev_failed, set_prev_refuses_loop,
}
use domino_library.Domino.Promises.Again.{set_state_again}
use domino_library.Domino.Promises.SetState.{
  set_state_consistent, set_state_effects, set_state_sets,
}

c≢a : ◌≢◌ {A = String} "c" "a"
unfolding lookup
c≢a e = cc (ap (λ s. lookup {V = ℕ} s (("a", 0) ∷ [])) e)

b≢a : ◌≢◌ {A = String} "b" "a"
unfolding lookup
b≢a e = cc (ap (λ s. lookup {V = ℕ} s (("a", 0) ∷ [])) e)

abbrev nothing : Domino
nothing = empty_domino (λ _. 0)

-- "c" is up when "a" is up and "b" is down.
abbrev c_links : SimuEvents
c_links = ("a", true) ∷ ("b", false) ∷ []

abbrev pub linked : Domino
linked = record {
  marks = record { states = false ∷ false ∷ false ∷ []; effect_evs = [] };
  prev = record { on_true = (1 ∷ []) ∷ [] ∷ [] ∷ []; on_false = (2 ∷ []) ∷ [] ∷ [] ∷ [] };
  next = record { on_true = [] ∷ (0 ∷ []) ∷ [] ∷ []; on_false = [] ∷ [] ∷ (0 ∷ []) ∷ [] };
  en_ev = ("c", 0) ∷ ("a", 1) ∷ ("b", 2) ∷ [];
  ev_en = "c" ∷ "a" ∷ "b" ∷ [];
  is_removed_ev = record { items = []; first = λ _. 0 };
}

abbrev linked_done : Done (Option ℕ)
linked_done = record { dom = linked; effects = []; ret = some 0 }

linked_runs : set_prev 10 nothing "c" c_links ≡ some linked_done
unfolding set_prev new_event lookup insert
linked_runs = refl

pub linked-Inv : Inv linked
linked-Inv = set_prev-Inv 10 nothing "c" c_links linked_done (empty_domino-Inv (λ _. 0)) linked_runs

set_prev-Inv_example : Inv linked
set_prev-Inv_example =
    set_prev-Inv 10 nothing "c" c_links linked_done (empty_domino-Inv (λ _. 0)) linked_runs

-- "a" is set, so "c" comes up.
abbrev pub a_up : SimuEvents
a_up = ("a", true) ∷ []

abbrev up_done : Done ℕ
up_done = record {
  dom = record linked { marks = record { states = true ∷ true ∷ false ∷ []; effect_evs = [] } };
  effects = 1 ∷ 0 ∷ [];
  ret = 1;
}

up_runs : set_state 10 linked a_up ≡ some up_done
unfolding set_state new_event lookup insert
up_runs = refl

-- "c" cannot be set: it has predecessors.
c_refused :
    set_state 10 linked (("c", true) ∷ []) ≡ some (record { dom = linked; effects = []; ret = 0 })
unfolding set_state lookup get_event_by
c_refused = refl

-- A link from "c" to "a" would close a loop.
abbrev loop_done : Done (Option ℕ)
loop_done = record { dom = linked; effects = []; ret = none }

loop_runs : set_prev 10 linked "a" (("c", true) ∷ []) ≡ some loop_done
unfolding set_prev new_event lookup insert
loop_runs = refl

new_event_lem_example :
    ((new_event linked "d").1 < length (new_event linked "d").0.states)
    × (get_or (new_event linked "d").0.ev_en (new_event linked "d").1 "" ≡ "d")
    × (elem (new_event linked "d").1 (new_event linked "d").0.is_removed_ev.items ≡ false)
    × (get_event_by (new_event linked "d").0 "d" ≡ some (new_event linked "d").1)
    × (new_event (new_event linked "d").0 "d" ≡ new_event linked "d")
    × (state (new_event linked "d").0.marks 0 ≡ false)
    × (find_peer_evs 0 (branch true (new_event linked "d").0.prev) ≡ 1 ∷ [])
    × (find_peer_evs 0 (branch true (new_event linked "d").0.next) ≡ [])
new_event_lem_example = new_event_lem linked "d" true 0 linked-Inv

set_state_consistent_example :
    Inv up_done.dom
    × ((true ≡ false) ⊎ ((true ≡ true) ↔ Supported up_done.dom.prev up_done.dom.marks 0))
set_state_consistent_example = set_state_consistent 10 linked a_up up_done linked-Inv up_runs 0

set_state_effects_example : elem 0 up_done.effects ≡ true
set_state_effects_example = set_state_effects 10 linked a_up up_done linked-Inv up_runs 0 refl

set_state_sets_example : Holds up_done.dom a_up × (1 ≡ differ linked a_up)
unfolding are_free lookup get_event_by
set_state_sets_example = set_state_sets 10 linked a_up up_done linked-Inv up_runs refl ((tt, tt))

set_state_again_example :
    set_state 10 up_done.dom a_up ≡ some (record { dom = up_done.dom; effects = []; ret = 0 })
unfolding are_free lookup get_event_by
set_state_again_example =
    set_state_again 10 10 linked a_up up_done linked-Inv up_runs refl ((tt, tt))

set_prev_links_example : (get_event_by linked "c" ≡ some 0) × AllLinked linked 0 c_links
set_prev_links_example =
    set_prev_links 10 nothing "c" c_links linked_done (empty_domino-Inv (λ _. 0)) linked_runs 0 refl

set_prev_failed_example :
    (find_peer_evs 1 (branch true loop_done.dom.prev) ≡ [])
    × (find_peer_evs 1 (branch true loop_done.dom.next) ≡ 0 ∷ [])
    × (state loop_done.dom.marks 1 ≡ false)
    × (loop_done.effects ≡ [])
set_prev_failed_example =
    set_prev_failed 10 linked "a" (("c", true) ∷ []) loop_done linked-Inv loop_runs true 1 refl

-- "d" comes up at once: "b" is down.
abbrev raised_done : Done (Option ℕ)
raised_done = record {
  dom = record linked {
    marks = record { states = false ∷ false ∷ false ∷ true ∷ []; effect_evs = [] };
    prev = record {
      on_true = (1 ∷ []) ∷ [] ∷ [] ∷ [] ∷ [];
      on_false = (2 ∷ []) ∷ [] ∷ [] ∷ (2 ∷ []) ∷ [];
    };
    next = record {
      on_true = [] ∷ (0 ∷ []) ∷ [] ∷ [] ∷ [];
      on_false = [] ∷ [] ∷ (0 ∷ 3 ∷ []) ∷ [] ∷ [];
    };
    en_ev = ("c", 0) ∷ ("a", 1) ∷ ("b", 2) ∷ ("d", 3) ∷ [];
    ev_en = "c" ∷ "a" ∷ "b" ∷ "d" ∷ [];
  };
  effects = 3 ∷ [];
  ret = some 3;
}

raised_runs : set_prev 10 linked "d" (("b", false) ∷ []) ≡ some raised_done
unfolding set_prev new_event lookup insert
raised_runs = refl

set_prev_effects_example : elem 3 raised_done.effects ≡ true
set_prev_effects_example =
    set_prev_effects 10 linked "d" (("b", false) ∷ []) raised_done linked-Inv raised_runs 3 refl

set_prev_refuses_loop_example : loop_done.ret ≡ none
unfolding get_event_by lookup
set_prev_refuses_loop_example =
    set_prev_refuses_loop 10 linked "a" (("c", true) ∷ []) loop_done linked-Inv loop_runs 1 0 "c"
      refl refl (inl refl) (onward here refl)

-- "c" is down because "a" is.
c_why : why_false linked 5 0 ≡ some (some (1, false))
unfolding why_false
c_why = refl

why_false_lem_example :
    (e : ℕ) × (b : Bool) × (why_false linked (why_false_fuel linked linked-Inv) 0
      ≡ some (some (e, b)))
    × (state linked.marks e ≡ b)
    × Walk linked.next e 0
    × IsRoot linked 0 e b
unfolding is_removed
why_false_lem_example =
    why_false_lem linked linked-Inv (why_false_fuel linked linked-Inv) 0 (omega arith) refl refl

-- Links by which "x" is deduced up, down and up again when "a" goes up: "x" is up when "a" is up and
-- "q" is down, "q" when "a" is up and "r" is down, "r" when "a" is up.
abbrev glitch : Domino
glitch = record {
  marks = record { states = false ∷ false ∷ false ∷ false ∷ []; effect_evs = [] };
  prev = record {
    on_true = (1 ∷ []) ∷ [] ∷ (1 ∷ []) ∷ (1 ∷ []) ∷ [];
    on_false = (2 ∷ []) ∷ [] ∷ (3 ∷ []) ∷ [] ∷ [];
  };
  next = record {
    on_true = [] ∷ (0 ∷ 2 ∷ 3 ∷ []) ∷ [] ∷ [] ∷ [];
    on_false = [] ∷ [] ∷ (0 ∷ []) ∷ (2 ∷ []) ∷ [];
  };
  en_ev = ("x", 0) ∷ ("a", 1) ∷ ("q", 2) ∷ ("r", 3) ∷ [];
  ev_en = "x" ∷ "a" ∷ "q" ∷ "r" ∷ [];
  is_removed_ev = record { items = []; first = λ _. 0 };
}

-- The effect of "x" is called twice for one `setState`.
glitch_runs :
    set_state 20 glitch a_up
    ≡ some (record {
      dom = record glitch {
        marks = record { states = true ∷ true ∷ false ∷ true ∷ []; effect_evs = [] };
      };
      effects = 1 ∷ 0 ∷ 3 ∷ 0 ∷ [];
      ret = 1;
    })
unfolding set_state new_event lookup insert
glitch_runs = refl
