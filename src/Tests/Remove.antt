-- ===== src/Tests/Remove.antt =====
-- domino/RmEvDom.hpp at small dominoes, as in ut/domino/RmEvDomTest.cpp.
use domino_library.Prelude.{
  ℕ, ◌≡◌, ◌≢◌, refl, ap, Bool, true, false, String, [], ◌∷◌, Option, none, some, elem, lookup,
  insert, erase, string_eq, arith,
}
use domino_library.Domino.Links.{branch, find_peer_evs}
use domino_library.Domino.Marks.{state}
use domino_library.Domino.State.{Domino, empty_domino, get_event_by, new_event}
use domino_library.Domino.Ops.{Done, set_state, set_prev}
use domino_library.Domino.Remove.{rm_ev_ok}
use domino_library.Domino.Inv.{Inv}
use domino_library.Domino.Promises.NewEvent.{empty_domino-Inv}
use domino_library.Domino.Promises.SetPrev.{set_prev-Inv}
use domino_library.Domino.Promises.Returns.{domino_fuel, domino_returns}
use domino_library.Domino.Promises.Remove.{rm_ev_ok-Inv, rm_ev_ok_lem, rm_ev_ok_effects}

abbrev before : Domino
before = empty_domino (λ _. 0)

-- "c" is up when "a" is up and "b" is down.
abbrev built : Domino
built = record {
  marks = record { states = false ∷ false ∷ false ∷ []; effect_evs = [] };
  prev = record { on_true = (1 ∷ []) ∷ [] ∷ [] ∷ []; on_false = (2 ∷ []) ∷ [] ∷ [] ∷ [] };
  next = record { on_true = [] ∷ (0 ∷ []) ∷ [] ∷ []; on_false = [] ∷ [] ∷ (0 ∷ []) ∷ [] };
  en_ev = ("c", 0) ∷ ("a", 1) ∷ ("b", 2) ∷ [];
  ev_en = "c" ∷ "a" ∷ "b" ∷ [];
  is_removed_ev = record { items = []; first = λ _. 0 };
}

built_runs :
    set_prev 10 before "c" (("a", true) ∷ ("b", false) ∷ [])
    ≡ some (record { dom = built; effects = []; ret = some 0 })
unfolding set_prev new_event lookup insert
built_runs = refl

built-Inv : Inv built
built-Inv =
    set_prev-Inv 10 before "c" (("a", true) ∷ ("b", false) ∷ []) _ (empty_domino-Inv (λ _. 0))
      built_runs

-- "a" is removed: "c" comes up, since "b" is down.
abbrev removed_done : Done Bool
removed_done = record {
  dom = record {
    marks = record { states = true ∷ false ∷ false ∷ []; effect_evs = [] };
    prev = record { on_true = [] ∷ [] ∷ [] ∷ []; on_false = (2 ∷ []) ∷ [] ∷ [] ∷ [] };
    next = record { on_true = [] ∷ [] ∷ [] ∷ []; on_false = [] ∷ [] ∷ (0 ∷ []) ∷ [] };
    en_ev = ("c", 0) ∷ ("b", 2) ∷ [];
    ev_en = "c" ∷ "" ∷ "b" ∷ [];
    is_removed_ev = record { items = 1 ∷ []; first = λ _. 0 };
  };
  effects = 0 ∷ [];
  ret = true;
}

removed_runs : rm_ev_ok 10 built "a" ≡ some removed_done
unfolding rm_ev_ok lookup erase
removed_runs = refl

removed-Inv : Inv removed_done.dom
removed-Inv = rm_ev_ok-Inv 10 built "a" removed_done built-Inv removed_runs

rm_ev_ok-Inv_example : Inv removed_done.dom
rm_ev_ok-Inv_example = rm_ev_ok-Inv 10 built "a" removed_done built-Inv removed_runs

a≢b : ◌≢◌ {A = String} "a" "b"
unfolding lookup
a≢b e = cc (ap (λ s. lookup {V = ℕ} s (("b", 0) ∷ [])) e)

rm_ev_ok_lem_example :
    (removed_done.ret ≡ true)
    × (get_event_by removed_done.dom "a" ≡ none)
    × (elem 1 removed_done.dom.is_removed_ev.items ≡ true)
    × (state removed_done.dom.marks 1 ≡ false)
    × (get_event_by removed_done.dom "b" ≡ get_event_by built "b")
    × (elem 2 (find_peer_evs 0 (branch false removed_done.dom.prev)) ≡ true)
    × (elem 2 (find_peer_evs 0 (branch false removed_done.dom.next)) ≡ false)
unfolding get_event_by lookup
rm_ev_ok_lem_example =
    rm_ev_ok_lem 10 built "a" removed_done built-Inv removed_runs 1 "b" false 0 2 refl a≢b

-- Each operation with the fuel for all three
abbrev enough : ℕ
enough = domino_fuel built "a" (("b", true) ∷ []) built-Inv

domino_returns_example :
    ((r : Done ℕ) × (set_state enough built (("b", true) ∷ []) ≡ some r))
    × ((r : Done (Option ℕ)) × (set_prev enough built "a" (("b", true) ∷ []) ≡ some r))
    × ((r : Done Bool) × (rm_ev_ok enough built "a" ≡ some r))
domino_returns_example = domino_returns enough built "a" (("b", true) ∷ []) built-Inv (omega arith)

rm_ev_ok_effects_example : elem 0 removed_done.effects ≡ true
rm_ev_ok_effects_example = rm_ev_ok_effects 10 built "a" removed_done built-Inv removed_runs 0 refl

-- The last predecessor of "c" is removed: "c" is deduced from no predecessor, and is up.
orphan_runs :
    rm_ev_ok 10
      (record built {
        prev = record { on_true = (1 ∷ []) ∷ [] ∷ [] ∷ []; on_false = [] ∷ [] ∷ [] ∷ [] };
        next = record { on_true = [] ∷ (0 ∷ []) ∷ [] ∷ []; on_false = [] ∷ [] ∷ [] ∷ [] };
      })
      "a"
    ≡ some (record {
      dom = record removed_done.dom {
        prev = record { on_true = [] ∷ [] ∷ [] ∷ []; on_false = [] ∷ [] ∷ [] ∷ [] };
        next = record { on_true = [] ∷ [] ∷ [] ∷ []; on_false = [] ∷ [] ∷ [] ∷ [] };
      };
      effects = 0 ∷ [];
      ret = true;
    })
unfolding rm_ev_ok lookup erase
orphan_runs = refl
