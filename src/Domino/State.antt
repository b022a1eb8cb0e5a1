-- ===== src/Domino/State.antt =====
-- The state of domino/Domino.hpp with the removed events of domino/RmEvDom.hpp, and `newEvent`.
-- A domino without RmEvDom is one whose `is_removed_ev` is empty: `recycleEv_` fails for both.
-- D_EVENT_FAILED_RET is `none`.
use domino_library.Prelude.{
  ℕ, ◌%◌, Bool, false, String, List, [], ◌∷◌, ◌++◌, Option, none, some, leb, if◌then◌else◌, ◌==◌,
  ◌||◌, elem, length, get_or, set, lookup, insert, string_eq,
}
use domino_library.Domino.Links.{Branches}
use domino_library.Domino.Marks.{Marks}

-- std::unordered_set<Event>; `first` is the place of `begin()`, of which nothing is assumed.
pub record EventSet : Type 0 where
  pub items : List ℕ
  pub first : List ℕ → ℕ

pub record Domino : Type 0 where
  pub marks : Marks
  pub open marks use *
  pub prev : Branches
  pub next : Branches
  pub en_ev : List (String × ℕ)
  pub ev_en : List String
  pub is_removed_ev : EventSet

-- A domino with no event.
abbrev pub empty_domino : (List ℕ → ℕ) → Domino
empty_domino first = record {
  marks = record { states = []; effect_evs = [] };
  prev = record { on_true = []; on_false = [] };
  next = record { on_true = []; on_false = [] };
  en_ev = [];
  ev_en = [];
  is_removed_ev = record { items = []; first = first };
}

-- std::map<EvName, bool>, in iteration order
abbrev pub SimuEvents : Type 0
SimuEvents = List (String × Bool)

unfoldable pub get_event_by : Domino → String → Option ℕ
get_event_by d name = lookup name d.en_ev

-- Erase by value: the items are distinct.
unfoldable pub remove : ℕ → List ℕ → List ℕ
remove ev [] = []
remove ev (x ∷ xs) = if ev == x then xs else x ∷ remove ev xs

-- The event taken from the set of removed ones, and the set without it.
unfoldable pub recycle_ev : EventSet → Option (ℕ × EventSet)
unfolding remove
recycle_ev s = elim s.items [
  | [] ↦ none
  | x ∷ xs ↦
      let ev = get_or (x ∷ xs) (s.first (x ∷ xs) % length (x ∷ xs)) x in
      some (ev, record { items = remove ev (x ∷ xs); first = s.first })
]

-- push_back(false) and the like: room for one more event
unfoldable pub grow : Domino → Domino
grow d = record d {
  marks = record { states = d.states ++ false ∷ []; effect_evs = d.effect_evs };
  prev = grow_links d.prev;
  next = grow_links d.next;
  ev_en = d.ev_en ++ "" ∷ [];
}
  where
    grow_links : Branches → Branches
    grow_links l = record { on_true = l.on_true ++ [] ∷ []; on_false = l.on_false ++ [] ∷ [] }

-- The event gets its name, and a slot if it is a new one.
unfoldable pub name_event : Domino → String → ℕ → Domino
unfolding grow
name_event d name ev =
    let d' = if leb (length d.states) ev then grow d else d in
    record d' { en_ev = insert name ev d'.en_ev; ev_en = set d'.ev_en ev name }

unfoldable pub new_event : Domino → String → Domino × ℕ
unfolding get_event_by recycle_ev name_event
new_event d name = elim (get_event_by d name) [
  | some ev ↦ (d, ev)
  | none ↦ elim (recycle_ev d.is_removed_ev) [
    | some (ev, rest) ↦ (name_event (record d { is_removed_ev = rest }) name ev, ev)
    | none ↦ (name_event d name (length d.states), length d.states)
  ]
]

unfoldable pub is_removed : Domino → ℕ → Bool
is_removed d ev = leb (length d.states) ev || elem ev d.is_removed_ev.items

-- The names of the map's entries, less those of removed events
unfoldable pub names_in_use : Domino → List (String × ℕ) → List String
unfolding is_removed
names_in_use d [] = []
names_in_use d ((name, ev) ∷ entries) =
    if is_removed d ev then names_in_use d entries else name ∷ names_in_use d entries

unfoldable pub ev_names : Domino → List String
unfolding names_in_use
ev_names d = names_in_use d d.en_ev
