-- ===== src/Domino/Marks.antt =====
-- The states of the tiles and their deduction along the links (domino/Domino.cpp).
use domino_library.Prelude.{
  ℕ, zero, suc, Bool, true, false, ◌&&◌, List, [], ◌∷◌, ◌++◌, Option, none, some, eqb,
  if◌then◌else◌, get_or, set, ◌>>=◌,
}
use domino_library.Domino.Links.{Branches, branch, find_peer_evs}

-- `states_` and `effectEVs_`: what a deduction changes
pub record Marks : Type 0 where
  pub states : List Bool
  pub effect_evs : List ℕ

-- `states_[aEv]`; an event out of range is down.
abbrev pub state : Marks → ℕ → Bool
state m ev = get_or m.states ev false

-- The new marks, and whether the state did change.
unfoldable pub pure_set_state_ok : Marks → ℕ → Bool → Marks × Bool
pure_set_state_ok m ev new_state = if eqb (state m ev) new_state then (m, false) else (
  record m {
    states = set m.states ev new_state;
    effect_evs = if new_state then m.effect_evs ++ ev ∷ [] else m.effect_evs;
  },
  true,
)

-- Each of `evs` has the state `type`.
unfoldable pub all_have : Bool → Marks → List ℕ → Bool
all_have type m [] = true
all_have type m (ev ∷ evs) = if eqb (state m ev) type then all_have type m evs else false

-- `for (...) evStack.push(...)`: the last one pushed is on top.
unfoldable pub push_all : List ℕ → List ℕ → List ℕ
push_all [] stack = stack
push_all (ev ∷ evs) stack = push_all evs (ev ∷ stack)

module _ (prev next : Branches) where
  unfoldable pub deduce_state_self : Marks → ℕ → Bool → Bool
  unfolding all_have
  deduce_state_self m ev type = all_have type m (find_peer_evs ev (branch type prev))

  -- What the predecessors of `ev` make of it.
  unfoldable pub deduced : Marks → ℕ → Bool
  unfolding deduce_state_self
  deduced m ev = deduce_state_self m ev true && deduce_state_self m ev false

  unfoldable pub push_nexts : ℕ → List ℕ → List ℕ
  unfolding push_all
  push_nexts ev stack =
      push_all (find_peer_evs ev next.on_false) (push_all (find_peer_evs ev next.on_true) stack)

  -- One round of the loop of `deduceStateFrom_`, with `cur` taken off the stack.
  unfoldable pub deduce_round : Marks → ℕ → List ℕ → Marks × List ℕ
  unfolding pure_set_state_ok deduced push_nexts
  deduce_round m cur stack =
      let (m', changed) = pure_set_state_ok m cur (deduced m cur) in
      (m', if changed then push_nexts cur stack else stack)

  -- The rounds until the stack is empty; `none` means that the fuel ran out.
  unfoldable pub deduce_loop : ℕ → Marks → List ℕ → Option Marks
  unfolding deduce_round
  deduce_loop fuel m [] = some m
  deduce_loop zero m (cur ∷ stack) = none
  deduce_loop (suc fuel) m (cur ∷ stack) =
      let r = deduce_round m cur stack in deduce_loop fuel r.0 r.1

  unfoldable pub deduce_state_from : ℕ → Marks → ℕ → Option Marks
  unfolding deduce_loop
  deduce_state_from fuel m ev = deduce_loop fuel m (ev ∷ [])

  -- `for (auto&& nextEV : evs) deduceStateFrom_(nextEV);`
  unfoldable pub deduce_each : ℕ → Marks → List ℕ → Option Marks
  unfolding deduce_state_from
  deduce_each fuel m [] = some m
  deduce_each fuel m (ev ∷ evs) = deduce_state_from fuel m ev >>= λ m'. deduce_each fuel m' evs
