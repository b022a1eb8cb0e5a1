-- ===== src/Domino/Ops.antt =====
-- The operations of domino/Domino.cpp that change links and states. `fuel` bounds the rounds of
-- each deduction and of the search for loops; `none` means that it ran out.
use domino_library.Prelude.{
  ℕ, zero, suc, ◌+◌, Bool, true, false, not, String, List, [], ◌∷◌, ◌++◌, Option, none, some,
  if◌then◌else◌, ◌>>=◌, length, get_or, set, replicate, elem, string_eq,
}
use domino_library.Domino.Links.{Branches, EvLinks, branch, set_branch, find_peer_evs, has_prev}
use domino_library.Domino.Marks.{Marks, state, pure_set_state_ok, deduce_each}
use domino_library.Domino.State.{Domino, SimuEvents, get_event_by, new_event}

-- What a call gives: the new domino, the events whose virtual `effect_(ev)` it calls, in order, and
-- its result.
pub record Done {ℓ} (A : Type ℓ) : Type ℓ where
  pub dom : Domino
  pub effects : List ℕ
  pub ret : A

-- The events of the list that are up.
unfoldable pub up_of : Marks → List ℕ → List ℕ
up_of m [] = []
up_of m (ev ∷ evs) = if state m ev then ev ∷ up_of m evs else up_of m evs

-- `effect_()`: those called, and the emptied `effectEVs_`
unfoldable pub effect {ℓ} : {A : Type ℓ} → Domino → A → Done A
unfolding up_of
effect d a = record {
  dom = record d { marks = record { states = d.states; effect_evs = [] } };
  effects = up_of d.marks d.effect_evs;
  ret = a;
}

module _ (next : Branches) where
  -- Marks and pushes those that are not marked yet.
  unfoldable pub mark_all : List ℕ → List Bool → List ℕ → List Bool × List ℕ
  mark_all [] nextable stack = (nextable, stack)
  mark_all (ev ∷ evs) nextable stack =
      let new = not (get_or nextable ev false) in
      mark_all evs (if new then set nextable ev true else nextable)
        (if new then ev ∷ stack else stack)

  -- One round of the search for what can be reached, with `cur` taken off the stack.
  unfoldable pub search_round : ℕ → List Bool → List ℕ → List Bool × List ℕ
  unfolding mark_all
  search_round cur nextable stack =
      let (marked, above) = mark_all (find_peer_evs cur next.on_true) nextable stack in
      mark_all (find_peer_evs cur next.on_false) marked above

  unfoldable pub search_loop : ℕ → List Bool → List ℕ → Option (List Bool)
  unfolding search_round
  search_loop fuel nextable [] = some nextable
  search_loop zero nextable (cur ∷ stack) = none
  search_loop (suc fuel) nextable (cur ∷ stack) =
      let r = search_round cur nextable stack in search_loop fuel r.0 r.1

  -- `nextable`: the events that can be reached from `from`, in `size` bits
  unfoldable pub nextables : ℕ → ℕ → ℕ → Option (List Bool)
  unfolding search_loop
  nextables fuel size from = search_loop fuel (set (replicate size false) from true) (from ∷ [])

-- False as soon as an event would close a loop, or is linked for the other state already.
unfoldable pub validate : Domino → ℕ → List Bool → SimuEvents → Domino × Bool
validate d from nextable [] = (d, true)
validate d from nextable ((prev_en, s) ∷ evs) =
    let r = new_event d prev_en in
    let rest = validate r.0 from nextable evs in
    if get_or nextable r.1 false
    then (r.0, false)
    else if elem r.1 (find_peer_evs from (branch (not s) r.0.prev))
    then (r.0, false)
    else rest

-- `ev` gets `peer` as a further peer, unless it has it.
unfoldable pub add_peer : ℕ → ℕ → EvLinks → EvLinks
add_peer ev peer links =
    if elem peer (find_peer_evs ev links)
    then links
    else set links ev (find_peer_evs ev links ++ peer ∷ [])

unfoldable pub add_link : Domino → ℕ → ℕ → Bool → Domino
unfolding add_peer
add_link d from prev_ev s = record d {
  prev = set_branch s d.prev (add_peer from prev_ev (branch s d.prev));
  next = set_branch s d.next (add_peer prev_ev from (branch s d.next));
}

unfoldable pub pure_set_prev : Domino → ℕ → SimuEvents → Domino
unfolding add_link
pure_set_prev d from [] = d
pure_set_prev d from ((prev_en, s) ∷ evs) =
    let r = new_event d prev_en in pure_set_prev (add_link r.0 from r.1 s) from evs

-- The states after `deduceStateFrom_` of each of `evs`, then `effect_()`
unfoldable pub deduce_and_effect {ℓ} : {A : Type ℓ} → ℕ → Domino → List ℕ → A → Option (Done A)
unfolding deduce_each effect
deduce_and_effect fuel d evs a =
    deduce_each d.prev d.next fuel d.marks evs >>= λ m. some (effect (record d { marks = m }) a)

-- `ret` is `none` where the code answers D_EVENT_FAILED_RET.
unfoldable pub set_prev : ℕ → Domino → String → SimuEvents → Option (Done (Option ℕ))
unfolding nextables validate pure_set_prev deduce_and_effect
set_prev fuel d name evs =
    let r = new_event d name in
    nextables r.0.next fuel (length r.0.states + length evs) r.1 >>= λ nextable.
    let v = validate r.0 r.1 nextable evs in
    if v.1
    then deduce_and_effect fuel (pure_set_prev v.0 r.1 evs) (r.1 ∷ []) (some r.1)
    else some (record { dom = v.0; effects = []; ret = none })

-- None of the events that are there has a predecessor.
unfoldable pub are_free : Domino → SimuEvents → Bool
are_free d [] = true
are_free d ((name, s) ∷ evs) = elim (get_event_by d name) [
  | none ↦ are_free d evs
  | some ev ↦ if has_prev d.prev ev then false else are_free d evs
]

-- Sets all the states; the second part lists the events whose state changed.
unfoldable pub set_states : Domino → SimuEvents → Domino × List ℕ
unfolding pure_set_state_ok
set_states d [] = (d, [])
set_states d ((name, s) ∷ evs) =
    let r = new_event d name in
    let p = pure_set_state_ok r.0.marks r.1 s in
    let (d', changed) = set_states (record r.0 { marks = p.0 }) evs in
    (d', if p.1 then r.1 ∷ changed else changed)

-- The successors of each of `evs`, in the order in which they are deduced
unfoldable pub nexts_of : Branches → List ℕ → List ℕ
nexts_of next [] = []
nexts_of next (ev ∷ evs) =
    find_peer_evs ev next.on_true ++ (find_peer_evs ev next.on_false ++ nexts_of next evs)

-- `ret` is the number of states that changed.
unfoldable pub set_state : ℕ → Domino → SimuEvents → Option (Done ℕ)
unfolding are_free set_states nexts_of deduce_and_effect
set_state fuel d evs =
    let r = set_states d evs in
    if are_free d evs
    then deduce_and_effect fuel r.0 (nexts_of r.0.next r.1) (length r.1)
    else some (record { dom = d; effects = []; ret = 0 })
