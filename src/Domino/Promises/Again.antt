-- ===== src/Domino/Promises/Again.antt =====
-- `setState` of domino/Domino.cpp with states that hold already.
use domino_library.Prelude.{
  ℕ, ◌≡◌, refl, sym, ◌∙◌, ap, true, Bool, List, Option, [], ◌∷◌, some, arith, eqb, string_eq,
}
use domino_library.Domino.Marks.{state, pure_set_state_ok, deduce_each}
use domino_library.Domino.State.{Domino, SimuEvents, get_event_by, new_event}
use domino_library.Domino.Ops.{
  Done, are_free, set_states, nexts_of, effect, up_of, deduce_and_effect, set_state,
}
use domino_library.Domino.Inv.{Inv}
use domino_library.Domino.SetState.Values.{UniqueNames, Holds}
use domino_library.Domino.Promises.SetState.{set_state-Inv, set_state_sets}

are_free-Holds : (d : Domino) (evs : SimuEvents) → Holds d evs → are_free d evs ≡ true
unfolding are_free get_event_by
are_free-Holds d [] h = refl
are_free-Holds d ((name, s) ∷ evs) ((e, found, free, value), h) =
    rw (are_free, found) (rw free (are_free-Holds d evs h))

eqb_same : (b : Bool) → eqb b b ≡ true
eqb_same b = ground arith

set_states-Holds_same : (d : Domino) (evs : SimuEvents) → Holds d evs → set_states d evs ≡ (d, [])
unfolding set_states new_event get_event_by pure_set_state_ok
set_states-Holds_same d [] h = refl
set_states-Holds_same d ((name, s) ∷ evs) ((e, found, free, value), h) =
    let same : eqb (state d.marks e) s ≡ true = ground (arith, value) in
    rw (set_states, new_event, found)
      (rw (pure_set_state_ok, same) (rw (set_states-Holds_same d evs h) refl))

nothing_to_do :
    (fuel : ℕ) (d : Domino)
    → Inv d
    → deduce_and_effect {A = ℕ} fuel d [] 0 ≡ some (record { dom = d; effects = []; ret = 0 })
unfolding deduce_and_effect deduce_each effect up_of
nothing_to_do fuel d v =
    let outcome : List ℕ → List ℕ → Option (Done ℕ) = λ due called. some (record {
      dom = record d { marks = record { states = d.states; effect_evs = due } };
      effects = up_of d.marks called;
      ret = 0;
    }) in
    ap (outcome []) v.idle ∙ ap (λ due. outcome due []) (sym v.idle)

-- When `setState` returns on a domino that satisfies the invariant, none of the events has a
-- predecessor and the names differ, a second call with the same events and any fuel returns, answers
-- 0, calls no effect and leaves the domino as it is.
pub set_state_again :
    (fuel fuel' : ℕ) (d : Domino) (evs : SimuEvents) (r : Done ℕ)
    → Inv d
    → set_state fuel d evs ≡ some r
    → are_free d evs ≡ true
    → UniqueNames evs
    → set_state fuel' r.dom evs ≡ some (record { dom = r.dom; effects = []; ret = 0 })
unfolding set_state nexts_of
set_state_again fuel fuel' d evs r v returns ok unique =
    let holds = (set_state_sets fuel d evs r v returns ok unique).0 in
    rw (set_state, are_free-Holds r.dom evs holds)
      (rw (set_states-Holds_same r.dom evs holds)
        (nothing_to_do fuel' r.dom (set_state-Inv fuel d evs r v returns)))
