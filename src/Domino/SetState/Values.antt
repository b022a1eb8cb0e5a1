-- ===== src/Domino/SetState/Values.antt =====
-- Which states the loop of `setState` in domino/Domino.cpp leaves.
use domino_library.Prelude.{
  ℕ, ◌≡◌, ◌≢◌, refl, sym, ◌∙◌, ap, Bool, false, String, [], ◌∷◌, some, lookup, string_eq,
}
use domino_library.Domino.Links.{has_prev}
use domino_library.Domino.Marks.{state, pure_set_state_ok}
use domino_library.Domino.Deduce.Round.{state-pure_set_ne, state-pure_set_self}
use domino_library.Domino.State.{Domino, SimuEvents, new_event}
use domino_library.Domino.Ops.{set_states}
use domino_library.Domino.Inv.{InvBut}
use domino_library.Domino.Inv.Extend.{has_prev-same}
use domino_library.Domino.Inv.NewEvent.{new_event-Fresh}
use domino_library.Domino.SetState.Assign.{
  Free, new_event-free, Free-new_event, spread, assign, assign-InvBut, set_states-Assigned,
}

-- The name is none of these.
abbrev pub Absent : String → SimuEvents → Type 0
Absent j [] = Unit {0}
Absent j ((name, s) ∷ evs) = (j ≢ name) × Absent j evs

-- A std::map has each key once.
abbrev pub UniqueNames : SimuEvents → Type 0
UniqueNames [] = Unit {0}
UniqueNames ((name, s) ∷ evs) = Absent name evs × UniqueNames evs

-- Each of these names has an event with no predecessor, which has the state asked for.
abbrev pub Holds : Domino → SimuEvents → Type 0
Holds d [] = Unit {0}
Holds d ((name, s) ∷ evs) =
    ((e : ℕ) × (lookup name d.en_ev ≡ some e) × (has_prev d.prev e ≡ false) × (state d.marks e ≡ s))
    × Holds d evs

-- Two names have two events.
pub names_apart :
    (loose : ℕ → Bool) (d : Domino) (i j : String) (a b : ℕ)
    → InvBut loose d
    → lookup i d.en_ev ≡ some a
    → lookup j d.en_ev ≡ some b
    → i ≢ j
    → a ≢ b
names_apart loose d i j a b v ha hb ne same =
    ne (sym (v.names i a ha).bears ∙ (v.names j a (hb ∙ ap some (sym same))).bears)

-- A name that is not set keeps its state.
pub set_states_keeps :
    (loose : ℕ → Bool) (d : Domino) (evs : SimuEvents) (j : String) (e : ℕ)
    → InvBut loose d
    → Free d evs
    → lookup j d.en_ev ≡ some e
    → Absent j evs
    → state (set_states d evs).0.marks e ≡ state d.marks e
unfolding set_states
set_states_keeps loose d [] j e v free h out = refl
set_states_keeps loose d ((name, s) ∷ evs) j e v (first, all) h (ne, out) =
    let (d₁, ev) = new_event d name in
    let f = new_event-Fresh d name v in
    let free = new_event-free d name (new_event d name) f first in
    let n = f.valid.names name ev f.found in
    let h₁ = f.extends.keeps_names j e h in
    set_states_keeps (spread loose d₁ ev (pure_set_state_ok d₁.marks ev s).1) (assign d₁ ev s) evs j
      e (assign-InvBut loose d₁ ev s f.valid free n.inside n.in_use)
      (Free-new_event d name (new_event d name) evs f free all) h₁ out
    ∙ state-pure_set_ne d₁.marks ev s e
        (names_apart loose d₁ name j ev e f.valid f.found h₁ (λ q. ne (sym q)))
    ∙ f.extends.same_states e

pub set_states-Holds :
    (loose : ℕ → Bool) (d : Domino) (evs : SimuEvents)
    → InvBut loose d
    → Free d evs
    → UniqueNames evs
    → Holds (set_states d evs).0 evs
unfolding set_states
set_states-Holds loose d [] v free unique = tt
set_states-Holds loose d ((name, s) ∷ evs) v (first, all) (out, unique) =
    let (d₁, ev) = new_event d name in
    let f = new_event-Fresh d name v in
    let free = new_event-free d name (new_event d name) f first in
    let n = f.valid.names name ev f.found in
    let loose₁ = spread loose d₁ ev (pure_set_state_ok d₁.marks ev s).1 in
    let v₁ = assign-InvBut loose d₁ ev s f.valid free n.inside n.in_use in
    let all₁ = Free-new_event d name (new_event d name) evs f free all in
    let a = set_states-Assigned loose₁ (assign d₁ ev s) evs v₁ all₁ in
    (
      (
        ev,
        a.keeps_names name ev f.found,
        has_prev-same d₁.prev _ ev a.same_prev ∙ free,
        set_states_keeps loose₁ (assign d₁ ev s) evs name ev v₁ all₁ f.found out
            ∙ state-pure_set_self d₁.marks ev s n.inside,
      ),
      set_states-Holds loose₁ (assign d₁ ev s) evs v₁ all₁ unique,
    )
