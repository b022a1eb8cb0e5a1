-- ===== src/Domino/SetState/Counted.antt =====
-- How many states the loop of `setState` in domino/Domino.cpp changes.
use domino_library.Prelude.{
  ℕ, ◌+◌, ◌≡◌, ◌≢◌, refl, sym, ◌∙◌, ap, inl, inr, Bool, false, not, String, [], ◌∷◌, none, some,
  arith, eqb, lookup, string_eq, length, if◌then◌else◌, Bool-cases, Option-cases, get_or,
}
use domino_library.Domino.Marks.{Marks, state, pure_set_state_ok}
use domino_library.Domino.Deduce.Round.{state-pure_set_ne}
use domino_library.Domino.State.{Domino, SimuEvents, new_event}
use domino_library.Domino.Ops.{set_states}
use domino_library.Domino.Inv.{InvBut}
use domino_library.Domino.Inv.NewEvent.{Fresh, new_event-Fresh}
use domino_library.Domino.SetState.Assign.{
  Free, new_event-free, Free-new_event, spread, assign, assign-InvBut,
}
use domino_library.Domino.SetState.Values.{Absent, UniqueNames, names_apart}

-- The state of a name: down, if there is no event with it.
unfoldable pub state_of : Domino → String → Bool
unfolding lookup
state_of d name = elim (lookup name d.en_ev) [ none ↦ false | some ev ↦ state d.marks ev ]

-- How many of the names are in another state than is asked for them
unfoldable pub differ : Domino → SimuEvents → ℕ
unfolding state_of
differ d [] = 0
differ d ((name, s) ∷ evs) = (if eqb (state_of d name) s then 0 else 1) + differ d evs

state_of-found :
    (d : Domino) (name : String) (ev : ℕ)
    → lookup name d.en_ev ≡ some ev
    → state_of d name ≡ state d.marks ev
unfolding state_of
state_of-found d name ev found = rw (state_of, found) refl

state_of-none : (d : Domino) (name : String) → lookup name d.en_ev ≡ none → state_of d name ≡ false
unfolding state_of
state_of-none d name new = rw (state_of, new) refl

-- `newEvent` changes the state of no name.
state_of-new_event :
    {loose : ℕ → Bool} (d : Domino) (name : String) (r : Domino × ℕ) (j : String)
    → Fresh loose d name r
    → state_of r.0 j ≡ state_of d j
state_of-new_event d name r j f = elim (Option-cases (lookup j d.en_ev)) [
  | inr (e, old) ↦
      state_of-found r.0 j e (f.extends.keeps_names j e old)
      ∙ f.extends.same_states e
      ∙ sym (state_of-found d j e old)
  | inl new ↦ elim (Option-cases (lookup j r.0.en_ev)) [
    | inl still ↦ state_of-none r.0 j still ∙ sym (state_of-none d j new)
    | inr (e, found) ↦ elim (f.only j e found) [
      | inl old ↦ absurd (ground (arith, old, new))
      | inr same ↦ elim f.origin [
        | inl old ↦
            let bears = (f.valid.names j e found).bears in
            let bears' = (f.valid.names name r.1 f.found).bears in
            let one : j ≡ name = sym bears ∙ ap (λ x. get_or r.0.ev_en x "") same ∙ bears' in
            absurd (ground (arith, ap (λ x. lookup x d.en_ev) one, old, new))
        | inr spare ↦
            state_of-found r.0 j e found
            ∙ f.extends.same_states e
            ∙ ap (state d.marks) same
            ∙ spare.down
            ∙ sym (state_of-none d j new)
      ]
    ]
  ]
]

-- Setting one name leaves the others.
state_of-assign :
    (loose : ℕ → Bool) (d : Domino) (name j : String) (ev : ℕ) (s : Bool)
    → InvBut loose d
    → lookup name d.en_ev ≡ some ev
    → j ≢ name
    → state_of (assign d ev s) j ≡ state_of d j
state_of-assign loose d name j ev s v found ne = elim (Option-cases (lookup j d.en_ev)) [
  | inl new ↦ state_of-none (assign d ev s) j new ∙ sym (state_of-none d j new)
  | inr (e, there) ↦
      state_of-found (assign d ev s) j e there
      ∙ state-pure_set_ne d.marks ev s e
          (names_apart loose d name j ev e v found there (λ q. ne (sym q)))
      ∙ sym (state_of-found d j e there)
]

differ-same :
    (d d' : Domino) (name : String) (evs : SimuEvents)
    → ((j : String) → j ≢ name → state_of d' j ≡ state_of d j)
    → Absent name evs
    → differ d' evs ≡ differ d evs
unfolding differ
differ-same d d' name [] same out = refl
differ-same d d' name ((j, s) ∷ evs) same (ne, out) =
    let first = same j (λ q. ne (sym q)) in
    let rest = differ-same d d' name evs same out in rw (first, rest) refl

pure_set_state_ok-changed :
    (m : Marks) (ev : ℕ) (s : Bool) → (pure_set_state_ok m ev s).1 ≡ not (eqb (state m ev) s)
unfolding pure_set_state_ok
pure_set_state_ok-changed m ev s = elim (Bool-cases (eqb (state m ev) s)) [
  | inl same ↦ rw (pure_set_state_ok, same) refl
  | inr other ↦ rw (pure_set_state_ok, other) refl
]

-- The loop collects one event for each name whose state differs.
pub length-set_states :
    (loose : ℕ → Bool) (d : Domino) (evs : SimuEvents)
    → InvBut loose d
    → Free d evs
    → UniqueNames evs
    → length (set_states d evs).1 ≡ differ d evs
unfolding set_states differ
length-set_states loose d [] v free unique = refl
length-set_states loose d ((name, s) ∷ evs) v (first, all) (out, unique) =
    let (d₁, ev) = new_event d name in
    let f = new_event-Fresh d name v in
    let free = new_event-free d name (new_event d name) f first in
    let n = f.valid.names name ev f.found in
    let ih =
      length-set_states (spread loose d₁ ev (pure_set_state_ok d₁.marks ev s).1) (assign d₁ ev s)
        evs (assign-InvBut loose d₁ ev s f.valid free n.inside n.in_use)
        (Free-new_event d name (new_event d name) evs f free all) unique in
    let rest =
      differ-same d (assign d₁ ev s) name evs
        (λ j ne.
          state_of-assign loose d₁ name j ev s f.valid f.found ne
          ∙ state_of-new_event d name (new_event d name) j f)
        out in
    let mine =
      sym (state_of-found d₁ name ev f.found)
      ∙ state_of-new_event d name (new_event d name) name f in
    let changed = pure_set_state_ok-changed d₁.marks ev s in ground (arith, ih, rest, mine, changed)
