-- ===== src/Domino/Promises/SetState.antt =====
-- `setState` of domino/Domino.cpp.
use domino_library.Prelude.{
  ◌∙◌, Bool-cases, ℕ, ◌≡◌, ◌≤◌, ◌↔◌, ◌⊎◌, sym, ap, inl, inr, true, false, String, some, elem, arith,
  subst, refl,
}
use domino_library.Domino.Links.{has_prev}
use domino_library.Domino.Marks.{state}
use domino_library.Domino.State.{Domino, SimuEvents, get_event_by}
use domino_library.Domino.Ops.{Done, are_free, set_state}
use domino_library.Domino.Inv.{Inv}
use domino_library.Domino.Meaning.{Supported, deduced_lem}
use domino_library.Domino.SetState.Values.{Absent, UniqueNames, Holds}
use domino_library.Domino.SetState.Assign.{are_free-Free}
use domino_library.Domino.SetState.Counted.{differ, length-set_states}
use domino_library.Domino.SetState.Laws.{refused, set_state-cases, set_state_ends}

-- Fuel with which `setState` returns
pub set_state_fuel : (d : Domino) (evs : SimuEvents) → Inv d → ℕ
set_state_fuel d evs v = (set_state_ends d evs v).0

-- From `set_state_fuel` on, `setState` returns.
pub set_state_returns :
    (fuel : ℕ) (d : Domino) (evs : SimuEvents) (v : Inv d)
    → set_state_fuel d evs v ≤ fuel
    → (r : Done ℕ) × (set_state fuel d evs ≡ some r)
unfolding set_state_fuel
set_state_returns fuel d evs v h = (set_state_ends d evs v).1 fuel h

module _ (fuel : ℕ) (d : Domino) (evs : SimuEvents) (r : Done ℕ) (v : Inv d)
    (returns : set_state fuel d evs ≡ some r) where
  -- When `setState` returns, accepted or refused, the invariant holds.
  pub set_state-Inv : Inv r.dom
  unfolding refused
  set_state-Inv = elim (set_state-cases d evs v fuel r returns) [
    | inl (ok, a) ↦ a.valid
    | inr (linked, e) ↦ subst (λ q. Inv q.dom) (sym e) v
  ]

  -- When `setState` returns on a domino that satisfies the invariant, accepted or refused, the
  -- invariant holds again, and each event has no
  -- predecessor, or is up if and only if all its predecessors for true are up and all its
  -- predecessors for false are down.
  pub set_state_consistent :
      (e : ℕ)
      → Inv r.dom
        × ((has_prev r.dom.prev e ≡ false)
            ⊎ ((state r.dom.marks e ≡ true) ↔ Supported r.dom.prev r.dom.marks e))
  set_state_consistent e = (
    set_state-Inv,
    elim (Bool-cases (has_prev r.dom.prev e)) [
      | inr root ↦ inl root
      | inl fed ↦
          let settled = set_state-Inv.settled e fed refl in
          let meaning = deduced_lem r.dom.prev r.dom.next r.dom.marks e in
          inr (λ up. meaning.0 (sym settled ∙ up), λ s. settled ∙ meaning.1 s)
    ],
  )

  -- An event that was down before `setState` and is up after it has its effect called.
  set_state_effects_complete :
      (e : ℕ) → state d.marks e ≡ false → state r.dom.marks e ≡ true → elem e r.effects ≡ true
  unfolding refused
  set_state_effects_complete e down up = elim (set_state-cases d evs v fuel r returns) [
    | inl (ok, a) ↦ a.complete e down up
    | inr (linked, q) ↦ ground (arith, ap (λ x. state x.dom.marks e) q)
  ]

  -- `setState` calls the effect only of events that are up when it returns.
  set_state_effects_sound : (e : ℕ) → elem e r.effects ≡ true → state r.dom.marks e ≡ true
  unfolding refused
  set_state_effects_sound e called = elim (set_state-cases d evs v fuel r returns) [
    | inl (ok, a) ↦ a.sound e called
    | inr (linked, q) ↦ ground (arith, ap (λ x. elem e x.effects) q)
  ]

  -- An event that was down before `setState` has its effect called if and only if it is up after it.
  pub set_state_effects : (e : ℕ) → state d.marks e ≡ false → elem e r.effects ≡ state r.dom.marks e
  set_state_effects e down = elim (Bool-cases (state r.dom.marks e)) [
    | inl up ↦ set_state_effects_complete e down up ∙ sym up
    | inr still ↦ elim (Bool-cases (elem e r.effects)) [
      | inl called ↦ called ∙ sym (set_state_effects_sound e called)
      | inr not_called ↦ not_called ∙ sym still
    ]
  ]

  -- When `setState` returns on a domino that satisfies the invariant, if none of the events has a
  -- predecessor, and the names differ, each of the events ends in the
  -- state asked for, and the answer is the number of names that were in another state before, where
  -- a name without event is down.
  pub set_state_sets :
      are_free d evs ≡ true → UniqueNames evs → Holds r.dom evs × (r.ret ≡ differ d evs)
  set_state_sets ok unique = elim (set_state-cases d evs v fuel r returns) [
    | inl (free, a) ↦ (
      a.holds unique,
      a.counted ∙ length-set_states (λ _. false) d evs v.held (are_free-Free d evs free) unique,
    )
    | inr (linked, q) ↦ ground arith
  ]

  -- An event without predecessor whose name is not set keeps its state.
  set_state_keeps :
      (j : String) (e : ℕ)
      → get_event_by d j ≡ some e
      → has_prev d.prev e ≡ false
      → Absent j evs
      → state r.dom.marks e ≡ state d.marks e
  unfolding refused get_event_by
  set_state_keeps j e found free out = elim (set_state-cases d evs v fuel r returns) [
    | inl (ok, a) ↦ a.keeps j e found free out
    | inr (linked, q) ↦ ap (λ x. state x.dom.marks e) q
  ]
