-- ===== src/Domino/Promises/Remove.antt =====
-- `rmEvOK` of domino/RmEvDom.hpp.
pub mod Ends
use domino_library.Prelude.{
  ℕ, ◌≡◌, ◌≢◌, ◌≤◌, ◌⊎◌, refl, sym, ◌∙◌, ap, subst, inl, inr, Bool, true, false, not, ◌&&◌, String,
  [], Option, none, some, some-injective, lookup, string_eq, elem, arith, ◌==◌, Bool-cases,
  Option-cases, >>=-eq-some, ◌>>=◌, get_or,
}
use domino_library.Domino.Links.{branch, find_peer_evs}
use domino_library.Domino.Marks.{state}
use domino_library.Domino.Deduce.Track.{Raised}
use domino_library.Domino.State.{Domino, get_event_by}
use domino_library.Domino.Ops.{Done}
use domino_library.Domino.Inv.{Inv}
use domino_library.Domino.Remove.{base_rm_ev, mark_removed, rm_ev, rm_ev_ok}
use domino_library.Domino.Remove.Wire.{
  without, without-down, elem-prev, elem-next, without-states, without-lookup,
}
use domino_library.Domino.Remove.End.{
  finished, stays_down, mark_removed-Inv, base_rm_ev_ends, unnamed,
}
use domino_library.Domino.Promises.Remove.Ends.{unknown, removal, rm_ev_ok-some, rm_ev_ok-none}

module _ (fuel : ℕ) (d : Domino) (name : String) (r : Done Bool) (v : Inv d)
    (returns : rm_ev_ok fuel d name ≡ some r) where
  abbrev Removed : ℕ → Type 0
  Removed ev = (q : Done (Unit {0})) × (base_rm_ev fuel d ev ≡ some q) × (r ≡ removal ev q)

  outcome : (ev : ℕ) → get_event_by d name ≡ some ev → Removed ev
  outcome ev found =
      let (q, e, f) =
        >>=-eq-some (base_rm_ev fuel d ev) _ (sym (rm_ev_ok-some fuel d name ev found) ∙ returns) in
      (q, e, sym (some-injective _ _ f))

  cases : (r ≡ unknown d) ⊎ ((ev : ℕ) × (get_event_by d name ≡ some ev) × Removed ev)
  cases = elim (Option-cases (get_event_by d name)) [
    | inl missing ↦ inl (some-injective _ _ (sym returns ∙ rm_ev_ok-none fuel d name missing))
    | inr (ev, found) ↦ inr (ev, found, outcome ev found)
  ]

  -- When `rmEvOK` returns, whether the event was there or not, the invariant holds: the states agree
  -- with the predecessors that are left, and the removed event is blank.
  pub rm_ev_ok-Inv : Inv r.dom
  unfolding removal unknown get_event_by
  rm_ev_ok-Inv = elim cases [
    | inl e ↦ subst (λ x. Inv x.dom) (sym e) v
    | inr (ev, found, (q, returned, e)) ↦
        let n = v.names name ev found in
        subst (λ x. Inv x.dom) (sym e) (mark_removed-Inv d ev v n.inside n.in_use fuel q returned)
  ]

  forgotten :
      (ev : ℕ)
      → get_event_by d name ≡ some ev
      → (q : Done (Unit {0})) → base_rm_ev fuel d ev ≡ some q
      → lookup name q.dom.en_ev ≡ none
  unfolding get_event_by
  forgotten ev found q returned = elim (Option-cases (lookup name q.dom.en_ev)) [
    | inl free ↦ free
    | inr (a, h) ↦
        let n = v.names name ev found in
        let (old, ne) = unnamed d ev v n.inside n.in_use fuel q returned name a h in
        absurd (ne (some-injective ev a (sym found ∙ old)))
  ]

  rm_ev_ok_names : (j : String) → name ≢ j → get_event_by r.dom j ≡ get_event_by d j
  unfolding removal unknown get_event_by mark_removed
  rm_ev_ok_names j other = elim cases [
    | inl e ↦ ap (λ x. lookup j x.dom.en_ev) e
    | inr (ev, found, (q, returned, e)) ↦
        let n = v.names name ev found in
        ap (λ x. lookup j x.dom.en_ev) e
        ∙ ap (lookup j) (finished d ev v n.inside n.in_use fuel q returned).same.same_names
        ∙ without-lookup d ev v n.inside n.in_use j
        ∙ ground (arith, n.bears, string_eq.beq_iff (get_or d.ev_en ev "") j, other)
  ]

  -- The names after `rmEvOK`
  rm_ev_ok_forgets :
      (ev : ℕ) (j : String)
      → get_event_by d name ≡ some ev
      → name ≢ j
      → (r.ret ≡ true)
        × (get_event_by r.dom name ≡ none)
        × (elem ev r.dom.is_removed_ev.items ≡ true)
        × (state r.dom.marks ev ≡ false)
        × (get_event_by r.dom j ≡ get_event_by d j)
  unfolding removal get_event_by mark_removed
  rm_ev_ok_forgets ev j found other =
      let n = v.names name ev found in
      let (q, returned, e) = outcome ev found in
      (
        ap (λ x. x.ret) e,
        ap (λ x. lookup name x.dom.en_ev) e ∙ forgotten ev found q returned,
        ap (λ x. elem ev x.dom.is_removed_ev.items) e ∙ ground arith,
        ap (λ x. state x.dom.marks ev) e ∙ stays_down d ev v n.inside n.in_use fuel q returned,
        rm_ev_ok_names j other,
      )

  -- The links after `rmEvOK`
  rm_ev_ok_links :
      (ev : ℕ) (b : Bool) (u a : ℕ)
      → get_event_by d name ≡ some ev
      → (elem a (find_peer_evs u (branch b r.dom.prev))
          ≡ (elem a (find_peer_evs u (branch b d.prev)) && (not (ev == u) && not (ev == a))))
        × (elem a (find_peer_evs u (branch b r.dom.next))
            ≡ (elem a (find_peer_evs u (branch b d.next)) && (not (ev == u) && not (ev == a))))
  unfolding removal get_event_by mark_removed
  rm_ev_ok_links ev b u a found =
      let n = v.names name ev found in
      let (q, returned, e) = outcome ev found in
      let f = (finished d ev v n.inside n.in_use fuel q returned).same in
      (
        ap (λ x. elem a (find_peer_evs u (branch b x.dom.prev))) e
            ∙ ap (λ l. elem a (find_peer_evs u (branch b l))) f.same_prev
            ∙ elem-prev d ev v n.inside n.in_use b u a,
        ap (λ x. elem a (find_peer_evs u (branch b x.dom.next))) e
            ∙ ap (λ l. elem a (find_peer_evs u (branch b l))) f.same_next
            ∙ elem-next d ev v n.inside n.in_use b u a,
      )

  -- When `rmEvOK` returns for an event that is there, it answers true, the name is free, the event is
  -- among the removed ones and down, every other name stands for what it stood for, and the peers of
  -- every event are those from before, less the removed event, and this has none.
  pub rm_ev_ok_lem :
      (ev : ℕ) (j : String) (b : Bool) (u a : ℕ)
      → get_event_by d name ≡ some ev
      → name ≢ j
      → (r.ret ≡ true)
        × (get_event_by r.dom name ≡ none)
        × (elem ev r.dom.is_removed_ev.items ≡ true)
        × (state r.dom.marks ev ≡ false)
        × (get_event_by r.dom j ≡ get_event_by d j)
        × (elem a (find_peer_evs u (branch b r.dom.prev))
            ≡ (elem a (find_peer_evs u (branch b d.prev)) && (not (ev == u) && not (ev == a))))
        × (elem a (find_peer_evs u (branch b r.dom.next))
            ≡ (elem a (find_peer_evs u (branch b d.next)) && (not (ev == u) && not (ev == a))))
  rm_ev_ok_lem ev j b u a found other =
      let n = rm_ev_ok_forgets ev j found other in
      let l = rm_ev_ok_links ev b u a found in (n.0, n.1, n.2, n.3, n.4, l.0, l.1)

  raised : (ev : ℕ) → get_event_by d name ≡ some ev → Raised d.marks (without ev d).marks
  unfolding get_event_by
  raised ev found e down up =
      let n = v.names name ev found in
      elim (Bool-cases (ev == e)) [
        | inl same ↦
            let here : ev ≡ e = ground arith in
            ground
              (arith, ap (state (without ev d).marks) here, without-down d ev v n.inside n.in_use)
        | inr other ↦ ground (arith, without-states d ev v n.inside n.in_use e (ground arith))
      ]

  -- An event that was down before `rmEvOK` and is up after it has its effect called.
  rm_ev_ok_effects_complete :
      (e : ℕ) → state d.marks e ≡ false → state r.dom.marks e ≡ true → elem e r.effects ≡ true
  unfolding removal unknown get_event_by mark_removed
  rm_ev_ok_effects_complete e down up = elim cases [
    | inl q ↦ ground (arith, ap (λ x. state x.dom.marks e) q)
    | inr (ev, found, (q, returned, s)) ↦
        let n = v.names name ev found in
        ap (λ x. elem e x.effects) s
        ∙ (finished d ev v n.inside n.in_use fuel q returned).complete d.marks (raised ev found) e
            down (sym (ap (λ x. state x.dom.marks e) s) ∙ up)
  ]

  -- `rmEvOK` calls the effect only of events that are up when it returns.
  rm_ev_ok_effects_sound : (e : ℕ) → elem e r.effects ≡ true → state r.dom.marks e ≡ true
  unfolding removal unknown get_event_by mark_removed
  rm_ev_ok_effects_sound e called = elim cases [
    | inl q ↦ ground (arith, ap (λ x. elem e x.effects) q)
    | inr (ev, found, (q, returned, s)) ↦
        let n = v.names name ev found in
        ap (λ x. state x.dom.marks e) s
        ∙ (finished d ev v n.inside n.in_use fuel q returned).sound e
            (sym (ap (λ x. elem e x.effects) s) ∙ called)
  ]

  -- An event that was down before `rmEvOK` has its effect called if and only if it is up after it.
  pub rm_ev_ok_effects : (e : ℕ) → state d.marks e ≡ false → elem e r.effects ≡ state r.dom.marks e
  rm_ev_ok_effects e down = elim (Bool-cases (state r.dom.marks e)) [
    | inl up ↦ rm_ev_ok_effects_complete e down up ∙ sym up
    | inr still ↦ elim (Bool-cases (elem e r.effects)) [
      | inl called ↦ called ∙ sym (rm_ev_ok_effects_sound e called)
      | inr not_called ↦ not_called ∙ sym still
    ]
  ]
