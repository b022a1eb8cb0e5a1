-- ===== src/Domino/Remove/End.antt =====
-- What `rmEv_` of domino/Domino.cpp and domino/RmEvDom.hpp gives when it returns.
use domino_library.Prelude.{
  ℕ, ◌≡◌, ◌≢◌, ◌<◌, ◌≤◌, sym, ◌∙◌, ap, subst, Bool, true, false, String, some, arith, elem,
  elem-append, ◌==◌, Bool-cases, inl, inr, length, lookup, string_eq,
}
use domino_library.Domino.Links.{branch, find_peer_evs}
use domino_library.Domino.Marks.{state}
use domino_library.Domino.State.{Domino}
use domino_library.Domino.Ops.{Done}
use domino_library.Domino.Finish.{Finished, deduce_and_effect-Finished, deduce_and_effect_ends}
use domino_library.Domino.Inv.{IsBlank, Inv}
use domino_library.Domino.Remove.{base_rm_ev, mark_removed}
use domino_library.Domino.Remove.Wire.{
  without, elem-next, loopless_next, without-down, own_prevs, own_nexts, without-names,
  without-count, without-removed,
}
use domino_library.Domino.Remove.Laws.{todo, without-Inv}

module _ (d : Domino) (ev : ℕ) (v : Inv d) (inside : ev < length d.states)
    (in_use : elem ev d.is_removed_ev.items ≡ false) where
  todo_fed :
      (e : ℕ)
      → elem e (todo d ev v inside in_use) ≡ true
      → (b : Bool) × (elem e (find_peer_evs ev (branch b d.next)) ≡ true)
  todo_fed e i = elim (Bool-cases (elem e (find_peer_evs ev d.next.on_true))) [
    | inl t ↦ (true, t)
    | inr other ↦ (
      false,
      ground (
        arith,
        elem-append e (find_peer_evs ev d.next.on_true) (find_peer_evs ev d.next.on_false),
      ),
    )
  ]

  todo_inside :
      (e : ℕ) → elem e (todo d ev v inside in_use) ≡ true → e < length (without ev d).states
  todo_inside e i =
      let (b, t) = todo_fed e i in
      omega (arith, v.linked.within b e ev t, without-count d ev v inside in_use)

  todo_apart :
      (e : ℕ)
      → elem e (todo d ev v inside in_use) ≡ true
      → elem e (without ev d).is_removed_ev.items ≡ false
  todo_apart e i =
      let (b, t) = todo_fed e i in
      ap (λ s. elem e s.items) (without-removed d ev v inside in_use)
      ∙ elim (Bool-cases (elem e d.is_removed_ev.items)) [
        | inl gone ↦
            ground (arith, v.linked.both b e ev, ap (elem ev) ((v.removed e gone).no_prev b))
        | inr used ↦ used
      ]

  todo_away : (e : ℕ) → elem e (todo d ev v inside in_use) ≡ true → (ev == e) ≡ false
  todo_away e i = elim (Bool-cases (ev == e)) [
    | inl same ↦
        let (b, t) = todo_fed e i in
        let here : ev ≡ e = ground arith in
        ground (
          arith,
          loopless_next d ev v inside in_use b,
          ap (λ x. elem x (find_peer_evs ev (branch b d.next))) here,
        )
    | inr other ↦ other
  ]

  pub base_rm_ev_ends :
      (enough : ℕ) × ((fuel : ℕ)
        → enough ≤ fuel
        → (r : Done (Unit {0})) × (base_rm_ev fuel d ev ≡ some r))
  unfolding base_rm_ev
  base_rm_ev_ends =
      deduce_and_effect_ends (without ev d) (todo d ev v inside in_use) tt
        (without-Inv d ev v inside in_use)

  module _ (fuel : ℕ) (r : Done (Unit {0})) (returns : base_rm_ev fuel d ev ≡ some r) where
    pub finished : Finished (without ev d) (todo d ev v inside in_use) tt r
    unfolding base_rm_ev
    finished =
        deduce_and_effect-Finished (without ev d) (todo d ev v inside in_use) tt
          (without-Inv d ev v inside in_use) todo_inside todo_apart fuel r returns

    pub stays_down : state r.dom.marks ev ≡ false
    stays_down =
        finished.untouched (λ e. ev == e)
          (λ b u w i. ground (arith, elem-next d ev v inside in_use b w u)) todo_away ev
          (ground arith)
        ∙ without-down d ev v inside in_use

    gone : IsBlank r.dom ev
    gone = record {
      inside = omega (arith, finished.same.same_count, without-count d ev v inside in_use);
      down = stays_down;
      no_prev = λ b.
          ap (λ l. find_peer_evs ev (branch b l)) finished.same.same_prev
          ∙ own_prevs d ev v inside in_use b;
      no_next = λ b.
          ap (λ l. find_peer_evs ev (branch b l)) finished.same.same_next
          ∙ own_nexts d ev v inside in_use b;
    }

    pub unnamed :
        (j : String) (e : ℕ)
        → lookup j r.dom.en_ev ≡ some e
        → (lookup j d.en_ev ≡ some e) × (ev ≢ e)
    unnamed j e h =
        without-names d ev v inside in_use j e (ap (lookup j) (sym finished.same.same_names) ∙ h)

    still_in_use : elem ev r.dom.is_removed_ev.items ≡ false
    still_in_use =
        ap (λ s. elem ev s.items)
          (finished.same.same_removed ∙ without-removed d ev v inside in_use)
        ∙ in_use

    pub mark_removed-Inv : Inv (mark_removed ev r.dom)
    unfolding mark_removed
    mark_removed-Inv =
        let w = finished.valid in
        record {
          held = record {
            linked = w.linked;
            rank = w.rank;
            falls = w.falls;
            settled = w.settled;
            named = w.named;
            names = λ j e h.
                let n = w.names j e h in
                record {
                  inside = n.inside;
                  bears = n.bears;
                  in_use = ground (arith, n.in_use, (unnamed j e h).1);
                };
            removed = λ e i. elim (Bool-cases (ev == e)) [
              | inl same ↦
                  let here : ev ≡ e = ground arith in
                  let g : IsBlank r.dom e = subst (IsBlank r.dom) here gone in
                  record {
                    inside = g.inside;
                    down = g.down;
                    no_prev = g.no_prev;
                    no_next = g.no_next;
                  }
              | inr other ↦
                  let g = w.removed e (ground arith) in
                  record {
                    inside = g.inside;
                    down = g.down;
                    no_prev = g.no_prev;
                    no_next = g.no_next;
                  }
            ];
            distinct = (still_in_use, w.distinct);
          };
          idle = w.idle;
        }
