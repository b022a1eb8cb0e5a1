-- ===== src/Domino/Remove/Laws.antt =====
-- `rmEv_` of domino/Domino.cpp and domino/RmEvDom.hpp as a whole.
use domino_library.Prelude.{
  ℕ, ◌≡◌, ◌≢◌, ◌<◌, refl, sym, ◌∙◌, ap, subst, Bool, true, false, String, List, ◌++◌, some, arith,
  elem, elem-append, Distinct, ◌==◌, Bool-cases, inl, inr, length, lookup, string_eq,
}
use domino_library.Domino.Links.{branch, find_peer_evs, has_prev}
use domino_library.Domino.Deduce.Settle.{IsSettled}
use domino_library.Domino.Deduce.Agree.{deduced_on}
use domino_library.Domino.State.{Domino}
use domino_library.Domino.Inv.{IsBlank, Denotes, InvBut, Inv}
use domino_library.Domino.Remove.Wire.{
  without, elem-next, without-states, without-Linked, same_prevs, same_nexts, own_prevs,
  without-names, without-count, without-removed, without-ev_en, without-named,
}

module _ (d : Domino) (ev : ℕ) (v : Inv d) (inside : ev < length d.states)
    (in_use : elem ev d.is_removed_ev.items ≡ false) where
  abbrev pub todo : List ℕ
  todo = find_peer_evs ev d.next.on_true ++ find_peer_evs ev d.next.on_false

  -- `ev` leads to none of the others.
  not_todo :
      (e : ℕ) (b : Bool) → elem e todo ≡ false → elem e (find_peer_evs ev (branch b d.next)) ≡ false
  not_todo e true o =
      ground
        (arith, elem-append e (find_peer_evs ev d.next.on_true) (find_peer_evs ev d.next.on_false))
  not_todo e false o =
      ground
        (arith, elem-append e (find_peer_evs ev d.next.on_true) (find_peer_evs ev d.next.on_false))

  without-IsSettled :
      (e : ℕ)
      → has_prev (without ev d).prev e ≡ true
      → elem e todo ≡ false
      → IsSettled (without ev d).prev (without ev d).next (without ev d).marks e
  without-IsSettled e h out = elim (Bool-cases (ev == e)) [
    | inl same ↦
        let here : ev ≡ e = ground arith in
        let none : has_prev (without ev d).prev e ≡ false =
          rw (← here, own_prevs d ev v inside in_use true, own_prevs d ev v inside in_use false)
            refl in
        ground arith
    | inr other ↦
        let ne : ev ≢ e = ground arith in
        let links : (b : Bool)
            → find_peer_evs e (branch b (without ev d).prev) ≡ find_peer_evs e (branch b d.prev) =
          λ b. same_prevs d ev v inside in_use b e ne (not_todo e b out) in
        let fed : has_prev d.prev e ≡ true = rw (← links true, ← links false) h in
        without-states d ev v inside in_use e ne
        ∙ v.settled e fed refl
        ∙ sym (
            deduced_on d.prev d.next (without ev d).prev (without ev d).next d.marks
              (without ev d).marks e links
              (λ b w i. without-states d ev v inside in_use w (λ q. ground (
                arith,
                v.linked.both b e ev,
                not_todo e b out,
                ap (λ x. elem x (find_peer_evs e (branch b d.prev))) q,
              ))))
  ]

  without-Denotes :
      (j : String) (e : ℕ) → lookup j (without ev d).en_ev ≡ some e → Denotes (without ev d) j e
  without-Denotes j e h =
      let (old, ne) = without-names d ev v inside in_use j e h in
      let n = v.names j e old in
      record {
        inside = omega (arith, n.inside, without-count d ev v inside in_use);
        bears = without-ev_en d ev v inside in_use e ne ∙ n.bears;
        in_use = ap (λ s. elem e s.items) (without-removed d ev v inside in_use) ∙ n.in_use;
      }

  without-IsBlank : (e : ℕ) → elem e d.is_removed_ev.items ≡ true → IsBlank (without ev d) e
  without-IsBlank e i =
      let old = v.removed e i in
      let ne : ev ≢ e = λ q. ground (arith, ap (λ x. elem x d.is_removed_ev.items) q) in
      record {
        inside = omega (arith, old.inside, without-count d ev v inside in_use);
        down = without-states d ev v inside in_use e ne ∙ old.down;
        no_prev = λ b.
            same_prevs d ev v inside in_use b e ne
              (sym (v.linked.both b e ev) ∙ ap (elem ev) (old.no_prev b))
            ∙ old.no_prev b;
        no_next = λ b.
            same_nexts d ev v inside in_use b e ne
              (v.linked.both b ev e ∙ ap (elem ev) (old.no_next b))
            ∙ old.no_next b;
      }

  pub without-Inv : InvBut (λ e. elem e todo) (without ev d)
  without-Inv = record {
    linked = rw (without-count d ev v inside in_use) (without-Linked d ev v inside in_use);
    rank = v.rank;
    falls = λ b u w i. v.falls b u w (ground (arith, elem-next d ev v inside in_use b w u));
    settled = without-IsSettled;
    named = without-named d ev v inside in_use;
    names = without-Denotes;
    removed = λ e i.
        without-IsBlank e
          (sym (ap (λ s. elem e s.items) (without-removed d ev v inside in_use)) ∙ i);
    distinct =
        subst (λ s. Distinct s.items) (sym (without-removed d ev v inside in_use)) v.distinct;
  }
