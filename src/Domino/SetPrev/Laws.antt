-- ===== src/Domino/SetPrev/Laws.antt =====
-- `setPrev` of domino/Domino.cpp as a whole.
use domino_library.Prelude.{
  ℕ, suc, ◌+◌, ◌≡◌, ◌≤◌, ◌<◌, ◌↔◌, ◌⊎◌, refl, sym, ◌∙◌, ap, subst, max, inl, inr, Bool, true, false,
  String, List, [], ◌∷◌, Option, none, some, some-injective, arith, lookup, string_eq, length, elem,
  if◌then◌else◌, Bool-cases, >>=-eq-some,
}
use domino_library.Domino.Links.{Branches, branch, find_peer_evs, Falls}
use domino_library.Domino.Marks.{state}
use domino_library.Domino.State.{Domino, SimuEvents, new_event}
use domino_library.Domino.Ops.{
  Done, nextables, validate, pure_set_prev, deduce_and_effect, set_prev,
}
use domino_library.Domino.Search.Bits.{marked}
use domino_library.Domino.Search.{
  Walk, follows, here, onward, nextables-Walk, nextables_ends, nextables_mono,
}
use domino_library.Domino.Inv.{Inv, InvBut-weaken}
use domino_library.Domino.Inv.Extend.{Extends, Extends-trans}
use domino_library.Domino.Inv.NewEvent.{new_event-Fresh}
use domino_library.Domino.Finish.{deduce_and_effect_ends, deduce_and_effect-Finished}
use domino_library.Domino.SetPrev.Check.{validate-Checked}
use domino_library.Domino.SetPrev.Wire.{AllLinked, Known-Cleared, Wired, pure_set_prev-Wired}

-- Some order of the events that new links from outside `bs` to `from` respect too
new_rank : (ℕ → ℕ) → ℕ → List Bool → ℕ → ℕ
new_rank rank from bs v = if marked bs v then rank v else rank v + suc (rank from)

new_rank-Falls :
    (rank : ℕ → ℕ) (next : Branches) (from : ℕ) (bs : List Bool)
    → Falls rank next
    → ((v : ℕ) → (marked bs v ≡ true) ↔ Walk next from v)
    → Falls (new_rank rank from bs) next
unfolding new_rank
new_rank-Falls rank next from bs falls walks b u v i = ground (arith, falls b u v i, closed)
  where
    closed : marked bs v ≡ true → marked bs u ≡ true
    closed m = (walks u).1 (onward ((walks v).0 m) (linked b i))
      where
        linked :
            (c : Bool) → elem u (find_peer_evs v (branch c next)) ≡ true → follows next u v ≡ true
        linked true j = ground arith
        linked false j = ground arith

new_rank_ahead :
    (rank : ℕ → ℕ) (next : Branches) (from : ℕ) (bs : List Bool)
    → ((v : ℕ) → (marked bs v ≡ true) ↔ Walk next from v)
    → (e : ℕ) → marked bs e ≡ false
    → new_rank rank from bs from < new_rank rank from bs e
unfolding new_rank
new_rank_ahead rank next from bs walks e ahead = let source = (walks from).1 here in ground arith

AllLinked-same :
    (d d' : Domino) (from : ℕ) (evs : SimuEvents)
    → d'.en_ev ≡ d.en_ev
    → d'.prev ≡ d.prev
    → AllLinked d from evs
    → AllLinked d' from evs
AllLinked-same d d' from [] names links l = tt
AllLinked-same d d' from ((name, s) ∷ evs) names links ((ev, found, there), l) = (
  (
    ev,
    ap (lookup name) names ∙ found,
    ap (λ p. elem ev (find_peer_evs from (branch s p))) links ∙ there,
  ),
  AllLinked-same d d' from evs names links l,
)

-- The call succeeded: the links are there, and what came up has its effect.
pub record Accepted (d : Domino) (evs : SimuEvents) (name : String) (r : Done (Option ℕ))
    : Type 0 where
  pub valid : Inv r.dom
  pub from : ℕ
  pub answer : r.ret ≡ some from
  pub found : lookup name r.dom.en_ev ≡ some from
  pub linked : AllLinked r.dom from evs
  pub keeps_names : (j : String) (e : ℕ) → lookup j d.en_ev ≡ some e → lookup j r.dom.en_ev ≡ some e
  pub sound : (e : ℕ) → elem e r.effects ≡ true → state r.dom.marks e ≡ true
  pub complete :
      (e : ℕ) → state d.marks e ≡ false → state r.dom.marks e ≡ true → elem e r.effects ≡ true

-- The call failed: there may be more names, and no link and no state is another.
pub record Rejected (d : Domino) (r : Done (Option ℕ)) : Type 0 where
  pub valid : Inv r.dom
  pub answer : r.ret ≡ none
  pub extends : Extends d r.dom
  pub quiet : r.effects ≡ []

module _ (d : Domino) (name : String) (evs : SimuEvents) (v : Inv d) where
  from : ℕ
  from = (new_event d name).1

  loose : ℕ → Bool
  loose e = elem e (from ∷ [])

  begun : Domino
  begun = (new_event d name).0

  checked : List Bool → Domino × Bool
  checked bs = validate begun from bs evs

  -- The links that passed the check keep the invariant, but for `from`.
  wired :
      (bs : List Bool)
      → ((u : ℕ) → (marked bs u ≡ true) ↔ Walk begun.next from u)
      → (checked bs).1 ≡ true
      → Wired loose (checked bs).0 from evs (pure_set_prev (checked bs).0 from evs)
  unfolding loose begun checked from
  wired bs walks ok =
      let f = new_event-Fresh d name (InvBut-weaken _ loose d (λ _ _. refl) v.held) in
      let c = validate-Checked begun from bs evs f.valid in
      let n = c.valid.names name from (c.extends.keeps_names name from f.found) in
      let falls = new_rank-Falls f.valid.rank begun.next from bs f.valid.falls walks in
      pure_set_prev-Wired loose (checked bs).0 from bs (new_rank f.valid.rank from bs) evs c.valid
        (λ b u w i. falls b u w (ap (elem u) (sym (c.extends.same_next b w)) ∙ i))
        (new_rank_ahead f.valid.rank begun.next from bs walks)
        (Known-Cleared (checked bs).0 from bs evs (c.cleared ok)) (ground arith) n.inside n.in_use

  module _ (fuel : ℕ) (r : Done (Option ℕ)) where
    accepted :
        (bs : List Bool)
        → ((u : ℕ) → (marked bs u ≡ true) ↔ Walk begun.next from u)
        → (checked bs).1 ≡ true
        → deduce_and_effect fuel (pure_set_prev (checked bs).0 from evs) (from ∷ []) (some from)
          ≡ some r
        → Accepted d evs name r
    unfolding loose begun checked from
    accepted bs walks ok e =
        let f = new_event-Fresh d name (InvBut-weaken _ loose d (λ _ _. refl) v.held) in
        let c = validate-Checked begun from bs evs f.valid in
        let x = Extends-trans f.extends c.extends in
        let w = wired bs walks ok in
        let d₁ = pure_set_prev (checked bs).0 from evs in
        let found₁ = ap (lookup name) w.same_names ∙ c.extends.keeps_names name from f.found in
        let n = w.valid.names name from found₁ in
        let z =
          deduce_and_effect-Finished d₁ (from ∷ []) (some from) w.valid
            (λ u i. ground (arith, n.inside)) (λ u i. ground (arith, n.in_use)) fuel r e in
        record {
          valid = z.valid;
          from = from;
          answer = z.answer;
          found = ap (lookup name) z.same.same_names ∙ found₁;
          linked = AllLinked-same d₁ r.dom from evs z.same.same_names z.same.same_prev w.linked;
          keeps_names =
              λ j u h. ap (lookup j) (z.same.same_names ∙ w.same_names) ∙ x.keeps_names j u h;
          sound = z.sound;
          complete =
              z.complete d.marks
                (λ u down up. ground (arith, ap (λ m. state m u) w.same_marks, x.same_states u));
        }

    rejected :
        (bs : List Bool)
        → (checked bs).1 ≡ false
        → Rejected d (record { dom = (checked bs).0; effects = []; ret = none })
    unfolding begun checked from
    rejected bs failed =
        let f = new_event-Fresh d name v.held in
        let c = validate-Checked begun from bs evs f.valid in
        let x = Extends-trans f.extends c.extends in
        record {
          valid = record { held = c.valid; idle = x.same_effects ∙ v.idle };
          answer = refl;
          extends = x;
          quiet = refl;
        }

  -- Whenever `setPrev` returns, it did one or the other.
  pub set_prev-cases :
      (fuel : ℕ) (r : Done (Option ℕ))
      → set_prev fuel d name evs ≡ some r
      → Accepted d evs name r ⊎ Rejected d r
  unfolding set_prev checked begun from
  set_prev-cases fuel r e =
      let f = new_event-Fresh d name v.held in
      let size = length begun.states + length evs in
      let (bs, searched, later) = >>=-eq-some (nextables begun.next fuel size from) _ e in
      let walks = λ (u : ℕ).
        nextables-Walk begun.next from (length begun.states) f.valid.linked.within size
          (omega arith) (f.valid.names name from f.found).inside fuel bs u searched in
      elim (Bool-cases (checked bs).1) [
        | inl ok ↦ inl (accepted fuel r bs walks ok (rw ok at later))
        | inr failed ↦ inr (
            subst (Rejected d) (some-injective _ _ (rw failed at later))
              (rejected fuel r bs failed))
      ]

  -- Enough fuel makes `setPrev` return, and so does any more.
  pub set_prev_ends :
      (enough : ℕ) × ((fuel : ℕ)
        → enough ≤ fuel
        → (r : Done (Option ℕ)) × (set_prev fuel d name evs ≡ some r))
  unfolding set_prev checked begun from loose
  set_prev_ends =
      let f = new_event-Fresh d name v.held in
      let size = length begun.states + length evs in
      let inside = (f.valid.names name from f.found).inside in
      let (bs, searched) =
        nextables_ends begun.next from (length begun.states) f.valid.linked.within size
          (omega arith) inside (suc size) (omega arith) in
      let walks = λ (u : ℕ).
        nextables-Walk begun.next from (length begun.states) f.valid.linked.within size
          (omega arith) inside (suc size) bs u searched in
      let again = λ (fuel : ℕ) (h : suc size ≤ fuel).
        nextables_mono begun.next (suc size) fuel size from bs h searched in
      elim (Bool-cases (checked bs).1) [
        | inl ok ↦
            let (enough, ends) =
              deduce_and_effect_ends (pure_set_prev (checked bs).0 from evs) (from ∷ []) (some from)
                (wired bs walks ok).valid in
            (
              max (suc size) enough,
              λ fuel h.
                  let (r, e) = ends fuel (omega arith) in
                  (r, rw (again fuel (omega arith)) (rw ok e)),
            )
        | inr failed ↦ (
          suc size,
          λ fuel h. (
            record { dom = (checked bs).0; effects = []; ret = none },
            rw (again fuel h) (rw failed refl),
          ),
        )
      ]
