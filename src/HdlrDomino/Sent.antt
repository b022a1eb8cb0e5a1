-- ===== src/HdlrDomino/Sent.antt =====
-- Which messages `triggerHdlr_` and `effect_` of domino/HdlrDomino.hpp and
-- domino/MultiHdlrDomino.hpp give to MsgSelf.
use domino_library.Prelude.{
  ℕ, ◌≡◌, ap, inl, inr, Bool, false, ◌&&◌, ◌||◌, String, List, [], ◌∷◌, ◌++◌, ◌==◌, arith, elem,
  elem-append, Bool-cases, Option-cases,
}
use domino_library.Domino.Ops.{Done}
use domino_library.HdlrDomino.State.{
  Shared, Msg, HdlrDomino, hdlr_of, multi_of, get_priority, is_repeat_hdlr, trigger_hdlr, ids_of,
  single_id, own,
}
use domino_library.HdlrDomino.Hdlr.{base_effect, trigger_each, effect_of, effect_each, after}
use domino_library.HdlrDomino.Own.{Same, Same-own}
use domino_library.HdlrDomino.Keep.{trigger_hdlr-Same, base_effect-Same, effect_of-Same}

module _ {ℓ} {C : Type ℓ} where
  -- A message to this handler for this event stands in the list with this priority.
  unfoldable pub sent_to : ℕ → ℕ → ℕ → List (Msg C × ℕ) → Bool
  sent_to id ev pri [] = false
  sent_to id ev pri ((m, p) ∷ ms) =
      (m.weak.id == id && (m.ev == ev && p == pri)) || sent_to id ev pri ms

  sent_to-snoc :
      (id ev pri : ℕ) (ms : List (Msg C × ℕ)) (m : Msg C) (p : ℕ)
      → sent_to id ev pri (ms ++ (m, p) ∷ [])
        ≡ (sent_to id ev pri ms || (m.weak.id == id && (m.ev == ev && p == pri)))
  unfolding sent_to
  sent_to-snoc id ev pri [] m p = ground arith
  sent_to-snoc id ev pri ((m', p') ∷ ms) m p = ground (arith, sent_to-snoc id ev pri ms m p)

  pub Same-priority :
      (t t' : HdlrDomino C) (ev : ℕ) → Same t t' → get_priority t' ev ≡ get_priority t ev
  unfolding get_priority
  Same-priority t t' ev s = ap (λ x. get_priority (record t { pris = x }) ev) s.same_pris

  module _ (has_free : Bool) (id e pri : ℕ) where
    trigger_hdlr-sent :
        (t : HdlrDomino C) (h : Shared C) (ev : ℕ)
        → sent_to id e pri (trigger_hdlr has_free t h ev).sent
          ≡ (sent_to id e pri t.sent || (h.id == id && (ev == e && get_priority t ev == pri)))
    unfolding trigger_hdlr
    trigger_hdlr-sent t h ev = elim (Bool-cases has_free) [
      | inl free ↦ elim (Bool-cases (is_repeat_hdlr t ev)) [
        | inl again ↦ rw (free, again) (sent_to-snoc id e pri t.sent _ _)
        | inr once ↦ rw (free, once) (sent_to-snoc id e pri t.sent _ _)
      ]
      | inr not_free ↦ rw not_free (sent_to-snoc id e pri t.sent _ _)
    ]

    base_effect-sent :
        (t : HdlrDomino C) (ev : ℕ)
        → sent_to id e pri (base_effect has_free t ev).sent ≡ (
            sent_to id e pri t.sent
            || (elem id (single_id (hdlr_of t ev)) && (ev == e && get_priority t ev == pri)))
    unfolding base_effect single_id
    base_effect-sent t ev = elim (Option-cases (hdlr_of t ev)) [
      | inl empty ↦ rw (base_effect, empty) (ground arith)
      | inr (h, there) ↦ rw (base_effect, there) (ground (arith, trigger_hdlr-sent t h ev))
    ]

    trigger_each-sent :
        (t : HdlrDomino C) (hs : List (String × Shared C)) (ev : ℕ)
        → sent_to id e pri (trigger_each has_free t hs ev).sent ≡ (
            sent_to id e pri t.sent
            || (elem id (ids_of hs) && (ev == e && get_priority t ev == pri)))
    unfolding trigger_each ids_of
    trigger_each-sent t [] ev = ground arith
    trigger_each-sent t ((name, h) ∷ hs) ev =
        let t' = trigger_hdlr has_free t h ev in
        let same = Same-priority t t' ev (trigger_hdlr-Same has_free t h ev) in
        ground (arith, trigger_each-sent t' hs ev, trigger_hdlr-sent t h ev, same)

    effect_of-sent :
        (t : HdlrDomino C) (ev : ℕ)
        → sent_to id e pri (effect_of has_free t ev).sent ≡ (
            sent_to id e pri t.sent
            || (elem id (own t ev) && (ev == e && get_priority t ev == pri)))
    unfolding effect_of own
    effect_of-sent t ev =
        let t' = base_effect has_free t ev in
        let same = Same-priority t t' ev (base_effect-Same has_free t ev) in
        let both = elem-append id (single_id (hdlr_of t ev)) (ids_of (multi_of t ev)) in
        ground (arith, trigger_each-sent t' (multi_of t ev) ev, base_effect-sent t ev, same, both)

    effect_each-sent :
        (t : HdlrDomino C) (evs : List ℕ)
        → sent_to id e pri (effect_each has_free t evs).sent ≡ (
            sent_to id e pri t.sent
            || (elem e evs && (elem id (own t e) && get_priority t e == pri)))
    unfolding effect_each
    effect_each-sent t [] = ground arith
    effect_each-sent t (ev ∷ evs) =
        let t' = effect_of has_free t ev in
        let s = effect_of-Same has_free t ev in
        let rest = effect_each-sent t' evs in
        let same = Same-priority t t' e s in
        let mine = ap (elem id) (Same-own t t' e s) in
        let first = effect_of-sent t ev in
        elim (Bool-cases (ev == e)) [
          | inl here ↦
              let at : ev ≡ e = ground arith in
              ground (
                arith,
                rest,
                mine,
                same,
                first,
                ap (λ x. elem id (own t x)) at,
                ap (get_priority t) at,
              )
          | inr other ↦ ground (arith, rest, mine, same, first, other)
        ]

  -- The messages after a call of Domino with the effects `r.effects`
  pub after-sent {κ} :
      {A : Type κ} (has_free : Bool) (t : HdlrDomino C) (r : Done A) (id e pri : ℕ)
      → sent_to id e pri (after has_free t r).sent ≡ (
          sent_to id e pri t.sent
          || (elem e r.effects && (elem id (own t e) && get_priority t e == pri)))
  unfolding after own get_priority
  after-sent has_free t r id e pri =
      effect_each-sent has_free id e pri (record t { dom = r.dom }) r.effects
