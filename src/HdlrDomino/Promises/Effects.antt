-- ===== src/HdlrDomino/Promises/Effects.antt =====
-- Which handlers a change of states calls, and what the removal of an event forgets.
use domino_library.Prelude.{
  ℕ, ◌≡◌, refl, sym, ◌∙◌, ap, inl, inr, Bool, true, false, ◌&&◌, String, List, [], ◌++◌, ◌==◌, none,
  some, get_or-set_default, lookup-erase, erase, nat_eq, beq_refl, some-injective, arith, elem,
  Option-cases, lookup, get_or, >>=-eq-some,
}
use domino_library.MsgSelf.{norm}
use domino_library.Domino.State.{SimuEvents, get_event_by}
use domino_library.Domino.Marks.{state}
use domino_library.Domino.Inv.{Inv}
use domino_library.Domino.Ops.{set_state}
use domino_library.Domino.Promises.SetState.{set_state_effects}
use domino_library.HdlrDomino.State.{
  Msg, HdlrDomino, hdlr_of, multi_of, get_priority, is_repeat_hdlr, own, single_id, ids_of,
}
use domino_library.HdlrDomino.Hdlr.{set_state_hdlr, after, rm_hdlr_at}
use domino_library.HdlrDomino.Own.{Same-own}
use domino_library.Domino.Remove.{rm_ev}
use domino_library.HdlrDomino.Keep.{after-Same}
use domino_library.HdlrDomino.Calls.{rm_ev_ok_hdlr, forget}
use domino_library.HdlrDomino.Appended.{after-appended}
use domino_library.HdlrDomino.Sent.{sent_to, after-sent, Same-priority}

module _ {ℓ} {C : Type ℓ} where
  -- When `setState` returns on a domino that satisfies the invariant, the messages from before are
  -- still there, in front, and for an event that was down, the messages behind them have one to a
  -- handler, at least, if and only if the event is up now and has the handler, and all of these have
  -- the priority of the event.
  pub set_state_sends :
      (has_free : Bool) (fuel : ℕ) (t t' : HdlrDomino C) (evs : SimuEvents) (n e : ℕ)
      → Inv t.dom
      → set_state_hdlr has_free fuel t evs ≡ some (t', n)
      → state t.dom.marks e ≡ false
      → (new : List (Msg C × ℕ)) × (t'.sent ≡ t.sent ++ new)
        × ((id pri : ℕ)
            → sent_to id e pri new
              ≡ (state t'.dom.marks e && (elem id (own t e) && get_priority t e == pri)))
  unfolding set_state_hdlr own get_priority sent_to
  set_state_sends has_free fuel t t' evs n e v returns down =
      let (r, called, q) = >>=-eq-some (set_state fuel t.dom evs) _ returns in
      let after_is : after has_free t r ≡ t' = ap (λ x. x.0) (some-injective _ _ q) in
      let up = ap (λ d. state d.marks e) (after-Same has_free t r).same_dom in
      let exact = set_state_effects fuel t.dom evs r v called e down in
      let up' = ap (λ x. state x.dom.marks e) after_is in
      let t₀ : HdlrDomino C = record t { sent = [] } in
      (
        (after has_free t₀ r).sent,
        sym (ap (λ x. x.sent) after_is) ∙ after-appended has_free t r,
        λ id pri.
            let sends = after-sent has_free t₀ r id e pri in ground (arith, up, exact, sends, up'),
      )

  forget-hdlr : (t : HdlrDomino C) (ev : ℕ) → hdlr_of (forget t ev) ev ≡ none
  unfolding forget rm_hdlr_at
  forget-hdlr t ev = elim (Option-cases (hdlr_of t ev)) [
    | inl empty ↦ rw (forget, rm_hdlr_at, empty) empty
    | inr (h, there) ↦
        rw (forget, rm_hdlr_at, there) (get_or-set_default t.hdlrs ev ev none ∙ ground arith)
  ]

  forget-own : (t : HdlrDomino C) (ev : ℕ) → own (forget t ev) ev ≡ []
  unfolding own single_id ids_of
  forget-own t ev =
      let clear : multi_of (forget t ev) ev ≡ [] =
        unfold forget in get_or-set_default t.multi ev ev [] ∙ ground arith in
      rw (own, forget-hdlr t ev, clear) refl

  forget-priority : (t : HdlrDomino C) (ev : ℕ) → get_priority (forget t ev) ev ≡ norm
  unfolding get_priority forget
  forget-priority t ev =
      let gone : lookup ev (erase ev t.pris) ≡ none =
        lookup-erase ev ev t.pris ∙ rw (beq_refl ⦃e = nat_eq⦄ ev) refl in
      rw (forget, get_priority, gone) refl

  forget-repeats : (t : HdlrDomino C) (ev : ℕ) → is_repeat_hdlr (forget t ev) ev ≡ false
  unfolding forget
  forget-repeats t ev = get_or-set_default t.repeats ev ev false ∙ ground arith

  -- When `rmEvOK` returns for the name of an event, it answers true, and no handler, no priority but
  -- the normal one and no mark for repeated calls is left for the event: when the event is recycled
  -- for a new name, it starts without any.
  pub rm_ev_ok_hdlr-forgets :
      (has_free : Bool) (fuel : ℕ) (t t' : HdlrDomino C) (name : String) (ev : ℕ) (ok : Bool)
      → get_event_by t.dom name ≡ some ev
      → rm_ev_ok_hdlr has_free fuel t name ≡ some (t', ok)
      → (ok ≡ true)
        × (own t' ev ≡ [])
        × (get_priority t' ev ≡ norm)
        × (is_repeat_hdlr t' ev ≡ false)
  unfolding rm_ev_ok_hdlr own get_priority
  rm_ev_ok_hdlr-forgets has_free fuel t t' name ev ok found returns =
      let f = forget t ev in
      let (r, removed, q) =
        >>=-eq-some (rm_ev fuel f.dom ev) _ (rw (rm_ev_ok_hdlr, found) at returns) in
      let pair = some-injective _ _ q in
      let s = after-Same has_free f r in
      let is : after has_free f r ≡ t' = ap (λ x. x.0) pair in
      (
        sym (ap (λ x. x.1) pair),
        ap (λ x. own x ev) (sym is)
            ∙ Same-own (record f { dom = r.dom }) (after has_free f r) ev s
            ∙ forget-own t ev,
        ap (λ x. get_priority x ev) (sym is)
            ∙ Same-priority (record f { dom = r.dom }) (after has_free f r) ev s
            ∙ forget-priority t ev,
        ap (λ x. is_repeat_hdlr x ev) (sym is)
            ∙ ap (λ x. get_or x ev false) s.same_repeats
            ∙ forget-repeats t ev,
      )
