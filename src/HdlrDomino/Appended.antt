-- ===== src/HdlrDomino/Appended.antt =====
-- What `triggerHdlr_` and `effect_` of domino/HdlrDomino.hpp and domino/MultiHdlrDomino.hpp give to
-- MsgSelf comes behind the messages from before.
use domino_library.Prelude.{
  ℕ, ◌≡◌, refl, sym, ◌∙◌, ap, inl, inr, Bool, String, List, [], ◌∷◌, ◌++◌, append_assoc, append-nil,
  Bool-cases, Option-cases,
}
use domino_library.Domino.Ops.{Done}
use domino_library.HdlrDomino.State.{
  Shared, Msg, HdlrDomino, hdlr_of, multi_of, is_repeat_hdlr, trigger_hdlr,
}
use domino_library.HdlrDomino.Hdlr.{base_effect, trigger_each, effect_of, effect_each, after}

module _ {ℓ} {C : Type ℓ} (ms : List (Msg C × ℕ)) (has_free : Bool) where
  -- The same, with these messages before
  abbrev behind : HdlrDomino C → HdlrDomino C
  behind t = record t { sent = ms ++ t.sent }

  trigger_hdlr-behind :
      (t : HdlrDomino C) (h : Shared C) (ev : ℕ)
      → trigger_hdlr has_free (behind t) h ev ≡ behind (trigger_hdlr has_free t h ev)
  unfolding trigger_hdlr
  trigger_hdlr-behind t h ev =
      let later =
        λ (m : Msg C × ℕ). ap (λ x. record t { sent = x }) (append_assoc ms t.sent (m ∷ [])) in
      elim (Bool-cases has_free) [
        | inl free ↦ elim (Bool-cases (is_repeat_hdlr t ev)) [
          | inl again ↦ rw (free, again) (later _)
          | inr once ↦ rw (free, once) (later _)
        ]
        | inr not_free ↦ rw not_free (later _)
      ]

  base_effect-behind :
      (t : HdlrDomino C) (ev : ℕ)
      → base_effect has_free (behind t) ev ≡ behind (base_effect has_free t ev)
  unfolding base_effect
  base_effect-behind t ev = elim (Option-cases (hdlr_of t ev)) [
    | inl empty ↦ rw (base_effect, empty) refl
    | inr (h, there) ↦ rw (base_effect, there) (trigger_hdlr-behind t h ev)
  ]

  trigger_each-behind :
      (t : HdlrDomino C) (hs : List (String × Shared C)) (ev : ℕ)
      → trigger_each has_free (behind t) hs ev ≡ behind (trigger_each has_free t hs ev)
  unfolding trigger_each
  trigger_each-behind t [] ev = refl
  trigger_each-behind t ((name, h) ∷ hs) ev =
      ap (λ x. trigger_each has_free x hs ev) (trigger_hdlr-behind t h ev)
      ∙ trigger_each-behind (trigger_hdlr has_free t h ev) hs ev

  effect_each-behind :
      (t : HdlrDomino C) (evs : List ℕ)
      → effect_each has_free (behind t) evs ≡ behind (effect_each has_free t evs)
  unfolding effect_each effect_of
  effect_each-behind t [] = refl
  effect_each-behind t (ev ∷ evs) =
      ap (λ x. effect_each has_free (trigger_each has_free x (multi_of t ev) ev) evs)
        (base_effect-behind t ev)
      ∙ ap (λ x. effect_each has_free x evs)
          (trigger_each-behind (base_effect has_free t ev) (multi_of t ev) ev)
      ∙ effect_each-behind (effect_of has_free t ev) evs

-- What a call sends is what it would send if nothing had been sent before.
pub after-appended {ℓ κ} :
    {C : Type ℓ} {A : Type κ} (has_free : Bool) (t : HdlrDomino C) (r : Done A)
    → (after has_free t r).sent ≡ t.sent ++ (after has_free (record t { sent = [] }) r).sent
unfolding after
after-appended has_free t r =
    ap (λ ms. (effect_each has_free (record t { dom = r.dom; sent = ms }) r.effects).sent)
      (sym (append-nil t.sent))
    ∙ ap (λ x. x.sent)
        (effect_each-behind t.sent has_free (record t { dom = r.dom; sent = [] }) r.effects)
