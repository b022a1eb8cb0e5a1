-- ===== src/HdlrDomino/Keep.antt =====
-- Each operation on handlers keeps the owners, and brings no handler back.
use domino_library.Prelude.{
  ℕ, ◌≡◌, ◌⊎◌, refl, inl, inr, Bool, String, List, [], ◌∷◌, Option, none, ◌==◌, arith, get_or, put,
  set, get_or-put, get_or-set_default, Bool-cases, Option-cases, string_eq,
}
use domino_library.Domino.Ops.{Done}
use domino_library.HdlrDomino.State.{
  Shared, HdlrDomino, hdlr_of, multi_of, has_hdlr, is_repeat_hdlr, trigger_hdlr,
}
use domino_library.HdlrDomino.Hdlr.{
  rm_hdlr_at, base_rm_shared, erase_shared, rm_shared, base_effect, trigger_each, effect_of,
  effect_each, after,
}
use domino_library.HdlrDomino.Calls.{forget}
use domino_library.HdlrDomino.Own.{
  Kept, Kept-trans, Kept-aside, Same, Same-refl, Same-trans, Same-Kept,
}
use domino_library.HdlrDomino.Slots.{
  IsPart, IsPart-refl, IsPart-nil, erase_shared-IsPart, slots-Kept,
}

module _ {ℓ} {C : Type ℓ} where
  pub Kept-refl : (t : HdlrDomino C) → Kept t t
  Kept-refl t = Same-Kept t t (Same-refl t)

  -- One slot is emptied.
  emptied :
      (slots : List (Option (Shared C))) (ev u : ℕ)
      → (get_or (set slots ev none) u none ≡ get_or slots u none)
        ⊎ (get_or (set slots ev none) u none ≡ none)
  emptied slots ev u = elim (Bool-cases (ev == u)) [
    | inl same ↦ inr (rw (get_or-set_default slots ev u none, same) refl)
    | inr other ↦ inl (rw (get_or-set_default slots ev u none, other) refl)
  ]

  -- One row becomes a part of itself.
  shortened :
      (rows : List (List (String × Shared C))) (ev u : ℕ) (hs : List (String × Shared C))
      → IsPart hs (get_or rows ev [])
      → IsPart (get_or (put [] rows ev hs) u []) (get_or rows u [])
  shortened rows ev u hs p = elim (Bool-cases (ev == u)) [
    | inl same ↦
        let here : ev ≡ u = ground arith in rw (get_or-put [] rows ev u hs, same) (rw here at p)
    | inr other ↦ rw (get_or-put [] rows ev u hs, other) (IsPart-refl (get_or rows u []))
  ]

  pub cleared :
      (rows : List (List (String × Shared C))) (ev u : ℕ)
      → IsPart (get_or (set rows ev []) u []) (get_or rows u [])
  cleared rows ev u = elim (Bool-cases (ev == u)) [
    | inl same ↦ rw (get_or-set_default rows ev u [], same) (IsPart-nil (get_or rows u []))
    | inr other ↦ rw (get_or-set_default rows ev u [], other) (IsPart-refl (get_or rows u []))
  ]

  pub rm_hdlr_at-Kept : (t : HdlrDomino C) (ev : ℕ) → Kept t (rm_hdlr_at t ev).0
  unfolding rm_hdlr_at
  rm_hdlr_at-Kept t ev = elim (Bool-cases (has_hdlr t ev)) [
    | inl there ↦
        rw (rm_hdlr_at, there)
          (slots-Kept t (record t { hdlrs = set t.hdlrs ev none }) (omega arith) refl
            (emptied t.hdlrs ev) (λ u. IsPart-refl (multi_of t u)))
    | inr empty ↦ rw (rm_hdlr_at, empty) (Kept-refl t)
  ]

  base_rm_shared-Kept :
      (t : HdlrDomino C) (ev : ℕ) (h : Shared C) → Kept t (base_rm_shared t ev h).0
  unfolding base_rm_shared
  base_rm_shared-Kept t ev h = elim (Option-cases (hdlr_of t ev)) [
    | inl empty ↦ rw (base_rm_shared, empty) (Kept-refl t)
    | inr (old, there) ↦ elim (Bool-cases (old.id == h.id)) [
      | inl same ↦
          rw (base_rm_shared, there)
            (rw same (
              slots-Kept t (record t { hdlrs = set t.hdlrs ev none }) (omega arith) refl
                (emptied t.hdlrs ev) (λ u. IsPart-refl (multi_of t u))))
      | inr other ↦ rw (base_rm_shared, there) (rw other (Kept-refl t))
    ]
  ]

  pub row-shortened :
      (t : HdlrDomino C) (ev : ℕ) (hs : List (String × Shared C))
      → IsPart hs (multi_of t ev)
      → Kept t (record t { multi = put [] t.multi ev hs })
  row-shortened t ev hs p =
      slots-Kept t (record t { multi = put [] t.multi ev hs }) (omega arith) refl (λ u. inl refl)
        (λ u. shortened t.multi ev u hs p)

  pub rm_shared-Kept : (t : HdlrDomino C) (ev : ℕ) (h : Shared C) → Kept t (rm_shared t ev h).0
  unfolding rm_shared
  rm_shared-Kept t ev h = elim (Bool-cases (base_rm_shared t ev h).1) [
    | inl found ↦ rw (rm_shared, found) (base_rm_shared-Kept t ev h)
    | inr missing ↦ elim (Bool-cases (erase_shared h.id (multi_of t ev)).1) [
      | inl there ↦
          rw (rm_shared, missing, there)
            (row-shortened t ev (erase_shared h.id (multi_of t ev)).0
              (erase_shared-IsPart h.id (multi_of t ev)))
      | inr nowhere ↦ rw (rm_shared, missing, nowhere) (Kept-refl t)
    ]
  ]

  pub forget-Kept : (t : HdlrDomino C) (ev : ℕ) → Kept t (forget t ev)
  unfolding forget rm_hdlr_at
  forget-Kept t ev = elim (Bool-cases (has_hdlr t ev)) [
    | inl there ↦
        slots-Kept t (forget t ev) (rw (forget, rm_hdlr_at, there) (omega arith))
          (rw (forget, rm_hdlr_at, there) refl)
          (λ u. rw (forget, rm_hdlr_at, there) (emptied t.hdlrs ev u)) (cleared t.multi ev)
    | inr empty ↦
        slots-Kept t (forget t ev) (rw (forget, rm_hdlr_at, empty) (omega arith))
          (rw (forget, rm_hdlr_at, empty) refl) (λ u. rw (forget, rm_hdlr_at, empty) (inl refl))
          (cleared t.multi ev)
  ]

  module _ (has_free : Bool) where
    pub trigger_hdlr-Same :
        (t : HdlrDomino C) (h : Shared C) (ev : ℕ) → Same t (trigger_hdlr has_free t h ev)
    unfolding trigger_hdlr
    trigger_hdlr-Same t h ev = elim (Bool-cases has_free) [
      | inl free ↦ elim (Bool-cases (is_repeat_hdlr t ev)) [
        | inl again ↦
            rw (free, again)
              (record {
                same_dom = refl;
                same_hdlrs = refl;
                same_multi = refl;
                same_repeats = refl;
                same_pris = refl;
                same_next = refl;
                same_running = refl;
              })
        | inr once ↦
            rw (free, once)
              (record {
                same_dom = refl;
                same_hdlrs = refl;
                same_multi = refl;
                same_repeats = refl;
                same_pris = refl;
                same_next = refl;
                same_running = refl;
              })
      ]
      | inr not_free ↦ rw not_free (record {
        same_dom = refl;
        same_hdlrs = refl;
        same_multi = refl;
        same_repeats = refl;
        same_pris = refl;
        same_next = refl;
        same_running = refl;
      })
    ]

    pub base_effect-Same : (t : HdlrDomino C) (ev : ℕ) → Same t (base_effect has_free t ev)
    unfolding base_effect
    base_effect-Same t ev = elim (Option-cases (hdlr_of t ev)) [
      | inl empty ↦ rw (base_effect, empty) (Same-refl t)
      | inr (h, there) ↦ rw (base_effect, there) (trigger_hdlr-Same t h ev)
    ]

    trigger_each-Same :
        (t : HdlrDomino C) (hs : List (String × Shared C)) (ev : ℕ)
        → Same t (trigger_each has_free t hs ev)
    unfolding trigger_each
    trigger_each-Same t [] ev = Same-refl t
    trigger_each-Same t ((name, h) ∷ hs) ev =
        Same-trans (trigger_hdlr-Same t h ev)
          (trigger_each-Same (trigger_hdlr has_free t h ev) hs ev)

    pub effect_of-Same : (t : HdlrDomino C) (ev : ℕ) → Same t (effect_of has_free t ev)
    unfolding effect_of
    effect_of-Same t ev =
        Same-trans (base_effect-Same t ev)
          (trigger_each-Same (base_effect has_free t ev) (multi_of t ev) ev)

    effect_each-Same : (t : HdlrDomino C) (evs : List ℕ) → Same t (effect_each has_free t evs)
    unfolding effect_each
    effect_each-Same t [] = Same-refl t
    effect_each-Same t (ev ∷ evs) =
        Same-trans (effect_of-Same t ev) (effect_each-Same (effect_of has_free t ev) evs)

    pub after-Same {κ} :
        {A : Type κ} (t : HdlrDomino C) (r : Done A)
        → Same (record t { dom = r.dom }) (after has_free t r)
    unfolding after
    after-Same t r = effect_each-Same (record t { dom = r.dom }) r.effects

    pub after-Kept {κ} : {A : Type κ} (t : HdlrDomino C) (r : Done A) → Kept t (after has_free t r)
    after-Kept t r =
        Kept-trans (Kept-aside t (record t { dom = r.dom }) refl refl refl refl)
          (Same-Kept (record t { dom = r.dom }) (after has_free t r) (after-Same t r))
