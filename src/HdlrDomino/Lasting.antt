-- ===== src/HdlrDomino/Lasting.antt =====
-- Any sequence of calls keeps the owners, and brings no handler back.
use domino_library.Prelude.{
  ℕ, ◌≡◌, refl, subst, inl, inr, Bool, true, String, [], ◌∷◌, Option, none, some, some-injective,
  ◌==◌, arith, set, Bool-cases, Option-cases, erase, string_eq, >>=-eq-some,
}
use domino_library.MsgSelf.{norm, is_valid_pri}
use domino_library.Domino.State.{SimuEvents, get_event_by}
use domino_library.Domino.Ops.{set_prev, set_state}
use domino_library.Domino.Remove.{rm_ev}
use domino_library.HdlrDomino.State.{HdlrDomino, multi_of}
use domino_library.HdlrDomino.Hdlr.{
  rm_hdlr_at, rm_one_hdlr_ok, force_all_hdlr, set_state_hdlr, set_prev_hdlr, set_linked_hdlr,
  rm_all_hdlr, rm_named_hdlr_ok, n_hdlr,
}
use domino_library.HdlrDomino.Calls.{repeated_hdlr, set_priority, forget, rm_ev_ok_hdlr}
use domino_library.HdlrDomino.Own.{Kept, Kept-trans, Kept-aside, Same-Kept}
use domino_library.HdlrDomino.Slots.{erase-IsPart, slots-Kept}
use domino_library.HdlrDomino.Keep.{
  Kept-refl, rm_hdlr_at-Kept, forget-Kept, effect_of-Same, after-Kept, row-shortened, cleared,
}
use domino_library.HdlrDomino.Added.{set_hdlr-Kept}

module _ {ℓ} {C : Type ℓ} where
  pub rm_one_hdlr_ok-Kept : (t : HdlrDomino C) (name : String) → Kept t (rm_one_hdlr_ok t name).0
  unfolding rm_one_hdlr_ok
  rm_one_hdlr_ok-Kept t name = elim (Option-cases (get_event_by t.dom name)) [
    | inl missing ↦ rw (rm_one_hdlr_ok, missing) (Kept-refl t)
    | inr (ev, found) ↦ rw (rm_one_hdlr_ok, found) (rm_hdlr_at-Kept t ev)
  ]

  pub rm_all_hdlr-Kept : (t : HdlrDomino C) (name : String) → Kept t (rm_all_hdlr t name)
  unfolding rm_all_hdlr
  rm_all_hdlr-Kept t name = elim (Option-cases (get_event_by t.dom name)) [
    | inl missing ↦ rw (rm_all_hdlr, missing) (Kept-refl t)
    | inr (ev, found) ↦
        let t' = (rm_hdlr_at t ev).0 in
        rw (rm_all_hdlr, found)
          (Kept-trans (rm_hdlr_at-Kept t ev) (
            slots-Kept t' (record t' { multi = set t'.multi ev [] }) (omega arith) refl
              (λ u. inl refl) (cleared t'.multi ev)))
  ]

  pub rm_named_hdlr_ok-Kept :
      (t : HdlrDomino C) (name hdlr_name : String) → Kept t (rm_named_hdlr_ok t name hdlr_name).0
  unfolding rm_named_hdlr_ok
  rm_named_hdlr_ok-Kept t name hdlr_name = elim (Option-cases (get_event_by t.dom name)) [
    | inl missing ↦ rw (rm_named_hdlr_ok, missing) (Kept-refl t)
    | inr (ev, found) ↦
        rw (rm_named_hdlr_ok, found)
          (row-shortened t ev (erase hdlr_name (multi_of t ev))
            (erase-IsPart hdlr_name (multi_of t ev)))
  ]

  pub repeated_hdlr-Kept :
      (t : HdlrDomino C) (name : String) (r : Bool) → Kept t (repeated_hdlr t name r).0
  unfolding repeated_hdlr
  repeated_hdlr-Kept t name r = elim (Bool-cases (n_hdlr t name == 0)) [
    | inl ok ↦ rw (repeated_hdlr, ok) (Kept-aside t _ refl refl refl refl)
    | inr busy ↦ rw (repeated_hdlr, busy) (Kept-refl t)
  ]

  pub set_priority-Kept :
      (t : HdlrDomino C) (name : String) (pri : ℕ) → Kept t (set_priority t name pri).0
  unfolding set_priority
  set_priority-Kept t name pri = elim (Bool-cases (n_hdlr t name == 0)) [
    | inl ok ↦ elim (Bool-cases (pri == norm)) [
      | inl normal ↦ rw (set_priority, ok) (rw normal (Kept-aside t _ refl refl refl refl))
      | inr other ↦ elim (Bool-cases (is_valid_pri pri)) [
        | inl valid ↦ rw (set_priority, ok) (rw (other, valid) (Kept-aside t _ refl refl refl refl))
        | inr refused ↦
            rw (set_priority, ok) (rw (other, refused) (Kept-aside t _ refl refl refl refl))
      ]
    ]
    | inr busy ↦ rw (set_priority, busy) (Kept-refl t)
  ]

  module _ (has_free : Bool) (fuel : ℕ) where
    pub force_all_hdlr-Kept :
        (t : HdlrDomino C) (name : String) → Kept t (force_all_hdlr has_free t name)
    unfolding force_all_hdlr
    force_all_hdlr-Kept t name = elim (Option-cases (get_event_by t.dom name)) [
      | inl missing ↦ rw (force_all_hdlr, missing) (Kept-refl t)
      | inr (ev, found) ↦ rw (force_all_hdlr, found) (Same-Kept t _ (effect_of-Same has_free t ev))
    ]

    pub set_state_hdlr-Kept :
        (t : HdlrDomino C) (evs : SimuEvents) (r : HdlrDomino C × ℕ)
        → set_state_hdlr has_free fuel t evs ≡ some r
        → Kept t r.0
    unfolding set_state_hdlr
    set_state_hdlr-Kept t evs r e =
        let (q, _, f) = >>=-eq-some (set_state fuel t.dom evs) _ e in
        subst (λ x. Kept t x.0) (some-injective _ _ f) (after-Kept has_free t q)

    pub set_prev_hdlr-Kept :
        (t : HdlrDomino C) (name : String) (evs : SimuEvents) (r : HdlrDomino C × Option ℕ)
        → set_prev_hdlr has_free fuel t name evs ≡ some r
        → Kept t r.0
    unfolding set_prev_hdlr
    set_prev_hdlr-Kept t name evs r e =
        let (q, _, f) = >>=-eq-some (set_prev fuel t.dom name evs) _ e in
        subst (λ x. Kept t x.0) (some-injective _ _ f) (after-Kept has_free t q)

    pub rm_ev_ok_hdlr-Kept :
        (t : HdlrDomino C) (name : String) (r : HdlrDomino C × Bool)
        → rm_ev_ok_hdlr has_free fuel t name ≡ some r
        → Kept t r.0
    unfolding rm_ev_ok_hdlr
    rm_ev_ok_hdlr-Kept t name r e = elim (Option-cases (get_event_by t.dom name)) [
      | inl missing ↦
          subst (λ x. Kept t x.0) (some-injective _ _ (rw (rm_ev_ok_hdlr, missing) at e))
            (Kept-refl t)
      | inr (ev, found) ↦
          let t' = forget t ev in
          let (q, _, f) = >>=-eq-some (rm_ev fuel t'.dom ev) _ (rw (rm_ev_ok_hdlr, found) at e) in
          subst (λ x. Kept t x.0) (some-injective _ _ f)
            (Kept-trans (forget-Kept t ev) (after-Kept has_free t' q))
    ]

    pub set_linked_hdlr-Kept :
        (t : HdlrDomino C) (new_en : String) (cb : Option C) (trigger_en : String)
        (r : HdlrDomino C × Option ℕ)
        → set_linked_hdlr has_free fuel t new_en cb trigger_en ≡ some r
        → Kept t r.0
    unfolding set_linked_hdlr
    set_linked_hdlr-Kept t new_en none trigger_en r e =
        subst (λ x. Kept t x.0) (some-injective _ _ e) (Kept-refl t)
    set_linked_hdlr-Kept t new_en (some cb) trigger_en r e =
        elim (Option-cases (get_event_by t.dom new_en)) [
          | inr (ev, there) ↦
              subst (λ x. Kept t x.0) (some-injective _ _ (rw (set_linked_hdlr, there) at e))
                (Kept-refl t)
          | inl fresh ↦ elim (Bool-cases (string_eq.beq new_en trigger_en)) [
            | inl same ↦
                subst (λ x. Kept t x.0)
                  (some-injective _ _ (rw (set_linked_hdlr, fresh, same) at e)) (Kept-refl t)
            | inr apart ↦
                let (q, linked, f) =
                  >>=-eq-some (set_prev_hdlr has_free fuel t new_en ((trigger_en, true) ∷ [])) _
                    (rw (set_linked_hdlr, fresh, apart) at e) in
                let k = set_prev_hdlr-Kept t new_en ((trigger_en, true) ∷ []) q linked in
                elim (Option-cases q.1) [
                  | inl failed ↦ subst (λ x. Kept t x.0) (some-injective _ _ (rw failed at f)) k
                  | inr (ev, ok) ↦
                      subst (λ x. Kept t x.0) (some-injective _ _ (rw ok at f))
                        (Kept-trans k (set_hdlr-Kept has_free q.0 new_en (some cb)))
                ]
          ]
        ]
