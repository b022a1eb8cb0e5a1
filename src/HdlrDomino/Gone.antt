-- ===== src/HdlrDomino/Gone.antt =====
-- Handlers that are taken out of the tables cannot be locked any more.
use domino_library.Prelude.{
  ℕ, ◌≡◌, refl, sym, ◌∙◌, ap, subst, inl, inr, true, false, String, List, [], ◌∷◌, none, some, ◌==◌,
  arith, elem, elem-append, Distinct, get_or, put, get_or-put, set, get_or-set_default, Bool-cases,
  Option-cases,
}
use domino_library.HdlrDomino.State.{
  Shared, HdlrDomino, hdlr_of, multi_of, has_hdlr, ids_of, single_id, own, in_table,
}
use domino_library.HdlrDomino.Hdlr.{rm_hdlr_at, base_rm_shared, erase_shared, rm_shared}
use domino_library.HdlrDomino.Own.{Owned, Kept}
use domino_library.HdlrDomino.Tables.{in_table-own}

module _ {ℓ} {C : Type ℓ} where
  -- A handler that left its event left the tables.
  pub gone-out :
      (t t' : HdlrDomino C) (ev id : ℕ) (o : Owned t)
      → Kept t t'
      → elem id (own t ev) ≡ true
      → elem id (own t' ev) ≡ false
      → in_table t' id ≡ false
  gone-out t t' ev id o k was out = elim (Bool-cases (in_table t' id)) [
    | inl there ↦
        let (u, i) = in_table-own t' id there in
        let old = k.kept u id i (o.made ev id was) in
        let same : u ≡ ev = sym (o.at_home u id old) ∙ o.at_home ev id was in
        ground (arith, out, subst (λ x. elem id (own t' x) ≡ true) same i)
    | inr dead ↦ dead
  ]

  pub hdlr-own :
      (t : HdlrDomino C) (ev : ℕ) (h : Shared C)
      → hdlr_of t ev ≡ some h
      → elem h.id (own t ev) ≡ true
  unfolding own single_id
  hdlr-own t ev h there = rw there (ground arith)

  -- The handler of the event is out.
  pub rm_hdlr_at-out :
      (t : HdlrDomino C) (ev : ℕ) (h : Shared C)
      → Distinct (own t ev)
      → hdlr_of t ev ≡ some h
      → elem h.id (own (rm_hdlr_at t ev).0 ev) ≡ false
  unfolding own single_id rm_hdlr_at
  rm_hdlr_at-out t ev h d there =
      let full : has_hdlr t ev ≡ true = rw (has_hdlr, there) refl in
      let empty : get_or (set t.hdlrs ev none) ev none ≡ none =
        get_or-set_default t.hdlrs ev ev none ∙ ground arith in
      rw (rm_hdlr_at, full) (rw empty (rw there at d).0)

  erase_shared-out :
      (id : ℕ) (hs : List (String × Shared C))
      → Distinct (ids_of hs)
      → elem id (ids_of hs) ≡ true
      → (elem id (ids_of (erase_shared id hs).0) ≡ false) × ((erase_shared id hs).1 ≡ true)
  unfolding erase_shared ids_of
  erase_shared-out id [] d i = absurd (ground arith)
  erase_shared-out id ((j, h) ∷ hs) d i = elim (Bool-cases (h.id == id)) [
    | inl same ↦
        let here : h.id ≡ id = ground arith in
        rw same (ap (λ x. elem x (ids_of hs)) (sym here) ∙ d.0, refl)
    | inr other ↦
        let (out, found) = erase_shared-out id hs d.1 (ground arith) in
        rw other (ground (arith, out), found)
  ]

  rows-out :
      (t : HdlrDomino C) (ev : ℕ) (h : Shared C)
      → Distinct (ids_of (multi_of t ev))
      → (base_rm_shared t ev h).1 ≡ false
      → elem h.id (ids_of (multi_of t ev)) ≡ true
      → elem h.id (single_id (hdlr_of t ev)) ≡ false
      → elem h.id (own (rm_shared t ev h).0 ev) ≡ false
  unfolding own rm_shared
  rows-out t ev h d miss i single =
      let hs = (erase_shared h.id (multi_of t ev)).0 in
      let (out, found) = erase_shared-out h.id (multi_of t ev) d i in
      let row : get_or (put [] t.multi ev hs) ev [] ≡ hs =
        get_or-put [] t.multi ev ev hs ∙ ground arith in
      rw (rm_shared, miss, found)
        (rw row
          (ground (arith, elem-append h.id (single_id (hdlr_of t ev)) (ids_of hs), single, out)))

  -- The handler is out, whether it was the one of the event or one of several.
  pub rm_shared-out :
      (t : HdlrDomino C) (ev : ℕ) (h : Shared C)
      → Distinct (own t ev)
      → elem h.id (own t ev) ≡ true
      → elem h.id (own (rm_shared t ev h).0 ev) ≡ false
  unfolding own single_id
  rm_shared-out t ev h d i = elim (Option-cases (hdlr_of t ev)) [
    | inl empty ↦
        rows-out t ev h (rw empty at d) (unfold base_rm_shared in rw (base_rm_shared, empty) refl)
          (rw empty at i) (rw empty refl)
    | inr (old, there) ↦ elim (Bool-cases (old.id == h.id)) [
      | inl same ↦
          let here : old.id ≡ h.id = ground arith in
          let found : (base_rm_shared t ev h).1 ≡ true =
            unfold base_rm_shared in rw (base_rm_shared, there) (rw same refl) in
          let taken : (base_rm_shared t ev h).0 ≡ record t { hdlrs = set t.hdlrs ev none } =
            unfold base_rm_shared in rw (base_rm_shared, there) (rw same refl) in
          let first : (rm_shared t ev h).0 ≡ (base_rm_shared t ev h).0 =
            unfold rm_shared in rw (rm_shared, found) refl in
          let empty : get_or (set t.hdlrs ev none) ev none ≡ none =
            get_or-set_default t.hdlrs ev ev none ∙ ground arith in
          ap (λ x. elem h.id (own x ev)) (first ∙ taken)
          ∙ rw empty (ap (λ x. elem x (ids_of (multi_of t ev))) (sym here) ∙ (rw there at d).0)
      | inr other ↦
          rows-out t ev h (rw there at d).1
            (unfold base_rm_shared in rw (base_rm_shared, there) (rw other refl))
            (let e : elem h.id (old.id ∷ ids_of (multi_of t ev)) ≡ true = rw there at i in
              ground arith)
            (rw there (ground arith))
    ]
  ]
