-- ===== src/HdlrDomino/Rows.antt =====
-- A new named handler of an event (`multiHdlrOnSameEv` of domino/MultiHdlrDomino.hpp).
use domino_library.Prelude.{
  ℕ, suc, ◌≡◌, refl, sym, ◌∙◌, ap, subst, inl, inr, true, false, ◌&&◌, ◌||◌, String, List, [], ◌∷◌,
  ◌++◌, none, if◌then◌else◌, ◌==◌, arith, elem, elem-append, Distinct, Distinct-concat, get_or, put,
  get_or-put, Bool-cases, lookup, insert, string_eq, append_assoc,
}
use domino_library.HdlrDomino.State.{Shared, HdlrDomino, hdlr_of, multi_of, ids_of, single_id, own}
use domino_library.HdlrDomino.Own.{Kept, Kept-grow}

module _ {ℓ} {C : Type ℓ} where
  ids_of-insert :
      (name : String) (h : Shared C) (hs : List (String × Shared C))
      → lookup name hs ≡ none
      → ids_of (insert name h hs) ≡ ids_of hs ++ h.id ∷ []
  unfolding lookup insert ids_of
  ids_of-insert name h [] free = refl
  ids_of-insert name h ((j, old) ∷ hs) free = elim (Bool-cases (string_eq.beq j name)) [
    | inl same ↦ absurd (ground (arith, rw same at free))
    | inr other ↦ rw other (ap (λ r. old.id ∷ r) (ids_of-insert name h hs (rw other at free)))
  ]

  pub row-Kept :
      (t t' : HdlrDomino C) (ev : ℕ) (name : String) (cb : C)
      → lookup name (multi_of t ev) ≡ none
      → t'.next_id ≡ suc t.next_id
      → t'.hdlrs ≡ t.hdlrs
      → t'.multi
        ≡ put [] t.multi ev (insert name (record { id = t.next_id; cb = cb }) (multi_of t ev))
      → t'.running ≡ t.running
      → Kept t t'
  unfolding own
  row-Kept t t' ev name cb free next slots rows runs = Kept-grow t t' ev next runs new apart
    where
      h : Shared C
      h = record { id = t.next_id; cb = cb }

      slot : (u : ℕ) → hdlr_of t' u ≡ hdlr_of t u
      slot u = ap (λ s. get_or s u none) slots

      row :
          (u : ℕ)
          → multi_of t' u ≡ (if ev == u then insert name h (multi_of t ev) else multi_of t u)
      row u =
          ap (λ m. get_or m u []) rows ∙ get_or-put [] t.multi ev u (insert name h (multi_of t ev))

      own-here : (u : ℕ) → (ev == u) ≡ true → own t' u ≡ own t u ++ t.next_id ∷ []
      own-here u same =
          let here : ev ≡ u = ground arith in
          rw (slot u, row u, same)
            (rw (ids_of-insert name h (multi_of t ev) free) (
              rw here (
                sym (
                  append_assoc (single_id (hdlr_of t u)) (ids_of (multi_of t u))
                    (t.next_id ∷ [])))))

      own-other : (u : ℕ) → (ev == u) ≡ false → own t' u ≡ own t u
      own-other u other = rw (slot u, row u, other) refl

      new :
          (u id : ℕ) → elem id (own t' u) ≡ (((ev == u) && (t.next_id == id)) || elem id (own t u))
      new u id = elim (Bool-cases (ev == u)) [
        | inl same ↦
            ap (elem id) (own-here u same)
            ∙ ground (arith, elem-append id (own t u) (t.next_id ∷ []), same)
        | inr other ↦ ap (elem id) (own-other u other) ∙ ground (arith, other)
      ]

      apart : (u : ℕ) → elem t.next_id (own t u) ≡ false → Distinct (own t u) → Distinct (own t' u)
      apart u out d = elim (Bool-cases (ev == u)) [
        | inl same ↦
            subst Distinct (sym (own-here u same)) (Distinct-concat t.next_id (own t u) out d)
        | inr other ↦ subst Distinct (sym (own-other u other)) d
      ]
