-- ===== src/HdlrDomino/Locked.antt =====
-- `cb_hdlr_` of domino/HdlrDomino.hpp and of domino/FreeHdlrDomino.hpp locks a handler while the
-- callback runs.
use domino_library.Prelude.{
  ℕ, ◌≡◌, sym, ◌∙◌, ap, inl, inr, true, ◌∷◌, ◌==◌, arith, Bool-cases, List-cases,
}
use domino_library.HdlrDomino.State.{Msg, HdlrDomino, own, in_table, alive}
use domino_library.HdlrDomino.Calls.{cb_hdlr, end_hdlr}
use domino_library.HdlrDomino.Own.{Kept}
use domino_library.HdlrDomino.Keep.{Kept-refl, rm_shared-Kept}

module _ {ℓ} {C : Type ℓ} where
  -- A handler that can be locked is locked.
  locked-Kept :
      (t t' : HdlrDomino C) (id₀ : ℕ)
      → alive t id₀ ≡ true
      → Kept t t'
      → Kept t (record t' { running = id₀ ∷ t'.running })
  unfolding own alive in_table
  locked-Kept t t' id₀ there k = record {
    owned = λ o.
        let o' = k.owned o in
        record { home = o'.home; at_home = o'.at_home; made = o'.made; distinct = o'.distinct };
    more = k.more;
    kept = k.kept;
    woken = λ id old a. elim (Bool-cases (id₀ == id)) [
      | inl same ↦ let here : id₀ ≡ id = ground arith in ap (alive t) (sym here) ∙ there
      | inr other ↦ k.woken id old (ground arith)
    ];
  }

  pub end_hdlr-Kept : (t : HdlrDomino C) → Kept t (end_hdlr t)
  unfolding own alive in_table end_hdlr
  end_hdlr-Kept t = record {
    owned =
        λ o. record { home = o.home; at_home = o.at_home; made = o.made; distinct = o.distinct };
    more = omega arith;
    kept = λ ev id i old. i;
    woken = λ id old a. elim (List-cases t.running) [
      | inl empty ↦ rw empty (rw empty at a)
      | inr (x, xs, full) ↦ rw full (let b = rw full at a in ground arith)
    ];
  }

  pub cb_hdlr-Kept : (t : HdlrDomino C) (m : Msg C) → Kept t (cb_hdlr t m).0
  unfolding cb_hdlr
  cb_hdlr-Kept t m = elim (Bool-cases (alive t m.weak.id)) [
    | inl there ↦ elim (Bool-cases m.frees) [
      | inl frees ↦
          rw (cb_hdlr, there)
            (rw frees (locked-Kept t _ m.weak.id there (rm_shared-Kept t m.ev m.weak)))
      | inr stays ↦ rw (cb_hdlr, there) (rw stays (locked-Kept t t m.weak.id there (Kept-refl t)))
    ]
    | inr gone ↦ rw (cb_hdlr, gone) (Kept-refl t)
  ]
