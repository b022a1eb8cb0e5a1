-- ===== src/HdlrDomino/Added.antt =====
-- A new handler of domino/HdlrDomino.hpp and domino/MultiHdlrDomino.hpp has a new owner.
use domino_library.Prelude.{
  suc, ◌≡◌, refl, inl, inr, Bool, true, false, String, [], Option, none, some, arith, put,
  Bool-cases, Option-cases, lookup, insert, string_eq,
}
use domino_library.Domino.State.{new_event}
use domino_library.Domino.Marks.{state}
use domino_library.HdlrDomino.State.{HdlrDomino, hdlr_of, multi_of, has_hdlr}
use domino_library.HdlrDomino.Hdlr.{make_shared, set_hdlr, multi_hdlr_on_same_ev}
use domino_library.HdlrDomino.Own.{Kept, Kept-trans, Kept-aside, Same-Kept}
use domino_library.HdlrDomino.Slots.{IsPart-refl, slots-Kept, single-Kept}
use domino_library.HdlrDomino.Rows.{row-Kept}
use domino_library.HdlrDomino.Keep.{Kept-refl, trigger_hdlr-Same}

module _ {ℓ} {C : Type ℓ} where
  module _ (has_free : Bool) where
    pub set_hdlr-Kept :
        (t : HdlrDomino C) (name : String) (cb : Option C) → Kept t (set_hdlr has_free t name cb).0
    unfolding set_hdlr
    set_hdlr-Kept t name none = Kept-refl t
    set_hdlr-Kept t name (some cb) =
        let d = (new_event t.dom name).0 in
        let ev = (new_event t.dom name).1 in
        let t'' = record t {
          dom = d;
          hdlrs = put none t.hdlrs ev (some (make_shared t cb));
          next_id = suc t.next_id;
        } in
        elim (Option-cases (hdlr_of t ev)) [
          | inr (h, there) ↦
              let full : has_hdlr t ev ≡ true = rw (has_hdlr, there) refl in
              rw (set_hdlr, full) (Kept-aside t (record t { dom = d }) refl refl refl refl)
          | inl free ↦
              let empty : has_hdlr t ev ≡ false = rw (has_hdlr, free) refl in
              let k = single-Kept t t'' ev cb free refl refl refl refl in
              elim (Bool-cases (state d.marks ev)) [
                | inl up ↦
                    rw (set_hdlr, empty)
                      (rw up (
                        Kept-trans k
                          (Same-Kept t'' _ (trigger_hdlr-Same has_free t'' (make_shared t cb) ev))))
                | inr down ↦ rw (set_hdlr, empty) (rw down k)
              ]
        ]

    pub multi_hdlr_on_same_ev-Kept :
        (t : HdlrDomino C) (name : String) (cb : Option C) (hdlr_name : String)
        → Kept t (multi_hdlr_on_same_ev has_free t name cb hdlr_name).0
    unfolding multi_hdlr_on_same_ev
    multi_hdlr_on_same_ev-Kept t name none hdlr_name = Kept-refl t
    multi_hdlr_on_same_ev-Kept t name (some cb) hdlr_name =
        let d = (new_event t.dom name).0 in
        let ev = (new_event t.dom name).1 in
        let t' = record t { dom = d; next_id = suc t.next_id } in
        let t'' = record t' {
          multi = put [] t.multi ev (insert hdlr_name (make_shared t cb) (multi_of t ev));
        } in
        elim (Option-cases (lookup hdlr_name (multi_of t ev))) [
          | inr (old, taken) ↦
              rw (multi_hdlr_on_same_ev, taken)
                (slots-Kept t t' (omega arith) refl (λ u. inl refl)
                  (λ u. IsPart-refl (multi_of t u)))
          | inl free ↦
              let k = row-Kept t t'' ev hdlr_name cb free refl refl refl refl in
              elim (Bool-cases (state d.marks ev)) [
                | inl up ↦
                    rw (multi_hdlr_on_same_ev, free)
                      (rw up (
                        Kept-trans k
                          (Same-Kept t'' _ (trigger_hdlr-Same has_free t'' (make_shared t cb) ev))))
                | inr down ↦ rw (multi_hdlr_on_same_ev, free) (rw down k)
              ]
        ]
