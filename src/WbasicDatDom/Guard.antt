-- ===== src/WbasicDatDom/Guard.antt =====
-- The write control of domino/WbasicDatDom.hpp: what it keeps out, and what it lets in.
use domino_library.Prelude.{
  ℕ, ◌≡◌, refl, sym, ◌∙◌, ap, subst, inl, inr, Bool, true, false, String, List, [], ◌∷◌, Option,
  none, some, get_or-put, arith, Option-cases, nat_eq, string_eq,
}
use domino_library.DataStore.{replace_ok}
use domino_library.Domino.State.{get_event_by, new_event}
use domino_library.Domino.Inv.{Inv}
use domino_library.Domino.Inv.NewEvent.{new_event-Fresh}
use domino_library.Domino.Promises.NewEvent.{new_event-Inv}
use domino_library.Domino.SetPrev.Wire.{new_event-known}
use domino_library.DataDomino.{
  data_at, get_data as base_get_data, replace_data_ok as base_replace_data_ok,
}
use domino_library.WbasicDatDom.{
  WbasicDatDom, is_wr_ctrl_at, is_wr_ctrl, get_data, wbasic_get_data, replaced, replace_data_ok,
  wbasic_replace_data_ok, wr_ctrl_ok, Call, do_call, do_calls,
}
use domino_library.WbasicDatDom.Protects.{Protects, data_at-replace_ok, do_call-Protects}

module _ {ℓ} {D : Type ℓ} where
  do_calls-Protects :
      (t : WbasicDatDom D) (name : String) (ev : ℕ) (x : D) (cs : List (Call D))
      → Protects t name ev x
      → Protects (do_calls t cs) name ev x
  unfolding do_calls
  do_calls-Protects t name ev x [] p = p
  do_calls-Protects t name ev x (c ∷ cs) p =
      do_calls-Protects (do_call t c) name ev x cs (do_call-Protects t name ev x p c)

  guarded_reads :
      (t : WbasicDatDom D) (name : String) (ev : ℕ) (x : D)
      → Protects t name ev x
      → (wbasic_get_data t name ≡ some x) × (get_data t name ≡ none)
  unfolding wbasic_get_data get_data base_get_data
  guarded_reads t name ev x p =
      let on : is_wr_ctrl t name ≡ true = rw (is_wr_ctrl, p.found) p.guarded in
      let stored : base_get_data t.base name ≡ some x = rw (base_get_data, p.found) p.has in
      (rw (wbasic_get_data, on) stored, rw (get_data, on) refl)

  -- In a domino that satisfies the invariant, the data that a name under write control has stays
  -- through any calls of `newEvent`, `replaceDataOK` and `wrCtrlOk`, on any names: after them
  -- `wbasic_getData` gives it, and `getData` gives null.
  pub guarded_lasts :
      (t : WbasicDatDom D) (name : String) (ev : ℕ) (x : D) (cs : List (Call D))
      → Inv t.base.dom
      → get_event_by t.base.dom name ≡ some ev
      → is_wr_ctrl_at t ev ≡ true
      → data_at t.base ev ≡ some x
      → (wbasic_get_data (do_calls t cs) name ≡ some x) × (get_data (do_calls t cs) name ≡ none)
  guarded_lasts t name ev x cs v found guarded has = guarded_reads (do_calls t cs) name ev x (
      do_calls-Protects t name ev x cs
        (record { valid = v; found = found; guarded = guarded; has = has }))

  granted :
      (t t' : WbasicDatDom D) (name : String)
      → Inv t.base.dom
      → wr_ctrl_ok t name true ≡ (t', true)
      → Inv t'.base.dom
        × (ev : ℕ) × (get_event_by t'.base.dom name ≡ some ev)
        × (is_wr_ctrl_at t' ev ≡ true)
  unfolding wr_ctrl_ok get_event_by
  granted t t' name v ok =
      let d = (new_event t.base.dom name).0 in
      let r = (new_event t.base.dom name).1 in
      elim (Option-cases (data_at t.base r)) [
        | inr (y, full) ↦ absurd (ground (arith, ap (λ q. q.1) (rw (wr_ctrl_ok, full) at ok)))
        | inl empty ↦
            let is = ap (λ q. q.0) (rw (wr_ctrl_ok, empty) at ok) in
            (
              subst (λ q. Inv q.base.dom) is (new_event-Inv t.base.dom name v),
              r,
              ap (λ q. get_event_by q.base.dom name) (sym is)
                  ∙ (new_event-Fresh t.base.dom name v.held).found,
              ap (λ q. is_wr_ctrl_at q r) (sym is)
                  ∙ get_or-put false t.wr_ctrl r r true
                  ∙ ground arith,
            )
      ]

  stored-Protects :
      (t : WbasicDatDom D) (name : String) (ev : ℕ) (x : D)
      → Inv t.base.dom
      → get_event_by t.base.dom name ≡ some ev
      → is_wr_ctrl_at t ev ≡ true
      → Protects (replaced t name (some x)).0 name ev x
  unfolding replaced base_replace_data_ok
  stored-Protects t name ev x v found guarded =
      let same = new_event-known t.base.dom name ev found in
      rw (base_replace_data_ok, same)
        (record {
          valid = v;
          found = found;
          guarded = guarded;
          has = data_at-replace_ok t.base t.base.dom ev ev (some x) ∙ ground arith;
        })

  guarded_refuses :
      (t : WbasicDatDom D) (name : String) (ev : ℕ) (x : D) (y : Option D) (b : Bool)
      → Protects t name ev x
      → ((replace_data_ok t name y).1 ≡ false) × ((wr_ctrl_ok t name b).1 ≡ false)
  unfolding replace_data_ok wr_ctrl_ok
  guarded_refuses t name ev x y b p =
      let on : is_wr_ctrl t name ≡ true = rw (is_wr_ctrl, p.found) p.guarded in
      let at = ap (λ q. q.1) (new_event-known t.base.dom name ev p.found) in
      let full : data_at t.base (new_event t.base.dom name).1 ≡ some x =
        ap (data_at t.base) at ∙ p.has in
      (rw (replace_data_ok, on) refl, rw (wr_ctrl_ok, full) refl)

  -- When `wrCtrlOk` with true answers true to a name, on a domino that satisfies the invariant,
  -- `wbasic_replaceDataOK` of data then answers true, `wbasic_getData` gives the data, `getData`
  -- gives null, and `replaceDataOK` and a further `wrCtrlOk` are refused.
  pub wr_ctrl_ok-sides :
      (t t' t'' : WbasicDatDom D) (name : String) (x : D) (y : Option D) (b ok : Bool)
      → Inv t.base.dom
      → wr_ctrl_ok t name true ≡ (t', true)
      → wbasic_replace_data_ok t' name (some x) ≡ (t'', ok)
      → (ok ≡ true)
        × (wbasic_get_data t'' name ≡ some x)
        × (get_data t'' name ≡ none)
        × ((replace_data_ok t'' name y).1 ≡ false)
        × ((wr_ctrl_ok t'' name b).1 ≡ false)
  unfolding wbasic_replace_data_ok replaced base_replace_data_ok replace_ok
  wr_ctrl_ok-sides t t' t'' name x y b ok v given put_in =
      let (v', ev, found, guarded) = granted t t' name v given in
      let on : is_wr_ctrl t' name ≡ true = rw (is_wr_ctrl, found) guarded in
      let did = rw (wbasic_replace_data_ok, on) at put_in in
      let is = ap (λ q. q.0) did in
      let p =
        subst (λ q. Protects q name ev x) is (stored-Protects t' name ev x v' found guarded) in
      let answer : (replaced t' name (some x)).1 ≡ true = refl in
      (
        sym (ap (λ q. q.1) did) ∙ answer,
        (guarded_reads t'' name ev x p).0,
        (guarded_reads t'' name ev x p).1,
        (guarded_refuses t'' name ev x y b p).0,
        (guarded_refuses t'' name ev x y b p).1,
      )
