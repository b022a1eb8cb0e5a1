-- ===== src/HdlrDomino/Hdlr.antt =====
-- The operations of domino/HdlrDomino.hpp and of domino/MultiHdlrDomino.hpp on handlers.
use domino_library.Prelude.{
  ℕ, suc, ◌+◌, Bool, true, false, String, List, [], ◌∷◌, Option, none, some, if◌then◌else◌, ◌==◌,
  length, put, set, lookup, erase, insert, string_eq, ◌>>=◌,
}
use domino_library.Domino.State.{SimuEvents, get_event_by, new_event}
use domino_library.Domino.Marks.{state}
use domino_library.Domino.Ops.{Done, set_prev, set_state}
use domino_library.HdlrDomino.State.{Shared, HdlrDomino, hdlr_of, multi_of, has_hdlr, trigger_hdlr}

module _ {ℓ} {C : Type ℓ} where
  -- MAKE_PTR: another object than all before
  abbrev pub make_shared : HdlrDomino C → C → Shared C
  make_shared t cb = record { id = t.next_id; cb = cb }

  -- `rmOneHdlrOK_(Event)`
  unfoldable pub rm_hdlr_at : HdlrDomino C → ℕ → HdlrDomino C × Bool
  rm_hdlr_at t ev =
      if has_hdlr t ev then (record t { hdlrs = set t.hdlrs ev none }, true) else (t, false)

  -- `HdlrDomino::rmOneHdlrOK`; D_EVENT_FAILED_RET is out of range.
  unfoldable pub rm_one_hdlr_ok : HdlrDomino C → String → HdlrDomino C × Bool
  unfolding rm_hdlr_at get_event_by
  rm_one_hdlr_ok t name = elim (get_event_by t.dom name) [
    | none ↦ (t, false)
    | some ev ↦ rm_hdlr_at t ev
  ]

  -- `HdlrDomino::rmOneHdlrOK_(Event, SharedMsgCB)`: the handler must match.
  unfoldable pub base_rm_shared : HdlrDomino C → ℕ → Shared C → HdlrDomino C × Bool
  base_rm_shared t ev h = elim (hdlr_of t ev) [
    | none ↦ (t, false)
    | some old ↦
        if old.id == h.id then (record t { hdlrs = set t.hdlrs ev none }, true) else (t, false)
  ]

  -- The first entry with this object is erased.
  unfoldable pub erase_shared : ℕ → List (String × Shared C) → List (String × Shared C) × Bool
  erase_shared id [] = ([], false)
  erase_shared id ((name, h) ∷ hs) =
      let rest = erase_shared id hs in
      if h.id == id then (hs, true) else ((name, h) ∷ rest.0, rest.1)

  -- `MultiHdlrDomino::rmOneHdlrOK_(Event, SharedMsgCB)`; where the code reads `end()` of an event without
  -- handlers, nothing is removed here.
  unfoldable pub rm_shared : HdlrDomino C → ℕ → Shared C → HdlrDomino C × Bool
  unfolding base_rm_shared erase_shared
  rm_shared t ev h =
      let (t', found) = base_rm_shared t ev h in
      let (hs, found') = erase_shared h.id (multi_of t ev) in
      if found
      then (t', true)
      else if found'
      then (record t { multi = put [] t.multi ev hs }, true)
      else (t, false)

  module _ (has_free : Bool) where
    -- `setHdlr`; null is `none`, and `none` the answer D_EVENT_FAILED_RET.
    unfoldable pub set_hdlr : HdlrDomino C → String → Option C → HdlrDomino C × Option ℕ
    unfolding new_event trigger_hdlr
    set_hdlr t name none = (t, none)
    set_hdlr t name (some cb) =
        let (d, ev) = new_event t.dom name in
        let t' = record t { dom = d } in
        let h = make_shared t cb in
        let t'' = record t' { hdlrs = put none t.hdlrs ev (some h); next_id = suc t.next_id } in
        if has_hdlr t ev
        then (t', none)
        else (if state d.marks ev then trigger_hdlr has_free t'' h ev else t'', some ev)

    -- `HdlrDomino::effect_`
    unfoldable pub base_effect : HdlrDomino C → ℕ → HdlrDomino C
    unfolding trigger_hdlr
    base_effect t ev = elim (hdlr_of t ev) [ none ↦ t | some h ↦ trigger_hdlr has_free t h ev ]

    unfoldable pub trigger_each : HdlrDomino C → List (String × Shared C) → ℕ → HdlrDomino C
    unfolding trigger_hdlr
    trigger_each t [] ev = t
    trigger_each t ((name, h) ∷ hs) ev = trigger_each (trigger_hdlr has_free t h ev) hs ev

    -- `MultiHdlrDomino::effect_`
    unfoldable pub effect_of : HdlrDomino C → ℕ → HdlrDomino C
    unfolding base_effect trigger_each
    effect_of t ev = trigger_each (base_effect t ev) (multi_of t ev) ev

    -- `forceAllHdlr`
    unfoldable pub force_all_hdlr : HdlrDomino C → String → HdlrDomino C
    unfolding effect_of get_event_by
    force_all_hdlr t name = elim (get_event_by t.dom name) [ none ↦ t | some ev ↦ effect_of t ev ]

    -- The calls of the virtual `effect_(ev)` that an operation of Domino makes
    unfoldable pub effect_each : HdlrDomino C → List ℕ → HdlrDomino C
    unfolding effect_of
    effect_each t [] = t
    effect_each t (ev ∷ evs) = effect_each (effect_of t ev) evs

    unfoldable pub after {κ} : {A : Type κ} → HdlrDomino C → Done A → HdlrDomino C
    unfolding effect_each
    after t r = effect_each (record t { dom = r.dom }) r.effects

    unfoldable pub set_state_hdlr : ℕ → HdlrDomino C → SimuEvents → Option (HdlrDomino C × ℕ)
    unfolding set_state after
    set_state_hdlr fuel t evs = set_state fuel t.dom evs >>= λ r. some (after t r, r.ret)

    unfoldable pub set_prev_hdlr :
        ℕ → HdlrDomino C → String → SimuEvents → Option (HdlrDomino C × Option ℕ)
    unfolding set_prev after
    set_prev_hdlr fuel t name evs = set_prev fuel t.dom name evs >>= λ r. some (after t r, r.ret)

    -- `setLinkedHdlr`
    unfoldable pub set_linked_hdlr :
        ℕ → HdlrDomino C → String → Option C → String → Option (HdlrDomino C × Option ℕ)
    unfolding set_prev_hdlr set_hdlr get_event_by
    set_linked_hdlr fuel t new_en none trigger_en = some (t, none)
    set_linked_hdlr fuel t new_en (some cb) trigger_en = elim (get_event_by t.dom new_en) [
      | some ev ↦ some (t, none)
      | none ↦
          let linked = set_prev_hdlr fuel t new_en ((trigger_en, true) ∷ []) in
          if string_eq.beq new_en trigger_en
          then some (t, none)
          else linked >>= λ r. elim r.1 [
            | none ↦ some r
            | some ev ↦ some (set_hdlr r.0 new_en (some cb))
          ]
    ]

    -- `multiHdlrOnSameEv`
    unfoldable pub multi_hdlr_on_same_ev :
        HdlrDomino C → String → Option C → String → HdlrDomino C × Option ℕ
    unfolding new_event lookup insert trigger_hdlr
    multi_hdlr_on_same_ev t name none hdlr_name = (t, none)
    multi_hdlr_on_same_ev t name (some cb) hdlr_name =
        let (d, ev) = new_event t.dom name in
        let h = make_shared t cb in
        let t' = record t { dom = d; next_id = suc t.next_id } in
        let t'' = record t' { multi = put [] t.multi ev (insert hdlr_name h (multi_of t ev)) } in
        elim (lookup hdlr_name (multi_of t ev)) [
          | some old ↦ (t', none)
          | none ↦ (if state d.marks ev then trigger_hdlr has_free t'' h ev else t'', some ev)
        ]

  -- `MultiHdlrDomino::nHdlr`
  unfoldable pub n_hdlr : HdlrDomino C → String → ℕ
  unfolding get_event_by
  n_hdlr t name = elim (get_event_by t.dom name) [
    | none ↦ 0
    | some ev ↦ length (multi_of t ev) + (if has_hdlr t ev then 1 else 0)
  ]

  -- `rmAllHdlr`
  unfoldable pub rm_all_hdlr : HdlrDomino C → String → HdlrDomino C
  unfolding get_event_by rm_hdlr_at
  rm_all_hdlr t name = elim (get_event_by t.dom name) [
    | none ↦ t
    | some ev ↦ let t' = (rm_hdlr_at t ev).0 in record t' { multi = set t'.multi ev [] }
  ]

  -- `MultiHdlrDomino::rmOneHdlrOK`
  unfoldable pub rm_named_hdlr_ok : HdlrDomino C → String → String → HdlrDomino C × Bool
  unfolding get_event_by lookup erase
  rm_named_hdlr_ok t name hdlr_name = elim (get_event_by t.dom name) [
    | none ↦ (t, false)
    | some ev ↦ (
      record t { multi = put [] t.multi ev (erase hdlr_name (multi_of t ev)) },
      elim (lookup hdlr_name (multi_of t ev)) [ none ↦ false | some h ↦ true ],
    )
  ]
