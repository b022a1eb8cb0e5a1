-- ===== src/HdlrDomino/Calls.antt =====
-- domino/FreeHdlrDomino.hpp, domino/PriDomino.hpp, the removal of an event, and what a message does.
use domino_library.Prelude.{
  ℕ, Bool, true, false, String, [], ◌∷◌, Option, none, some, if◌then◌else◌, ◌==◌, ltb, put, set,
  erase, insert, nat_eq, ◌>>=◌,
}
use domino_library.MsgSelf.{norm, is_valid_pri, MsgSelf}
use domino_library.Domino.State.{get_event_by, new_event}
use domino_library.Domino.Remove.{rm_ev}
use domino_library.HdlrDomino.State.{Msg, HdlrDomino, alive}
use domino_library.HdlrDomino.Hdlr.{rm_hdlr_at, rm_shared, after, n_hdlr}

module _ {ℓ} {C : Type ℓ} where
  -- `repeatedHdlr`
  unfoldable pub repeated_hdlr : HdlrDomino C → String → Bool → HdlrDomino C × Option ℕ
  unfolding n_hdlr new_event
  repeated_hdlr t name is_repeated =
      let (d, ev) = new_event t.dom name in
      if n_hdlr t name == 0
      then (record t { dom = d; repeats = put false t.repeats ev is_repeated }, some ev)
      else (t, none)

  -- `setPriority`
  unfoldable pub set_priority : HdlrDomino C → String → ℕ → HdlrDomino C × Option ℕ
  unfolding n_hdlr new_event insert erase
  set_priority t name pri =
      let (d, ev) = new_event t.dom name in
      let t' = record t { dom = d } in
      if n_hdlr t name == 0
      then (
        if pri == norm
            then record t' { pris = erase ev t.pris }
            else if is_valid_pri pri
            then record t' { pris = insert ev pri t.pris }
            else t',
        some ev,
      )
      else (t, none)

  -- What the classes forget of an event before `Domino::rmEv_`
  unfoldable pub forget : HdlrDomino C → ℕ → HdlrDomino C
  unfolding rm_hdlr_at erase
  forget t ev =
      let t' = (rm_hdlr_at t ev).0 in
      record t' {
        multi = set t.multi ev [];
        repeats = set t.repeats ev false;
        pris = erase ev t.pris;
      }

  -- `rmEvOK` with the `rmEv_` of all the classes
  unfoldable pub rm_ev_ok_hdlr : Bool → ℕ → HdlrDomino C → String → Option (HdlrDomino C × Bool)
  unfolding get_event_by forget rm_ev after
  rm_ev_ok_hdlr has_free fuel t name = elim (get_event_by t.dom name) [
    | none ↦ some (t, false)
    | some ev ↦
        let t' = forget t ev in rm_ev fuel t'.dom ev >>= λ r. some (after has_free t' r, true)
  ]

  -- `cb_hdlr_` up to the call: nothing if the handler is gone; FreeHdlrDomino's removes it before the
  -- call. The second part is the callback to call.
  unfoldable pub cb_hdlr : HdlrDomino C → Msg C → HdlrDomino C × Option C
  unfolding alive rm_shared
  cb_hdlr t m =
      let t' = if m.frees then (rm_shared t m.ev m.weak).0 else t in
      if alive t m.weak.id
      then (record t' { running = m.weak.id ∷ t'.running }, some m.weak.cb)
      else (t, none)

  -- The callback returns or throws: `cb_hdlr_` drops what it has locked.
  unfoldable pub end_hdlr : HdlrDomino C → HdlrDomino C
  end_hdlr t = record t { running = elim t.running [ [] ↦ [] | id ∷ outer ↦ outer ] }

-- `setMsgSelfOK`: refused while messages wait, and for null
unfoldable pub set_msg_self_ok {κ} :
    {M : Type κ} → MsgSelf M → Option (MsgSelf M) → MsgSelf M × Bool
set_msg_self_ok old none = (old, false)
set_msg_self_ok old (some new) = if ltb 0 old.n_msg then (old, false) else (new, true)
