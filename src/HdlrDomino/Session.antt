-- ===== src/HdlrDomino/Session.antt =====
-- The public calls of domino/HdlrDomino.hpp and of the classes over it, one after another, with the
-- calls of `cb_hdlr_` that MsgSelf makes between them. The body of a callback is what stands between
-- `message_call` and its `end_call`, a nested `handleAllMsg` included.
use domino_library.Prelude.{ℕ, Bool, String, List, [], ◌∷◌, Option, some, ◌>>=◌}
use domino_library.Domino.State.{SimuEvents, new_event}
use domino_library.HdlrDomino.State.{Msg, HdlrDomino}
use domino_library.HdlrDomino.Hdlr.{
  rm_one_hdlr_ok, set_hdlr, force_all_hdlr, set_state_hdlr, set_prev_hdlr, set_linked_hdlr,
  multi_hdlr_on_same_ev, rm_all_hdlr, rm_named_hdlr_ok,
}
use domino_library.HdlrDomino.Calls.{repeated_hdlr, set_priority, rm_ev_ok_hdlr, cb_hdlr, end_hdlr}

pub data Call {ℓ} (C : Type ℓ) : Type ℓ where
  new_event_call : String → Call C
  set_hdlr_call : String → Option C → Call C
  multi_hdlr_call : String → Option C → String → Call C
  linked_hdlr_call : String → Option C → String → Call C
  rm_one_call rm_all_call force_all_call rm_ev_call : String → Call C
  rm_named_call : String → String → Call C
  repeated_call : String → Bool → Call C
  priority_call : String → ℕ → Call C
  set_state_call : SimuEvents → Call C
  set_prev_call : String → SimuEvents → Call C
  message_call : Msg C → Call C
  end_call : Call C

module _ {ℓ} {C : Type ℓ} (has_free : Bool) (fuel : ℕ) where
  -- The domino after a call
  unfoldable pub do_call : HdlrDomino C → Call C → Option (HdlrDomino C)
  unfolding set_hdlr multi_hdlr_on_same_ev set_linked_hdlr rm_one_hdlr_ok rm_all_hdlr force_all_hdlr
      rm_ev_ok_hdlr rm_named_hdlr_ok repeated_hdlr set_priority set_state_hdlr set_prev_hdlr cb_hdlr
      end_hdlr
  do_call t (new_event_call name) = some (record t { dom = (new_event t.dom name).0 })
  do_call t (set_hdlr_call name cb) = some (set_hdlr has_free t name cb).0
  do_call t (multi_hdlr_call name cb hdlr_name) =
      some (multi_hdlr_on_same_ev has_free t name cb hdlr_name).0
  do_call t (linked_hdlr_call new_en cb trigger_en) =
      set_linked_hdlr has_free fuel t new_en cb trigger_en >>= λ r. some r.0
  do_call t (rm_one_call name) = some (rm_one_hdlr_ok t name).0
  do_call t (rm_all_call name) = some (rm_all_hdlr t name)
  do_call t (force_all_call name) = some (force_all_hdlr has_free t name)
  do_call t (rm_ev_call name) = rm_ev_ok_hdlr has_free fuel t name >>= λ r. some r.0
  do_call t (rm_named_call name hdlr_name) = some (rm_named_hdlr_ok t name hdlr_name).0
  do_call t (repeated_call name is_repeated) = some (repeated_hdlr t name is_repeated).0
  do_call t (priority_call name pri) = some (set_priority t name pri).0
  do_call t (set_state_call evs) = set_state_hdlr has_free fuel t evs >>= λ r. some r.0
  do_call t (set_prev_call name evs) = set_prev_hdlr has_free fuel t name evs >>= λ r. some r.0
  do_call t (message_call m) = some (cb_hdlr t m).0
  do_call t end_call = some (end_hdlr t)

  unfoldable pub do_calls : HdlrDomino C → List (Call C) → Option (HdlrDomino C)
  unfolding do_call
  do_calls t [] = some t
  do_calls t (c ∷ cs) = do_call t c >>= λ t'. do_calls t' cs
