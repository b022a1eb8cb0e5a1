-- ===== src/HdlrDomino/State.antt =====
-- The data of domino/HdlrDomino.hpp, domino/MultiHdlrDomino.hpp, domino/FreeHdlrDomino.hpp and
-- domino/PriDomino.hpp, and how a handler is triggered.
use domino_library.Prelude.{
  ℕ, Bool, true, false, ◌||◌, String, List, [], ◌∷◌, ◌++◌, Option, none, some, if◌then◌else◌, elem,
  get_or, lookup, nat_eq,
}
use domino_library.MsgSelf.{norm}
use domino_library.Domino.State.{Domino}

-- SharedMsgCB: the object that MAKE_PTR made, and the callback in it
pub record Shared {ℓ} (C : Type ℓ) : Type ℓ where
  pub id : ℕ
  pub cb : C

-- What `triggerHdlr_` gives to `newMsgOK`: a call of `cb_hdlr_`, FreeHdlrDomino's if `frees`, with a
-- weak pointer to the handler
pub record Msg {ℓ} (C : Type ℓ) : Type ℓ where
  pub frees : Bool
  pub ev : ℕ
  pub weak : Shared C

-- `ev_hdlr_S_` is `hdlrs`, `ev_hdlrs_S_` is `multi`, where an event that is no key reads as one with
-- no handler, `isRepeatHdlr_` is `repeats`, `ev_pri_S_` is `pris`. `sent` has the messages given to
-- `msgSelf_`, in order, with their priority; `next_id` tells the objects of MAKE_PTR apart. `running`
-- has the handlers that the `cb_hdlr_` on the call stack have locked, the innermost first.
pub record HdlrDomino {ℓ} (C : Type ℓ) : Type ℓ where
  pub dom : Domino
  pub hdlrs : List (Option (Shared C))
  pub multi : List (List (String × Shared C))
  pub repeats : List Bool
  pub pris : List (ℕ × ℕ)
  pub sent : List (Msg C × ℕ)
  pub next_id : ℕ
  pub running : List ℕ

module _ {ℓ} {C : Type ℓ} where
  -- The constructors: no handler, over a domino
  abbrev pub new_hdlr_domino : Domino → HdlrDomino C
  new_hdlr_domino dom = record {
    dom = dom;
    hdlrs = [];
    multi = [];
    repeats = [];
    pris = [];
    sent = [];
    next_id = 0;
    running = [];
  }

  abbrev pub hdlr_of : HdlrDomino C → ℕ → Option (Shared C)
  hdlr_of t ev = get_or t.hdlrs ev none

  abbrev pub multi_of : HdlrDomino C → ℕ → List (String × Shared C)
  multi_of t ev = get_or t.multi ev []

  -- `HdlrDomino::nHdlr_`
  abbrev pub has_hdlr : HdlrDomino C → ℕ → Bool
  has_hdlr t ev = elim (hdlr_of t ev) [ none ↦ false | some h ↦ true ]

  unfoldable pub get_priority : HdlrDomino C → ℕ → ℕ
  unfolding lookup
  get_priority t ev = elim (lookup ev t.pris) [ none ↦ norm | some pri ↦ pri ]

  abbrev pub is_repeat_hdlr : HdlrDomino C → ℕ → Bool
  is_repeat_hdlr t ev = get_or t.repeats ev false

  -- `HdlrDomino::triggerHdlr_`
  unfoldable pub base_trigger_hdlr : HdlrDomino C → Shared C → ℕ → HdlrDomino C
  unfolding get_priority
  base_trigger_hdlr t h ev = record t {
    sent = t.sent ++ (record { frees = false; ev = ev; weak = h }, get_priority t ev) ∷ [];
  }

  -- `FreeHdlrDomino::triggerHdlr_`
  unfoldable pub free_trigger_hdlr : HdlrDomino C → Shared C → ℕ → HdlrDomino C
  unfolding base_trigger_hdlr
  free_trigger_hdlr t h ev = if is_repeat_hdlr t ev then base_trigger_hdlr t h ev else record t {
    sent = t.sent ++ (record { frees = true; ev = ev; weak = h }, get_priority t ev) ∷ [];
  }

  -- The virtual call: `has_free` says whether FreeHdlrDomino is one of the classes.
  unfoldable pub trigger_hdlr : Bool → HdlrDomino C → Shared C → ℕ → HdlrDomino C
  unfolding free_trigger_hdlr
  trigger_hdlr true t h ev = free_trigger_hdlr t h ev
  trigger_hdlr false t h ev = base_trigger_hdlr t h ev

  -- The handlers that the tables own at an event: a weak pointer to one of them can be locked.
  unfoldable pub ids_of : List (String × Shared C) → List ℕ
  ids_of [] = []
  ids_of ((name, h) ∷ hs) = h.id ∷ ids_of hs

  unfoldable pub single_id : Option (Shared C) → List ℕ
  single_id none = []
  single_id (some h) = h.id ∷ []

  unfoldable pub own : HdlrDomino C → ℕ → List ℕ
  unfolding ids_of single_id
  own t ev = single_id (hdlr_of t ev) ++ ids_of (multi_of t ev)

  unfoldable pub held : ℕ → List (Option (Shared C)) → Bool
  unfolding single_id
  held id [] = false
  held id (o ∷ os) = elem id (single_id o) || held id os

  unfoldable pub held_multi : ℕ → List (List (String × Shared C)) → Bool
  unfolding ids_of
  held_multi id [] = false
  held_multi id (hs ∷ rest) = elem id (ids_of hs) || held_multi id rest

  unfoldable pub in_table : HdlrDomino C → ℕ → Bool
  unfolding held held_multi
  in_table t id = held id t.hdlrs || held_multi id t.multi

  -- `WeakMsgCB::lock()` succeeds: a table or a `cb_hdlr_` on the call stack owns the object.
  unfoldable pub alive : HdlrDomino C → ℕ → Bool
  unfolding in_table
  alive t id = in_table t id || elem id t.running
