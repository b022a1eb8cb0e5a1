-- ===== src/WbasicDatDom.antt =====
-- domino/WbasicDatDom.hpp: write control of the data of domino/DataDomino.hpp. The data of an event
-- under write control is reached by the functions `wbasic_` only.
pub mod Protects
pub mod Guard
use domino_library.Prelude.{
  ℕ, Bool, true, false, String, List, [], ◌∷◌, Option, none, some, if◌then◌else◌, ◌>>=◌, get_or,
  put, set,
}
use domino_library.Domino.State.{Domino, get_event_by, new_event}
use domino_library.DataDomino.{
  DataDomino, data_at, get_data as base_get_data, replace_data_ok as base_replace_data_ok,
  rm_ev_data,
}

-- `wrCtrl_` is `wr_ctrl`.
pub record WbasicDatDom {ℓ} (D : Type ℓ) : Type ℓ where
  pub base : DataDomino D
  pub wr_ctrl : List Bool

module _ {ℓ} {D : Type ℓ} where
  -- `isWrCtrl_`
  abbrev pub is_wr_ctrl_at : WbasicDatDom D → ℕ → Bool
  is_wr_ctrl_at t ev = get_or t.wr_ctrl ev false

  -- D_EVENT_FAILED_RET is beyond the vector.
  unfoldable pub is_wr_ctrl : WbasicDatDom D → String → Bool
  unfolding get_event_by
  is_wr_ctrl t name = elim (get_event_by t.base.dom name) [
    | none ↦ false
    | some ev ↦ is_wr_ctrl_at t ev
  ]

  unfoldable pub get_data : WbasicDatDom D → String → Option D
  unfolding is_wr_ctrl base_get_data
  get_data t name = if is_wr_ctrl t name then none else base_get_data t.base name

  unfoldable pub wbasic_get_data : WbasicDatDom D → String → Option D
  unfolding is_wr_ctrl base_get_data
  wbasic_get_data t name = if is_wr_ctrl t name then base_get_data t.base name else none

  -- The replacement by DataDomino
  unfoldable pub replaced : WbasicDatDom D → String → Option D → WbasicDatDom D × Bool
  unfolding base_replace_data_ok
  replaced t name data_ =
      let (b, ok) = base_replace_data_ok t.base name data_ in (record t { base = b }, ok)

  unfoldable pub replace_data_ok : WbasicDatDom D → String → Option D → WbasicDatDom D × Bool
  unfolding is_wr_ctrl replaced
  replace_data_ok t name data_ = if is_wr_ctrl t name then (t, false) else replaced t name data_

  unfoldable pub wbasic_replace_data_ok : WbasicDatDom D → String → Option D → WbasicDatDom D × Bool
  unfolding is_wr_ctrl replaced
  wbasic_replace_data_ok t name data_ =
      if is_wr_ctrl t name then replaced t name data_ else (t, false)

  -- `rlib::wbasic_getData`, where `cast` is STATIC_PTR_CAST, and `rlib::wbasic_setValueOK`, where
  -- `make` is MAKE_PTR
  unfoldable pub wbasic_get_data_as {ι} :
      {A : Type ι} → (D → Option A) → WbasicDatDom D → String → Option A
  unfolding wbasic_get_data
  wbasic_get_data_as cast t name = wbasic_get_data t name >>= cast

  unfoldable pub wbasic_set_value_ok {ι} :
      {A : Type ι} → (A → Option D) → WbasicDatDom D → String → A → WbasicDatDom D × Bool
  unfolding wbasic_replace_data_ok
  wbasic_set_value_ok make t name value = wbasic_replace_data_ok t name (make value)

  -- `wrCtrlOk`: refused when the event has data
  unfoldable pub wr_ctrl_ok : WbasicDatDom D → String → Bool → WbasicDatDom D × Bool
  unfolding new_event data_at
  wr_ctrl_ok t name new_state =
      let (d, ev) = new_event t.base.dom name in
      let t' = record t { base = record t.base { dom = d } } in
      elim (data_at t.base ev) [
        | some data_ ↦ (t', false)
        | none ↦ (record t' { wr_ctrl = put false t.wr_ctrl ev new_state }, true)
      ]

  -- `rmEvOK` with the `rmEv_` of the classes
  unfoldable pub rm_ev_ok_wr : ℕ → WbasicDatDom D → String → Option (WbasicDatDom D × Bool)
  unfolding get_event_by rm_ev_data
  rm_ev_ok_wr fuel t name = elim (get_event_by t.base.dom name) [
    | none ↦ some (t, false)
    | some ev ↦ rm_ev_data fuel t.base ev >>= λ b.
        some (record { base = b; wr_ctrl = set t.wr_ctrl ev false }, true)
  ]

-- The public calls without the right of the functions `wbasic_` and without the removal of events
pub data Call {ℓ} (D : Type ℓ) : Type ℓ where
  new_event_call : String → Call D
  replace_call : String → Option D → Call D
  wr_ctrl_call : String → Bool → Call D

module _ {ℓ} {D : Type ℓ} where
  unfoldable pub do_call : WbasicDatDom D → Call D → WbasicDatDom D
  unfolding new_event replace_data_ok wr_ctrl_ok
  do_call t (new_event_call name) = record t {
    base = record t.base { dom = (new_event t.base.dom name).0 };
  }
  do_call t (replace_call name data_) = (replace_data_ok t name data_).0
  do_call t (wr_ctrl_call name new_state) = (wr_ctrl_ok t name new_state).0

  unfoldable pub do_calls : WbasicDatDom D → List (Call D) → WbasicDatDom D
  unfolding do_call
  do_calls t [] = t
  do_calls t (c ∷ cs) = do_calls (do_call t c) cs
