-- ===== src/DataDomino.antt =====
-- domino/DataDomino.hpp: data of any type for an event, over domino/RmEvDom.hpp. A null pointer is
-- `none`.
use domino_library.Prelude.{ℕ, Bool, String, Option, none, some, ◌>>=◌, nat_eq}
use domino_library.DataStore.{DataStore, get, replace_ok}
use domino_library.Domino.State.{Domino, get_event_by, new_event}
use domino_library.Domino.Remove.{rm_ev}

-- `ev_data_S_` is `ev_data`.
pub record DataDomino {ℓ} (D : Type ℓ) : Type ℓ where
  pub dom : Domino
  pub ev_data : DataStore ℕ D

module _ {ℓ} {D : Type ℓ} where
  -- `getData_`
  unfoldable pub data_at : DataDomino D → ℕ → Option D
  unfolding get
  data_at t ev = get some t.ev_data ev

  -- `getData`; D_EVENT_FAILED_RET is no key.
  unfoldable pub get_data : DataDomino D → String → Option D
  unfolding data_at get_event_by
  get_data t name = get_event_by t.dom name >>= data_at t

  -- `replaceDataOK`
  unfoldable pub replace_data_ok : DataDomino D → String → Option D → DataDomino D × Bool
  unfolding new_event replace_ok
  replace_data_ok t name data_ =
      let (d, ev) = new_event t.dom name in
      let (store, ok) = replace_ok t.ev_data ev data_ in (record { dom = d; ev_data = store }, ok)

  -- `rmEv_`, and the classes below it
  unfoldable pub rm_ev_data : ℕ → DataDomino D → ℕ → Option (DataDomino D)
  unfolding rm_ev replace_ok
  rm_ev_data fuel t ev = rm_ev fuel t.dom ev >>= λ r.
      some (record { dom = r.dom; ev_data = (replace_ok t.ev_data ev none).0 })

  -- `rlib::getData`, where `cast` is STATIC_PTR_CAST, and `rlib::setValueOK`, where `make` is
  -- MAKE_PTR
  unfoldable pub get_data_as {ι} : {A : Type ι} → (D → Option A) → DataDomino D → String → Option A
  unfolding get_data
  get_data_as cast t name = get_data t name >>= cast

  unfoldable pub set_value_ok {ι} :
      {A : Type ι} → (A → Option D) → DataDomino D → String → A → DataDomino D × Bool
  unfolding replace_data_ok
  set_value_ok make t name value = replace_data_ok t name (make value)
