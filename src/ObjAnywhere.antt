-- ===== src/ObjAnywhere.antt =====
-- obj_anywhere/ObjAnywhere.hpp and obj_anywhere/ObjAnywhere.cpp: objects of the process by name.
pub mod Laws
use domino_library.Prelude.{
  ℕ, Bool, true, false, List, [], Option, none, some, String, string_eq, ◌>>=◌, if◌then◌else◌,
}
use domino_library.DataStore.{DataStore, get, emplace_ok, n_data}

-- `name_obj_S_`: none before `init` and after `deinit`
abbrev pub ObjAnywhere {κ} : Type κ → Type κ
ObjAnywhere D = Option (DataStore String D)

module _ {κ} {D : Type κ} where
  abbrev pub is_init : ObjAnywhere D → Bool
  is_init none = false
  is_init (some store) = true

  -- A second `init` is refused.
  unfoldable pub init : ObjAnywhere D → ObjAnywhere D
  init none = some []
  init (some store) = some store

  abbrev pub deinit : ObjAnywhere D → ObjAnywhere D
  deinit objs = none

  unfoldable pub n_obj : ObjAnywhere D → ℕ
  n_obj none = 0
  n_obj (some store) = n_data store

  unfoldable pub get_obj {ι} : {A : Type ι} → (D → Option A) → ObjAnywhere D → String → Option A
  unfolding get
  get_obj cast none name = none
  get_obj cast (some store) name = if string_eq.beq name "" then none else get cast store name

  unfoldable pub emplace_obj_ok : ObjAnywhere D → Option D → String → ObjAnywhere D × Bool
  unfolding emplace_ok
  emplace_obj_ok none obj name = (none, false)
  emplace_obj_ok (some store) obj name =
      let r = emplace_ok store name obj in
      if string_eq.beq name "" then (some store, false) else (some r.0, r.1)
