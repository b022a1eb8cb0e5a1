-- ===== src/DataStore.antt =====
-- obj_anywhere/DataStore.hpp: data of any type by key. A null pointer is `none`.
pub mod Laws
use domino_library.Prelude.{
  ℕ, Bool, true, false, List, [], ◌∷◌, Option, none, some, ◌>>=◌, length, Eq, lookup, insert, erase,
}

-- `key_data_S_`
abbrev pub DataStore {ℓ κ} : Type ℓ → Type κ → Type (ℓ ⊔ κ)
DataStore K D = List (K × D)

module _ {ℓ κ} {K : Type ℓ} {D : Type κ} ⦃e : Eq K⦄ where
  -- `cast` is STATIC_PTR_CAST to the type asked for.
  unfoldable pub get {ι} : {A : Type ι} → (D → Option A) → DataStore K D → K → Option A
  unfolding lookup
  get cast store key = lookup key store >>= cast

  -- Null erases; data is stored only under a key that is free.
  unfoldable pub emplace_ok : DataStore K D → K → Option D → DataStore K D × Bool
  unfolding insert erase lookup
  emplace_ok store key none =
      (erase key store, elim (lookup key store) [ none ↦ false | some old ↦ true ])
  emplace_ok store key (some data_) = elim (lookup key store) [
    | none ↦ (insert key data_ store, true)
    | some old ↦ (store, false)
  ]

  -- Null erases; data is stored under the key in any case.
  unfoldable pub replace_ok : DataStore K D → K → Option D → DataStore K D × Bool
  unfolding insert emplace_ok
  replace_ok store key none = emplace_ok store key none
  replace_ok store key (some data_) = (insert key data_ store, true)

  abbrev pub n_data : DataStore K D → ℕ
  n_data store = length store
