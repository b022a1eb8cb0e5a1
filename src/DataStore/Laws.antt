-- ===== src/DataStore/Laws.antt =====
-- What `get` of obj_anywhere/DataStore.hpp finds after a store.
use domino_library.Prelude.{
  ◌≡◌, refl, sym, ◌∙◌, ap, inl, inr, Option, none, some, ◌>>=◌, Eq, lookup, lookup-insert,
  lookup-erase, Bool-cases, Option-cases, if◌then◌else◌,
}
use domino_library.DataStore.{DataStore, get, emplace_ok, replace_ok}

module _ {ℓ κ ι} {K : Type ℓ} {D : Type κ} {A : Type ι} ⦃e : Eq K⦄ (cast : D → Option A)
    (store : DataStore K D) where
  -- After `replaceOK`, `get` gives the new data at its key, null included, and the old data at any
  -- other key.
  pub get-replace_ok :
      (key other : K) (data_ : Option D)
      → get cast (replace_ok store key data_).0 other
        ≡ (if e.beq key other then data_ >>= cast else get cast store other)
  unfolding get replace_ok emplace_ok
  get-replace_ok key other none = elim (Bool-cases (e.beq key other)) [
    | inl same ↦ rw (lookup-erase key other store, same) refl
    | inr apart ↦ rw (lookup-erase key other store, apart) refl
  ]
  get-replace_ok key other (some x) = elim (Bool-cases (e.beq key other)) [
    | inl same ↦ rw (lookup-insert key other x store, same) refl
    | inr apart ↦ rw (lookup-insert key other x store, apart) refl
  ]

  -- After `emplaceOK` that answers true, `get` gives the new data at its key, null included, and the
  -- old data at any other key; after one that answers false, it gives the old data everywhere.
  pub get-emplace_ok :
      (key other : K) (data_ : Option D)
      → get cast (emplace_ok store key data_).0 other ≡ (
          if (emplace_ok store key data_).1
          then (if e.beq key other then data_ >>= cast else get cast store other)
          else get cast store other)
  unfolding get emplace_ok
  get-emplace_ok key other none = elim (Option-cases (lookup key store)) [
    | inl free ↦ elim (Bool-cases (e.beq key other)) [
      | inl same ↦
          let here : key ≡ other = (e.beq_iff key other).0 same in
          let free' : lookup other store ≡ none = ap (λ k. lookup k store) (sym here) ∙ free in
          rw (emplace_ok, free) (rw (get, lookup-erase key other store, same, free') refl)
      | inr apart ↦ rw (emplace_ok, free) (rw (get, lookup-erase key other store, apart) refl)
    ]
    | inr (old, found) ↦ elim (Bool-cases (e.beq key other)) [
      | inl same ↦ rw (emplace_ok, found) (rw (get, lookup-erase key other store, same) refl)
      | inr apart ↦ rw (emplace_ok, found) (rw (get, lookup-erase key other store, apart) refl)
    ]
  ]
  get-emplace_ok key other (some x) = elim (Option-cases (lookup key store)) [
    | inl free ↦ elim (Bool-cases (e.beq key other)) [
      | inl same ↦ rw (emplace_ok, free) (rw (get, lookup-insert key other x store, same) refl)
      | inr apart ↦ rw (emplace_ok, free) (rw (get, lookup-insert key other x store, apart) refl)
    ]
    | inr (old, found) ↦ rw (emplace_ok, found) refl
  ]
