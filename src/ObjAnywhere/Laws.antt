-- ===== src/ObjAnywhere/Laws.antt =====
-- What `getObj` of obj_anywhere/ObjAnywhere.hpp finds after `emplaceObjOK`.
use domino_library.Prelude.{
  ◌≡◌, refl, ap, ◌&&◌, not, true, Bool, lookup, Option-cases, inl, inr, false, Option, none, some,
  ◌>>=◌, String, string_eq, Bool-cases, if◌then◌else◌, arith,
}
use domino_library.DataStore.{emplace_ok, get}
use domino_library.DataStore.Laws.{get-emplace_ok}
use domino_library.ObjAnywhere.{ObjAnywhere, is_init, get_obj, emplace_obj_ok}

module _ {κ} {D : Type κ} where
  -- `getObj` of any data finds some.
  unfoldable pub has_obj : ObjAnywhere D → String → Bool
  unfolding get_obj
  has_obj objs name = elim (get_obj some objs name) [ none ↦ false | some obj ↦ true ]

  emplace_obj_ok-answer :
      (objs : ObjAnywhere D) (obj : Option D) (name : String)
      → (emplace_obj_ok objs obj name).1 ≡ (
          is_init objs
          && (not (string_eq.beq name "")
              && (elim obj [ none ↦ has_obj objs name | some data_ ↦ not (has_obj objs name) ])))
  unfolding emplace_obj_ok has_obj get_obj emplace_ok get
  emplace_obj_ok-answer none obj name = refl
  emplace_obj_ok-answer (some store) none name = elim (Bool-cases (string_eq.beq name "")) [
    | inl empty ↦ rw (emplace_obj_ok, empty) refl
    | inr given ↦ elim (Option-cases (lookup name store)) [
      | inl free ↦
          rw (emplace_obj_ok, emplace_ok, given, free)
            (rw (has_obj, get_obj, get, given, free) refl)
      | inr (old, found) ↦
          rw (emplace_obj_ok, emplace_ok, given, found)
            (rw (has_obj, get_obj, get, given, found) refl)
    ]
  ]
  emplace_obj_ok-answer (some store) (some data_) name = elim (Bool-cases (string_eq.beq name "")) [
    | inl empty ↦ rw (emplace_obj_ok, empty) refl
    | inr given ↦ elim (Option-cases (lookup name store)) [
      | inl free ↦
          rw (emplace_obj_ok, emplace_ok, given, free)
            (rw (has_obj, get_obj, get, given, free) refl)
      | inr (old, found) ↦
          rw (emplace_obj_ok, emplace_ok, given, found)
            (rw (has_obj, get_obj, get, given, found) refl)
    ]
  ]

module _ {κ ι} {D : Type κ} {A : Type ι} (cast : D → Option A) where
  get_obj-after :
      (objs : ObjAnywhere D) (obj : Option D) (name other : String)
      → get_obj cast (emplace_obj_ok objs obj name).0 other ≡ (
          if (emplace_obj_ok objs obj name).1
          then (if string_eq.beq name other then obj >>= cast else get_obj cast objs other)
          else get_obj cast objs other)
  unfolding get_obj emplace_obj_ok
  get_obj-after none obj name other = refl
  get_obj-after (some store) obj name other = elim (Bool-cases (string_eq.beq name "")) [
    | inl empty ↦ rw (emplace_obj_ok, empty) refl
    | inr given ↦ elim (Bool-cases (string_eq.beq other "")) [
      | inl nameless ↦
          let apart : string_eq.beq name other ≡ false =
            elim (Bool-cases (string_eq.beq name other)) [
              | inl same ↦
                  let here : name ≡ other = (string_eq.beq_iff name other).0 same in
                  ground (arith, ap (λ k. string_eq.beq k "") here, given, nameless)
              | inr away ↦ away
            ] in
          rw (emplace_obj_ok, given)
            (rw (get_obj, nameless, apart)
              (elim (Bool-cases (emplace_ok store name obj).1) [
                | inl t ↦ rw t refl
                | inr f ↦ rw f refl
              ]))
      | inr named ↦
          rw (emplace_obj_ok, given)
            (rw (get_obj, named) (get-emplace_ok cast store name other obj))
    ]
  ]

  -- `emplaceObjOK` answers true if and only if there was an `init`, the name is not empty, and it has
  -- an object if the new one is null, and none otherwise. After that, `getObj` gives the new object
  -- under its name, null included, and the old object under any other name; if the answer is false,
  -- it gives the old object under every name.
  pub get_obj-emplace_obj_ok :
      (objs : ObjAnywhere D) (obj : Option D) (name other : String)
      → ((emplace_obj_ok objs obj name).1 ≡ (
          is_init objs
          && (not (string_eq.beq name "")
              && (elim obj [ none ↦ has_obj objs name | some data_ ↦ not (has_obj objs name) ]))))
        × (get_obj cast (emplace_obj_ok objs obj name).0 other ≡ (
            if (emplace_obj_ok objs obj name).1
            then (if string_eq.beq name other then obj >>= cast else get_obj cast objs other)
            else get_obj cast objs other))
  get_obj-emplace_obj_ok objs obj name other =
      (emplace_obj_ok-answer objs obj name, get_obj-after objs obj name other)
