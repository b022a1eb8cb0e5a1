-- ===== src/Tests/Stores.antt =====
-- obj_anywhere at small stores, as in ut/obj_anywhere.
use domino_library.Prelude.{ℕ, ◌≡◌, true, [], ◌∷◌, some, string_eq, nat_eq}
use domino_library.DataStore.{DataStore, get, emplace_ok, replace_ok}
use domino_library.DataStore.Laws.{get-replace_ok, get-emplace_ok}
use domino_library.ObjAnywhere.{ObjAnywhere, get_obj, emplace_obj_ok}
use domino_library.ObjAnywhere.Laws.{has_obj, get_obj-emplace_obj_ok}

abbrev two : DataStore ℕ ℕ
two = (1, 10) ∷ (2, 20) ∷ []

get-replace_ok_example : get some (replace_ok two 1 (some 11)).0 1 ≡ some 11
get-replace_ok_example = get-replace_ok some two 1 1 (some 11)

get-emplace_ok_example : get some (emplace_ok two 1 (some 11)).0 1 ≡ some 10
unfolding emplace_ok get
get-emplace_ok_example = get-emplace_ok some two 1 1 (some 11)

abbrev objs : ObjAnywhere ℕ
objs = some (("a", 1) ∷ [])

get_obj-emplace_obj_ok_example :
    ((emplace_obj_ok objs (some 2) "b").1 ≡ true)
    × (get_obj some (emplace_obj_ok objs (some 2) "b").0 "b" ≡ some 2)
unfolding emplace_obj_ok get_obj has_obj
get_obj-emplace_obj_ok_example = get_obj-emplace_obj_ok some objs (some 2) "b" "b"
