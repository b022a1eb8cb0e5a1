-- ===== src/Tests/Data.antt =====
-- Data of events at a small domino, as in ut/domino/WbasicDatDomTest.cpp.
use domino_library.Prelude.{ℕ, ◌≡◌, refl, true, false, List, [], ◌∷◌, none, some, lookup, insert}
use domino_library.Domino.State.{get_event_by, new_event}
use domino_library.DataDomino.{data_at}
use domino_library.WbasicDatDom.{
  WbasicDatDom, Call, new_event_call, replace_call, wr_ctrl_call, do_calls, wr_ctrl_ok, get_data,
  wbasic_get_data, replace_data_ok, wbasic_replace_data_ok,
}
use domino_library.WbasicDatDom.Guard.{guarded_lasts, wr_ctrl_ok-sides}
use domino_library.Tests.Domino.{linked, linked-Inv}

-- "a" is under write control, and has the data 7.
abbrev open_dom : WbasicDatDom ℕ
open_dom = record { base = record { dom = linked; ev_data = [] }; wr_ctrl = [] }

abbrev controlled : WbasicDatDom ℕ
controlled = record open_dom { wr_ctrl = false ∷ true ∷ [] }

abbrev guarded : WbasicDatDom ℕ
guarded = record controlled { base = record { dom = linked; ev_data = (1, 7) ∷ [] } }

wr_ctrl_ok-sides_example :
    (true ≡ true)
    × (wbasic_get_data guarded "a" ≡ some 7)
    × (get_data guarded "a" ≡ none)
    × ((replace_data_ok guarded "a" (some 8)).1 ≡ false)
    × ((wr_ctrl_ok guarded "a" false).1 ≡ false)
unfolding wr_ctrl_ok wbasic_replace_data_ok new_event lookup insert
wr_ctrl_ok-sides_example =
    wr_ctrl_ok-sides open_dom controlled guarded "a" 7 (some 8) false true linked-Inv refl refl

-- Calls that would take the data of "a", if they could
abbrev attempts : List (Call ℕ)
attempts =
    replace_call "a" (some 8)
    ∷ wr_ctrl_call "a" false
    ∷ new_event_call "d"
    ∷ replace_call "d" none
    ∷ []

guarded_lasts_example :
    (wbasic_get_data (do_calls guarded attempts) "a" ≡ some 7)
    × (get_data (do_calls guarded attempts) "a" ≡ none)
unfolding get_event_by lookup data_at
guarded_lasts_example = guarded_lasts guarded "a" 1 7 attempts linked-Inv refl refl refl
