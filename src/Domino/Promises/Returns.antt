-- ===== src/Domino/Promises/Returns.antt =====
-- That the operations of domino/Domino.cpp and domino/RmEvDom.hpp return.
use domino_library.Prelude.{ℕ, ◌+◌, ◌≡◌, ◌≤◌, Bool, Option, some, String, arith}
use domino_library.Domino.State.{Domino, SimuEvents}
use domino_library.Domino.Ops.{Done, set_state, set_prev}
use domino_library.Domino.Remove.{rm_ev_ok}
use domino_library.Domino.Inv.{Inv}
use domino_library.Domino.Promises.SetState.{set_state_fuel, set_state_returns}
use domino_library.Domino.Promises.SetPrev.{set_prev_fuel, set_prev_returns}
use domino_library.Domino.Promises.Remove.Ends.{rm_ev_ok_fuel, rm_ev_ok_returns}

-- Fuel with which the three operations return
pub domino_fuel : (d : Domino) (name : String) (evs : SimuEvents) → Inv d → ℕ
domino_fuel d name evs v =
    set_state_fuel d evs v + (set_prev_fuel d name evs v + rm_ev_ok_fuel d name v)

-- On a domino that satisfies the invariant, `setState`, `setPrev` and `rmEvOK` return with any fuel
-- from `domino_fuel` on.
pub domino_returns :
    (fuel : ℕ) (d : Domino) (name : String) (evs : SimuEvents) (v : Inv d)
    → domino_fuel d name evs v ≤ fuel
    → ((r : Done ℕ) × (set_state fuel d evs ≡ some r))
      × ((r : Done (Option ℕ)) × (set_prev fuel d name evs ≡ some r))
      × ((r : Done Bool) × (rm_ev_ok fuel d name ≡ some r))
unfolding domino_fuel
domino_returns fuel d name evs v enough = (
  set_state_returns fuel d evs v (omega (arith, enough)),
  set_prev_returns fuel d name evs v (omega (arith, enough)),
  rm_ev_ok_returns fuel d name v (omega (arith, enough)),
)
