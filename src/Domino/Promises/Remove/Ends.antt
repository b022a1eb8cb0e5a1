-- ===== src/Domino/Promises/Remove/Ends.antt =====
-- That `rmEvOK` of domino/RmEvDom.hpp returns, and what it is then.
use domino_library.Prelude.{
  ℕ, ◌≡◌, ◌≤◌, refl, ◌∙◌, inl, inr, Bool, true, false, String, [], Option, none, some, string_eq,
  Option-cases, ◌>>=◌,
}
use domino_library.Domino.State.{Domino, get_event_by}
use domino_library.Domino.Ops.{Done}
use domino_library.Domino.Inv.{Inv}
use domino_library.Domino.Remove.{base_rm_ev, mark_removed, rm_ev, rm_ev_ok}
use domino_library.Domino.Remove.End.{base_rm_ev_ends}

unfoldable pub unknown : Domino → Done Bool
unknown d = record { dom = d; effects = []; ret = false }

unfoldable pub removal : ℕ → Done (Unit {0}) → Done Bool
unfolding mark_removed
removal ev q = record { dom = mark_removed ev q.dom; effects = q.effects; ret = true }

pub rm_ev_ok-some :
    (fuel : ℕ) (d : Domino) (name : String) (ev : ℕ)
    → get_event_by d name ≡ some ev
    → rm_ev_ok fuel d name ≡ (base_rm_ev fuel d ev >>= λ q. some (removal ev q))
unfolding rm_ev_ok rm_ev removal
rm_ev_ok-some fuel d name ev found = rw (rm_ev_ok, found) (bind2 (base_rm_ev fuel d ev))
  where
    bind2 :
        (o : Option (Done (Unit {0})))
        → ((o >>= λ r. some (record r { dom = mark_removed ev r.dom })) >>= λ r.
            some (record { dom = r.dom; effects = r.effects; ret = true }))
          ≡ (o >>= λ q. some (removal ev q))
    bind2 none = refl
    bind2 (some q) = refl

pub rm_ev_ok-none :
    (fuel : ℕ) (d : Domino) (name : String)
    → get_event_by d name ≡ none
    → rm_ev_ok fuel d name ≡ some (unknown d)
unfolding rm_ev_ok unknown
rm_ev_ok-none fuel d name found = rw (rm_ev_ok, found) refl

module _ (d : Domino) (name : String) (v : Inv d) where
  -- Some fuel is enough, and so is any more.
  rm_ev_ok_ends :
      (enough : ℕ) × ((fuel : ℕ)
        → enough ≤ fuel
        → (r : Done Bool) × (rm_ev_ok fuel d name ≡ some r))
  unfolding get_event_by
  rm_ev_ok_ends = elim (Option-cases (get_event_by d name)) [
    | inl missing ↦ (0, λ fuel h. (unknown d, rm_ev_ok-none fuel d name missing))
    | inr (ev, found) ↦
        let n = v.names name ev found in
        let (enough, ends) = base_rm_ev_ends d ev v n.inside n.in_use in
        (
          enough,
          λ fuel h.
              let (q, e) = ends fuel h in
              (removal ev q, rm_ev_ok-some fuel d name ev found ∙ rw e refl),
        )
  ]

-- Fuel with which `rmEvOK` returns
pub rm_ev_ok_fuel : (d : Domino) (name : String) → Inv d → ℕ
rm_ev_ok_fuel d name v = (rm_ev_ok_ends d name v).0

-- From `rm_ev_ok_fuel` on, `rmEvOK` returns.
pub rm_ev_ok_returns :
    (fuel : ℕ) (d : Domino) (name : String) (v : Inv d)
    → rm_ev_ok_fuel d name v ≤ fuel
    → (r : Done Bool) × (rm_ev_ok fuel d name ≡ some r)
unfolding rm_ev_ok_fuel
rm_ev_ok_returns fuel d name v h = (rm_ev_ok_ends d name v).1 fuel h
