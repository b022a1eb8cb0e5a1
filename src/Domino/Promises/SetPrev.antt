-- ===== src/Domino/Promises/SetPrev.antt =====
-- `setPrev` of domino/Domino.cpp.
use domino_library.Prelude.{
  ℕ, ◌+◌, ◌≡◌, ◌≤◌, sym, ◌∙◌, ap, inl, inr, Bool, true, false, String, [], none, some,
  some-injective, string_eq, elem, length, arith, subst, ◌<◌, >>=-eq-some, Option, ◌≢◌, Bool-cases,
  ◌≢◌, Bool-cases,
}
use domino_library.Domino.Links.{Branches, branch, find_peer_evs, Falls}
use domino_library.Domino.Marks.{state}
use domino_library.Domino.State.{Domino, SimuEvents, get_event_by}
use domino_library.Domino.Ops.{Done, nextables, set_prev}
use domino_library.Domino.Search.{Walk, here, onward, follows, nextables-Walk}
use domino_library.Domino.Inv.{Inv}
use domino_library.Domino.SetPrev.Check.{Asks, validate_loop}
use domino_library.Domino.SetPrev.Wire.{AllLinked, new_event-known}
use domino_library.Domino.SetPrev.Laws.{set_prev-cases, set_prev_ends}

-- Fuel with which `setPrev` returns
pub set_prev_fuel : (d : Domino) (name : String) (evs : SimuEvents) → Inv d → ℕ
set_prev_fuel d name evs v = (set_prev_ends d name evs v).0

-- From `set_prev_fuel` on, `setPrev` returns.
pub set_prev_returns :
    (fuel : ℕ) (d : Domino) (name : String) (evs : SimuEvents) (v : Inv d)
    → set_prev_fuel d name evs v ≤ fuel
    → (r : Done (Option ℕ)) × (set_prev fuel d name evs ≡ some r)
unfolding set_prev_fuel
set_prev_returns fuel d name evs v h = (set_prev_ends d name evs v).1 fuel h

follows-rank :
    (rank : ℕ → ℕ) (next : Branches) (u e : ℕ)
    → Falls rank next
    → follows next u e ≡ true
    → rank u < rank e
follows-rank rank next u e falls f = elim (Bool-cases (elem u (find_peer_evs e next.on_true))) [
  | inl t ↦ falls true u e t
  | inr other ↦ falls false u e (ground arith)
]

Walk-rank :
    (rank : ℕ → ℕ) (next : Branches) {from e : ℕ}
    → Falls rank next
    → Walk next from e
    → rank e ≤ rank from
Walk-rank rank next falls here = omega arith
Walk-rank rank next falls (onward {u} {v} p f) =
    omega (arith, Walk-rank rank next falls p, follows-rank rank next v u falls f)

-- Under the invariant no walk along the links leads back to where it began.
links_acyclic :
    (d : Domino) (from e : ℕ) → Inv d → Walk d.next from e → follows d.next from e ≢ true
links_acyclic d from e v walk back = absurd (
    omega
      (arith, Walk-rank v.rank d.next v.falls walk, follows-rank v.rank d.next from e v.falls back))

module _ (fuel : ℕ) (d : Domino) (name : String) (evs : SimuEvents) (r : Done (Option ℕ))
    (v : Inv d) (returns : set_prev fuel d name evs ≡ some r) where
  -- When `setPrev` returns, whether it linked the events or refused to, the invariant holds; so the
  -- links form no cycle.
  pub set_prev-Inv : Inv r.dom
  set_prev-Inv = elim (set_prev-cases d name evs v fuel r returns) [
    | inl a ↦ a.valid
    | inr f ↦ f.valid
  ]

  -- When `setPrev` answers with an event, that is the event of the name, and each of the links asked
  -- for is there.
  pub set_prev_links :
      (from : ℕ)
      → r.ret ≡ some from
      → (get_event_by r.dom name ≡ some from) × AllLinked r.dom from evs
  unfolding get_event_by
  set_prev_links from ok = elim (set_prev-cases d name evs v fuel r returns) [
    | inl a ↦
        let same : a.from ≡ from = some-injective a.from from (sym a.answer ∙ ok) in
        (a.found ∙ ap some same, subst (λ x. AllLinked r.dom x evs) same a.linked)
    | inr f ↦ ground (arith, f.answer)
  ]

  -- When `setPrev` fails, no link and no state is another than before, and no effect is called.
  pub set_prev_failed :
      (b : Bool) (e : ℕ)
      → r.ret ≡ none
      → (find_peer_evs e (branch b r.dom.prev) ≡ find_peer_evs e (branch b d.prev))
        × (find_peer_evs e (branch b r.dom.next) ≡ find_peer_evs e (branch b d.next))
        × (state r.dom.marks e ≡ state d.marks e)
        × (r.effects ≡ [])
  set_prev_failed b e failed = elim (set_prev-cases d name evs v fuel r returns) [
    | inl a ↦ ground (arith, a.answer)
    | inr f ↦ (f.extends.same_prev b e, f.extends.same_next b e, f.extends.same_states e, f.quiet)
  ]

  -- An event that was down before `setPrev` and is up after it has its effect called.
  set_prev_effects_complete :
      (e : ℕ) → state d.marks e ≡ false → state r.dom.marks e ≡ true → elem e r.effects ≡ true
  set_prev_effects_complete e down up = elim (set_prev-cases d name evs v fuel r returns) [
    | inl a ↦ a.complete e down up
    | inr f ↦ ground (arith, f.extends.same_states e)
  ]

  -- `setPrev` calls the effect only of events that are up when it returns.
  set_prev_effects_sound : (e : ℕ) → elem e r.effects ≡ true → state r.dom.marks e ≡ true
  set_prev_effects_sound e called = elim (set_prev-cases d name evs v fuel r returns) [
    | inl a ↦ a.sound e called
    | inr f ↦ ground (arith, ap (elem e) f.quiet)
  ]

  -- An event that was down before `setPrev` has its effect called if and only if it is up after it.
  pub set_prev_effects : (e : ℕ) → state d.marks e ≡ false → elem e r.effects ≡ state r.dom.marks e
  set_prev_effects e down = elim (Bool-cases (state r.dom.marks e)) [
    | inl up ↦ set_prev_effects_complete e down up ∙ sym up
    | inr still ↦ elim (Bool-cases (elem e r.effects)) [
      | inl called ↦ called ∙ sym (set_prev_effects_sound e called)
      | inr not_called ↦ not_called ∙ sym still
    ]
  ]

  -- `setPrev` refuses an event to which the links lead from the event of the name, itself included.
  pub set_prev_refuses_loop :
      (from pe : ℕ) (prev_en : String)
      → get_event_by d name ≡ some from
      → get_event_by d prev_en ≡ some pe
      → Asks prev_en evs
      → Walk d.next from pe
      → r.ret ≡ none
  unfolding set_prev get_event_by
  set_prev_refuses_loop from pe prev_en found pfound asks walk =
      let size = length d.states + length evs in
      let (bs, searched, later) =
        >>=-eq-some (nextables d.next fuel size from) _
          (rw (new_event-known d name from found) at returns) in
      let m =
        (nextables-Walk d.next from (length d.states) v.linked.within size (omega arith)
            (v.names name from found).inside fuel bs pe searched).1
          walk in
      let failed = validate_loop d from bs evs prev_en pe v.held pfound m asks in
      ap (λ q. q.ret) (sym (some-injective _ _ (rw failed at later)))
