-- ===== src/Domino/WhyFalse/Cause.antt =====
-- `whyFalse` of domino/Domino.cpp ends, and what it finds leads to the event.
use domino_library.Prelude.{
  ℕ, zero, suc, ◌≡◌, ◌≤◌, ◌<◌, refl, ◌∙◌, ap, inl, inr, Bool, false, some, ◌>>=◌, arith,
}
use domino_library.Domino.Marks.{state}
use domino_library.Domino.State.{Domino, is_removed}
use domino_library.Domino.Search.{Walk, here}
use domino_library.Domino.Inv.{Inv}
use domino_library.Domino.WhyFalse.{WhyStep, goes_on, why_loop, why_false}
use domino_library.Domino.WhyFalse.Peers.{bound, IsRoot, Cause, Enough}
use domino_library.Domino.WhyFalse.Steps.{step_lem}
use domino_library.Domino.WhyFalse.Down.{Steps}

module _ (d : Domino) (v : Inv d) where
  why_loop-found :
      (fuel rounds : ℕ) (s : WhyStep) (r : ℕ × Bool)
      → s.result ≡ some r
      → why_loop d fuel rounds s ≡ some r
  unfolding why_loop
  why_loop-found fuel zero s r found = found
  why_loop-found fuel (suc rounds) s r found = rw (why_loop, found) refl

  why_loop_lem :
      (fuel rounds cur ev : ℕ) (flag : Bool)
      → bound d v < fuel
      → Enough d v rounds cur
      → Cause d v ev cur flag
      → (e : ℕ) × (b : Bool) × (why_loop d fuel rounds (goes_on cur flag) ≡ some (e, b))
        × Cause d v ev e b
        × IsRoot d ev e b
  unfolding why_loop Steps Enough
  why_loop_lem fuel zero cur ev flag much enough c = absurd (omega (arith, enough.0))
  why_loop_lem fuel (suc rounds) cur ev flag much enough c =
      let start : Enough d v fuel cur = (omega (arith, much), omega (arith, much)) in
      let (s, stepped, steps) = step_lem d v fuel cur ev flag start c in
      let first : why_loop d fuel (suc rounds) (goes_on cur flag) ≡ why_loop d fuel rounds s =
        ap (λ o. o >>= why_loop d fuel rounds) stepped in
      elim steps [
        | inl (e, b, found, c', n) ↦
            (e, b, first ∙ why_loop-found fuel rounds s (e, b) found, c', n)
        | inr (none_yet, c', higher, limited) ↦
            let again : s ≡ goes_on s.cur_ev s.why_flag =
              ap (λ r. record s { result = r }) none_yet in
            let (e, b, rest, c'', n) =
              why_loop_lem fuel rounds s.cur_ev ev s.why_flag much
                (omega (arith, enough.1, limited), omega (arith, enough.1, higher)) c' in
            (e, b, first ∙ ap (why_loop d fuel rounds) again ∙ rest, c'', n)
      ]

-- Fuel with which `whyFalse` returns
pub why_false_fuel : (d : Domino) → Inv d → ℕ
why_false_fuel d v = suc (bound d v)

-- On a domino that satisfies the invariant, `whyFalse` of an event that is there and down returns
-- with any fuel from `why_false_fuel` on. The event that it names is in the state that it names, the
-- links lead from it to the event asked about, and it is a root. If it is up, that is one that has
-- not exactly one predecessor. If it is down, it has no predecessor for true that is down, and
-- either no predecessor at all, or it is one for true of an event that is down, from which the links
-- lead to the event asked about.
pub why_false_lem :
    (d : Domino) (v : Inv d) (fuel ev : ℕ)
    → why_false_fuel d v ≤ fuel
    → is_removed d ev ≡ false
    → state d.marks ev ≡ false
    → (e : ℕ) × (b : Bool) × (why_false d fuel ev ≡ some (some (e, b)))
      × (state d.marks e ≡ b)
      × Walk d.next e ev
      × IsRoot d ev e b
unfolding why_false why_false_fuel Enough Cause
why_false_lem d v fuel ev much used down =
    let (e, b, found, c, n) =
      why_loop_lem d v fuel fuel ev ev false (omega (arith, much))
        (omega (arith, much), omega (arith, much)) (down, here) in
    (e, b, rw (why_false, used, down) (rw (why_false, found) refl), c.0, c.1, n)
