-- ===== src/Domino/WhyFalse/Steps.antt =====
-- The steps of `whyFalse` of domino/Domino.cpp: each ends, and stays on the way to the event.
use domino_library.Prelude.{
  ℕ, zero, suc, ◌≡◌, refl, ◌∙◌, ap, inl, inr, Bool, true, false, [], ◌∷◌, some, if◌then◌else◌,
  arith, List-cases,
}
use domino_library.Domino.Links.{branch, find_peer_evs, has_prev}
use domino_library.Domino.Marks.{state, deduced, deduce_state_self, all_have}
use domino_library.Domino.State.{Domino}
use domino_library.Domino.Inv.{Inv}
use domino_library.Domino.WhyFalse.{WhyStep, ends_at, goes_on, why_false_step, why_true_step}
use domino_library.Domino.WhyFalse.Down.{Steps, why_false_step_lem}
use domino_library.Domino.WhyFalse.Peers.{
  IsRoot, Feeds, feeds, Cause, Enough, Enough-peer, Cause-peer,
}

module _ (d : Domino) (v : Inv d) where
  -- An event that is up has its only predecessor in the state asked for.
  settled_peer :
      (cur : ℕ)
      → state d.marks cur ≡ true
      → has_prev d.prev cur ≡ true
      → (all_have true d.marks (find_peer_evs cur d.prev.on_true) ≡ true)
        × (all_have false d.marks (find_peer_evs cur d.prev.on_false) ≡ true)
  unfolding deduced deduce_state_self
  settled_peer cur up fed =
      let s = v.settled cur fed refl in (ground (arith, s, up), ground (arith, s, up))

  single_state :
      (b : Bool) (peer : ℕ) → all_have b d.marks (peer ∷ []) ≡ true → state d.marks peer ≡ b
  unfolding all_have
  single_state b peer h = ground (arith, h)

  Steps-lower :
      (ev peer cur : ℕ) (s : WhyStep)
      → Steps d v ev peer s
      → Feeds d v peer cur
      → Steps d v ev cur s
  unfolding Steps
  Steps-lower ev peer cur s (inl found) f = inl found
  Steps-lower ev peer cur s (inr (none_yet, c, higher, limited)) f =
      inr (none_yet, c, omega (arith, higher, f.higher), f.limited)

  only_peer :
      (b : Bool) (peer cur : ℕ)
      → state d.marks cur ≡ true
      → find_peer_evs cur (branch b d.prev) ≡ peer ∷ []
      → Feeds d v peer cur × (state d.marks peer ≡ b)
  only_peer true peer cur up one =
      let f = feeds d v true peer cur (rw one (ground arith)) in
      let (trues, falses) = settled_peer cur up f.fed in
      (f, single_state true peer (rw one at trues))
  only_peer false peer cur up one =
      let f = feeds d v false peer cur (rw one (ground arith)) in
      let (trues, falses) = settled_peer cur up f.fed in
      (f, single_state false peer (rw one at falses))

  why_true_step_lem :
      (fuel cur ev : ℕ)
      → Enough d v fuel cur
      → Cause d v ev cur true
      → (s : WhyStep) × (why_true_step d fuel cur ≡ some s) × Steps d v ev cur s
  unfolding why_true_step Steps Enough Cause
  why_true_step_lem zero cur ev enough c = absurd (omega (arith, enough.0))
  why_true_step_lem (suc fuel) cur ev enough c =
      let stop = λ (n : IsRoot d ev cur true).
        let ended : Steps d v ev cur (ends_at cur true (cur, true)) = inl (cur, true, refl, c, n) in
        ended in
      elim (List-cases (find_peer_evs cur d.prev.on_true)) [
        | inl no_true ↦ elim (List-cases (find_peer_evs cur d.prev.on_false)) [
          | inl no_false ↦ (
            ends_at cur true (cur, true),
            rw (why_true_step, no_true, no_false) refl,
            stop (rw (no_true, no_false) (λ n. ground arith)),
          )
          | inr (peer, peers, falses) ↦ elim (List-cases peers) [
            | inr (x, xs, more) ↦ (
              ends_at cur true (cur, true),
              rw (why_true_step, no_true, falses, more) refl,
              stop (rw (no_true, falses, more) (λ n. ground arith)),
            )
            | inl alone ↦
                let (f, down) = only_peer false peer cur c.0 (falses ∙ ap (λ x. peer ∷ x) alone) in
                (
                  goes_on peer false,
                  rw (why_true_step, no_true, falses, alone) refl,
                  inr (refl, Cause-peer d v peer cur ev true false c f down, f.higher, f.limited),
                )
          ]
        ]
        | inr (peer, peers, trues) ↦ elim (List-cases peers) [
          | inr (x, xs, more) ↦ (
            ends_at cur true (cur, true),
            rw (why_true_step, trues, more) refl,
            stop (rw (trues, more) (λ n. ground arith)),
          )
          | inl alone ↦ elim (List-cases (find_peer_evs cur d.prev.on_false)) [
            | inr (x, xs, falses) ↦ (
              ends_at cur true (cur, true),
              rw (why_true_step, trues, alone, falses) refl,
              stop (rw (trues, falses) (λ n. ground arith)),
            )
            | inl no_false ↦
                let (f, up) = only_peer true peer cur c.0 (trues ∙ ap (λ x. peer ∷ x) alone) in
                let (s, e, steps) =
                  why_true_step_lem fuel peer ev (Enough-peer d v fuel peer cur enough f)
                    (Cause-peer d v peer cur ev true true c f up) in
                (s, rw (why_true_step, trues, alone, no_false) e, Steps-lower ev peer cur s steps f)
          ]
        ]
      ]

  pub step_lem :
      (fuel cur ev : ℕ) (flag : Bool)
      → Enough d v fuel cur
      → Cause d v ev cur flag
      → (s : WhyStep) × ((if flag then why_true_step d fuel cur else why_false_step d fuel cur)
          ≡ some s)
        × Steps d v ev cur s
  step_lem fuel cur ev true enough c = why_true_step_lem fuel cur ev enough c
  step_lem fuel cur ev false enough c = why_false_step_lem d v fuel cur ev enough c
