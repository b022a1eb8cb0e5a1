-- ===== src/Domino/WhyFalse/Down.antt =====
-- The step of `whyFalse` of domino/Domino.cpp from an event that is down: it ends, and stays on the way
-- to the event.
use domino_library.Prelude.{
  ℕ, zero, suc, ◌≡◌, ◌<◌, subst, elem, ◌⊎◌, refl, ◌∙◌, ap, inl, inr, Bool, true, false, none, some,
  ◌==◌, arith, Bool-cases, Option-cases,
}
use domino_library.Domino.Links.{find_peer_evs}
use domino_library.Domino.State.{Domino}
use domino_library.Domino.Inv.{Inv}
use domino_library.Domino.Meaning.{AllAre}
use domino_library.Domino.WhyFalse.{
  WhyStep, ends_at, goes_on, find_state, false_root, why_false_step,
}
use domino_library.Domino.WhyFalse.Peers.{
  bound, Passed, IsRoot, find_state-none, unsupported, feeds, find_state-some, Cause, Enough,
  Enough-peer, Cause-peer,
}

module _ (d : Domino) (v : Inv d) where
  false_root_lem :
      (fuel cur ev : ℕ)
      → Enough d v fuel cur
      → Cause d v ev cur false
      → (root : ℕ) × (false_root d fuel cur ≡ some root)
        × Cause d v ev root false
        × AllAre true d.marks (find_peer_evs root d.prev.on_true)
        × ((root ≡ cur) ⊎ Passed d ev root)
  unfolding false_root Enough Cause
  false_root_lem zero cur ev enough c = absurd (omega (arith, enough.0))
  false_root_lem (suc fuel) cur ev enough c =
      elim (Option-cases (find_state d false (find_peer_evs cur d.prev.on_true))) [
        | inl nothing ↦ (
          cur,
          rw (false_root, nothing) refl,
          c,
          find_state-none d v false (find_peer_evs cur d.prev.on_true) nothing,
          inl refl,
        )
        | inr (peer, found) ↦
            let (i, down) =
              find_state-some d v false (find_peer_evs cur d.prev.on_true) peer found in
            let f = feeds d v true peer cur i in
            let (root, e, c', ups, way) =
              false_root_lem fuel peer ev (Enough-peer d v fuel peer cur enough f)
                (Cause-peer d v peer cur ev false false c f down) in
            (
              root,
              rw (false_root, found) e,
              c',
              ups,
              inr (elim way [
                | inl same ↦
                    (cur, c.0, c.1, ap (λ x. elem x (find_peer_evs cur d.prev.on_true)) same ∙ i)
                | inr passed ↦ passed
              ]),
            )
      ]

  -- A step of the search: it has found a cause, or goes on at an event of a higher rank.
  unfoldable pub Steps : ℕ → ℕ → WhyStep → Type 0
  Steps ev cur s =
      ((e : ℕ) × (b : Bool) × (s.result ≡ some (e, b)) × Cause d v ev e b × IsRoot d ev e b)
      ⊎ ((s.result ≡ none)
          × Cause d v ev s.cur_ev s.why_flag
          × (v.rank cur < v.rank s.cur_ev)
          × (v.rank cur < bound d v))

  pub why_false_step_lem :
      (fuel cur ev : ℕ)
      → Enough d v fuel cur
      → Cause d v ev cur false
      → (s : WhyStep) × (why_false_step d fuel cur ≡ some s) × Steps ev cur s
  unfolding why_false_step Steps Cause
  why_false_step_lem fuel cur ev enough c =
      let (root, e, c', ups, way) = false_root_lem fuel cur ev enough c in
      elim (Bool-cases (root == cur)) [
        | inr other ↦ (
          ends_at cur false (root, false),
          rw (why_false_step, e) (rw other refl),
          inl (
            root,
            false,
            refl,
            c',
            (
              ups,
              inr (elim way [
                | inl stayed ↦ absurd (ground (arith, other, stayed))
                | inr passed ↦ passed
              ]),
            ),
          ),
        )
        | inl same ↦ elim (Option-cases (find_state d true (find_peer_evs cur d.prev.on_false))) [
          | inl nothing ↦ (
            ends_at cur false (cur, false),
            rw (why_false_step, e) (rw (same, nothing) refl),
            inl (
              cur,
              false,
              refl,
              c,
              let here : root ≡ cur = ground arith in
                  let mine =
                    subst (λ x. AllAre true d.marks (find_peer_evs x d.prev.on_true)) here ups in
                  let against =
                    find_state-none d v true (find_peer_evs cur d.prev.on_false) nothing in
                  (mine, inl (unsupported d v cur c.0 (mine, against))),
            ),
          )
          | inr (peer, found) ↦
              let (i, up) =
                find_state-some d v true (find_peer_evs cur d.prev.on_false) peer found in
              let f = feeds d v false peer cur i in
              (
                goes_on peer true,
                rw (why_false_step, e) (rw (same, found) refl),
                inr (refl, Cause-peer d v peer cur ev false true c f up, f.higher, f.limited),
              )
        ]
      ]
