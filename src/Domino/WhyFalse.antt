-- ===== src/Domino/WhyFalse.antt =====
-- `whyFalse` of domino/Domino.cpp: the search for the event that keeps another down. `fuel` bounds the
-- rounds of each of its loops; `none` means that it ran out.
pub mod Peers
pub mod Down
pub mod Steps
pub mod Cause
use domino_library.Prelude.{
  ℕ, zero, suc, Bool, true, false, List, [], ◌∷◌, Option, none, some, if◌then◌else◌, ◌==◌, ◌>>=◌,
  eqb,
}
use domino_library.Domino.Links.{branch, find_peer_evs}
use domino_library.Domino.Marks.{state}
use domino_library.Domino.State.{Domino, is_removed}

-- WhyStep: `result` is an event and the state that it is in, which the code writes as one string.
pub record WhyStep : Type 0 where
  pub cur_ev : ℕ
  pub why_flag : Bool
  pub result : Option (ℕ × Bool)

-- The step that ends the search at `cur_ev`, and one that goes on
abbrev pub ends_at : ℕ → Bool → ℕ × Bool → WhyStep
ends_at cur_ev why_flag found = record { cur_ev = cur_ev; why_flag = why_flag; result = some found }

abbrev pub goes_on : ℕ → Bool → WhyStep
goes_on cur_ev why_flag = record { cur_ev = cur_ev; why_flag = why_flag; result = none }

module _ (d : Domino) where
  -- `find_if`: the first event with this state
  unfoldable pub find_state : Bool → List ℕ → Option ℕ
  find_state b [] = none
  find_state b (ev ∷ evs) = if eqb (state d.marks ev) b then some ev else find_state b evs

  -- The first loop of `whyFalse_`: along predecessors for true that are down
  unfoldable pub false_root : ℕ → ℕ → Option ℕ
  unfolding find_state
  false_root zero ev = none
  false_root (suc fuel) ev = elim (find_state false (find_peer_evs ev d.prev.on_true)) [
    | none ↦ some ev
    | some peer ↦ false_root fuel peer
  ]

  -- `whyFalse_`
  unfoldable pub why_false_step : ℕ → ℕ → Option WhyStep
  unfolding false_root
  why_false_step fuel ev = false_root fuel ev >>= λ root.
      if root == ev
      then elim (find_state true (find_peer_evs ev d.prev.on_false)) [
        | none ↦ some (ends_at ev false (ev, false))
        | some peer ↦ some (goes_on peer true)
      ]
      else some (ends_at ev false (root, false))

  -- `whyTrue_`
  unfoldable pub why_true_step : ℕ → ℕ → Option WhyStep
  why_true_step zero ev = none
  why_true_step (suc fuel) ev = elim (find_peer_evs ev d.prev.on_true) [
    | [] ↦ elim (find_peer_evs ev d.prev.on_false) [
      | [] ↦ some (ends_at ev true (ev, true))
      | peer ∷ peers ↦ elim peers [
        | [] ↦ some (goes_on peer false)
        | _ ∷ _ ↦ some (ends_at ev true (ev, true))
      ]
    ]
    | peer ∷ peers ↦ elim peers [
      | _ ∷ _ ↦ some (ends_at ev true (ev, true))
      | [] ↦ elim (find_peer_evs ev d.prev.on_false) [
        | [] ↦ why_true_step fuel peer
        | _ ∷ _ ↦ some (ends_at ev true (ev, true))
      ]
    ]
  ]

  -- The loop of `whyFalse`
  unfoldable pub why_loop : (fuel rounds : ℕ) → WhyStep → Option (ℕ × Bool)
  unfolding why_false_step why_true_step
  why_loop fuel zero step = step.result
  why_loop fuel (suc rounds) step = elim step.result [
    | some found ↦ some found
    | none ↦
        (if step.why_flag then why_true_step fuel step.cur_ev else why_false_step fuel step.cur_ev)
        >>= why_loop fuel rounds
  ]

  -- The inner `none` is the answer that nothing was found.
  unfoldable pub why_false : ℕ → ℕ → Option (Option (ℕ × Bool))
  unfolding is_removed why_loop
  why_false fuel ev =
      if is_removed d ev
      then some none
      else if state d.marks ev
      then some none
      else why_loop fuel fuel (goes_on ev false) >>= λ found. some (some found)
