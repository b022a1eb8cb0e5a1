-- ===== src/Domino/Deduce/Settle.antt =====
-- When the stack is empty, every linked tile agrees with its predecessors.
use domino_library.Prelude.{
  ℕ, ◌≡◌, ◌≢◌, ◌<◌, sym, ◌∙◌, ap, inl, inr, Bool, true, false, List, ◌∷◌, arith, elem, length, ◌||◌,
  ◌==◌, Bool-cases,
}
use domino_library.Domino.Links.{Branches, branch, find_peer_evs, Mutual}
use domino_library.Domino.Marks.{
  Marks, state, pure_set_state_ok, deduced, push_all, push_nexts, deduce_round,
}
use domino_library.Domino.Deduce.Round.{
  state-pure_set_ne, state-pure_set_self, pure_set-same, all_have_eq, elem-push_all,
}

module _ (prev next : Branches) where
  -- The state of `ev` is what its predecessors make of it.
  abbrev pub IsSettled : Marks → ℕ → Type 0
  IsSettled m ev = state m ev ≡ deduced prev next m ev

  -- All the tiles of `must` that are not in `todo` are settled.
  abbrev pub SettledBut : (ℕ → Bool) → Marks → List ℕ → Type 0
  SettledBut must m todo = (e : ℕ) → must e ≡ true → elem e todo ≡ false → IsSettled m e

  pub deduced_eq :
      (m m' : Marks) (c e : ℕ)
      → ((v : ℕ) → c ≢ v → state m' v ≡ state m v)
      → ((b : Bool) → elem c (find_peer_evs e (branch b prev)) ≡ false)
      → deduced prev next m' e ≡ deduced prev next m e
  unfolding deduced
  deduced_eq m m' c e same out = ground (
    arith,
    all_have_eq true m m' c (find_peer_evs e (branch true prev)) same (out true),
    all_have_eq false m m' c (find_peer_evs e (branch false prev)) same (out false),
  )

  module _ (both : Mutual prev next) (m : Marks) (c : ℕ) (stack : List ℕ) where
    abbrev after : Marks
    after = (deduce_round prev next m c stack).0

    abbrev left : List ℕ
    left = (deduce_round prev next m c stack).1

    settle_self :
        ((b : Bool) → elem c (find_peer_evs c (branch b prev)) ≡ false)
        → c < length m.states
        → IsSettled after c
    unfolding deduce_round
    settle_self loopless inside =
        state-pure_set_self m c (deduced prev next m c) inside
        ∙ sym (deduced_eq m after c c (state-pure_set_ne m c (deduced prev next m c)) loopless)

    settle_other :
        (e : ℕ)
        → c ≢ e
        → elem e left ≡ false
        → (elem e stack ≡ false → IsSettled m e)
        → IsSettled after e
    unfolding deduce_round push_nexts
    settle_other e ne out before =
        let p = pure_set_state_ok m c (deduced prev next m c) in
        let others = state-pure_set_ne m c (deduced prev next m c) in
        elim (Bool-cases p.1) [
          | inl changed ↦
              let away : (b : Bool) → elem c (find_peer_evs e (branch b prev)) ≡ false = elim [
                | true ↦ ground (arith, both true e c, elem-pushed)
                | false ↦ ground (arith, both false e c, elem-pushed)
              ] in
              others e ne
              ∙ before (ground (arith, elem-pushed))
              ∙ sym (deduced_eq m p.0 c e others away)
          | inr same ↦ ground (arith, pure_set-same m c (deduced prev next m c), before)
        ]
      where
        on : Bool → List ℕ
        on b = find_peer_evs c (branch b next)

        elem-pushed :
            elem e (push_nexts prev next c stack)
            ≡ (elem e (on false) || (elem e (on true) || elem e stack))
        elem-pushed =
            elem-push_all e (on false) (push_all (on true) stack)
            ∙ ap (λ r. elem e (on false) || r) (elem-push_all e (on true) stack)

    pub settle_round :
        (must : ℕ → Bool)
        → ((b : Bool) → elem c (find_peer_evs c (branch b prev)) ≡ false)
        → c < length m.states
        → SettledBut must m (c ∷ stack)
        → SettledBut must after left
    settle_round must loopless inside h e needs out = elim (Bool-cases (c == e)) [
      | inl same ↦ ground (arith, settle_self loopless inside)
      | inr other ↦ settle_other e (ground arith) out (λ o. h e needs (ground arith))
    ]
