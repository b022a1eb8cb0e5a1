-- ===== src/Domino/Deduce/Ends.antt =====
-- Along links without a cycle the loop ends: some fuel is enough whatever the states are.
use domino_library.Prelude.{
  ℕ, zero, suc, ◌≡◌, ◌≤◌, ◌<◌, refl, max, true, false, List, [], ◌∷◌, some, arith, elem, Bool-cases,
  inl, inr,
}
use domino_library.Domino.Links.{Branches, find_peer_evs, Falls}
use domino_library.Domino.Marks.{
  Marks, pure_set_state_ok, deduced, push_all, push_nexts, deduce_round, deduce_loop,
  deduce_state_from, deduce_each,
}

module _ (prev next : Branches) where
  -- More fuel gives the same result.
  deduce_loop_mono :
      (fuel fuel' : ℕ) (m m' : Marks) (stack : List ℕ)
      → fuel ≤ fuel'
      → deduce_loop prev next fuel m stack ≡ some m'
      → deduce_loop prev next fuel' m stack ≡ some m'
  unfolding deduce_loop
  deduce_loop_mono fuel fuel' m m' [] h e = e
  deduce_loop_mono zero fuel' m m' (c ∷ stack) h e = ground arith
  deduce_loop_mono (suc fuel) zero m m' (c ∷ stack) h e = absurd (omega arith)
  deduce_loop_mono (suc fuel) (suc fuel') m m' (c ∷ stack) h e =
      let r = deduce_round prev next m c stack in
      deduce_loop_mono fuel fuel' r.0 m' r.1 (omega arith) e

  -- `fuel` rounds empty the stack, whatever the states are.
  abbrev Suffices : ℕ → List ℕ → Type 0
  Suffices fuel stack = (m : Marks) → (m' : Marks) × (deduce_loop prev next fuel m stack ≡ some m')

  abbrev Ends : List ℕ → Type 0
  Ends stack = (fuel : ℕ) × Suffices fuel stack

  Suffices-le :
      (fuel fuel' : ℕ) (stack : List ℕ) → fuel ≤ fuel' → Suffices fuel stack → Suffices fuel' stack
  Suffices-le fuel fuel' stack h ends m =
      let (m', e) = ends m in (m', deduce_loop_mono fuel fuel' m m' stack h e)

  Suffices-cons :
      (fuel c : ℕ) (stack : List ℕ)
      → Suffices fuel stack
      → Suffices fuel (push_nexts prev next c stack)
      → Suffices (suc fuel) (c ∷ stack)
  unfolding deduce_loop deduce_round
  Suffices-cons fuel c stack under above m =
      let p = pure_set_state_ok m c (deduced prev next m c) in
      elim (Bool-cases p.1) [
        | inl changed ↦ let (m', e) = above p.0 in (m', rw (changed, deduce_loop) e)
        | inr same ↦ let (m', e) = under p.0 in (m', rw (same, deduce_loop) e)
      ]

  Ends-cons :
      (c : ℕ) (stack : List ℕ) → Ends stack → Ends (push_nexts prev next c stack) → Ends (c ∷ stack)
  Ends-cons c stack (f, under) (g, above) = (
    suc (max f g),
    Suffices-cons (max f g) c stack (Suffices-le f (max f g) stack (omega arith) under)
        (Suffices-le g (max f g) (push_nexts prev next c stack) (omega arith) above),
  )

  -- The loop ends with `ev` on any stack from which it ends.
  abbrev EndsOver : ℕ → Type 0
  EndsOver ev = (stack : List ℕ) → Ends stack → Ends (ev ∷ stack)

  Ends-push_all :
      (evs stack : List ℕ)
      → ((ev : ℕ) → elem ev evs ≡ true → EndsOver ev)
      → Ends stack
      → Ends (push_all evs stack)
  unfolding push_all
  Ends-push_all [] stack over ends = ends
  Ends-push_all (x ∷ evs) stack over ends =
      Ends-push_all evs (x ∷ stack) (λ ev i. over ev (ground arith))
        (over x (ground arith) stack ends)

  module _ (rank : ℕ → ℕ) (falls : Falls rank next) where
    EndsOver-below : (k ev : ℕ) → rank ev < k → EndsOver ev
    unfolding push_nexts
    EndsOver-below zero ev h stack ends = absurd (omega arith)
    EndsOver-below (suc k) ev h stack ends = Ends-cons ev stack ends (
        Ends-push_all (find_peer_evs ev next.on_false)
          (push_all (find_peer_evs ev next.on_true) stack)
          (λ v i. EndsOver-below k v (omega (arith, falls false v ev i)))
          (Ends-push_all (find_peer_evs ev next.on_true) stack
            (λ v i. EndsOver-below k v (omega (arith, falls true v ev i))) ends))

    deduce_state_from_ends :
        (ev : ℕ)
        → (fuel : ℕ) × ((m : Marks)
            → (m' : Marks) × (deduce_state_from prev next fuel m ev ≡ some m'))
    unfolding deduce_state_from deduce_loop
    deduce_state_from_ends ev =
        EndsOver-below (suc (rank ev)) ev (omega arith) [] (0, λ m. (m, refl))

    deduce_state_from_mono :
        (fuel fuel' : ℕ) (m m' : Marks) (ev : ℕ)
        → fuel ≤ fuel'
        → deduce_state_from prev next fuel m ev ≡ some m'
        → deduce_state_from prev next fuel' m ev ≡ some m'
    unfolding deduce_state_from
    deduce_state_from_mono fuel fuel' m m' ev h e = deduce_loop_mono fuel fuel' m m' (ev ∷ []) h e

    -- With enough fuel, and with any more, each of the calls returns.
    pub deduce_each_ends :
        (evs : List ℕ)
        → (enough : ℕ) × ((fuel : ℕ)
            → enough ≤ fuel
            → (m : Marks) → (m' : Marks) × (deduce_each prev next fuel m evs ≡ some m'))
    unfolding deduce_each
    deduce_each_ends [] = (0, λ fuel h m. (m, refl))
    deduce_each_ends (ev ∷ evs) =
        let (f, first) = deduce_state_from_ends ev in
        let (g, later) = deduce_each_ends evs in
        (
          max f g,
          λ fuel h m.
              let (m₁, e₁) = first m in
              let (m₂, e₂) = later fuel (omega arith) m₁ in
              (m₂, rw (deduce_state_from_mono f fuel m m₁ ev (omega arith) e₁) e₂),
        )
