-- ===== src/Domino/Deduce/Rule.antt =====
-- The invariant rule for the loop of `deduceStateFrom_`, and for calls of it one after another.
use domino_library.Prelude.{
  ℕ, zero, suc, ◌≡◌, refl, subst, some-injective, List, [], ◌∷◌, ◌++◌, some, arith, >>=-eq-some,
  Bool-cases, inl, inr,
}
use domino_library.Domino.Links.{Branches, find_peer_evs}
use domino_library.Domino.Marks.{
  Marks, pure_set_state_ok, deduced, push_all, push_nexts, deduce_round, deduce_loop,
  deduce_state_from, deduce_each,
}

push_all-append :
    (evs stack rest : List ℕ) → push_all evs (stack ++ rest) ≡ push_all evs stack ++ rest
unfolding push_all
push_all-append [] stack rest = refl
push_all-append (x ∷ evs) stack rest = push_all-append evs (x ∷ stack) rest

module _ (prev next : Branches) where
  -- What lies under the stack is not touched.
  deduce_round-append :
      (m : Marks) (c : ℕ) (stack rest : List ℕ)
      → deduce_round prev next m c (stack ++ rest)
        ≡ ((deduce_round prev next m c stack).0, (deduce_round prev next m c stack).1 ++ rest)
  unfolding deduce_round push_nexts
  deduce_round-append m c stack rest =
      elim (Bool-cases (pure_set_state_ok m c (deduced prev next m c)).1) [
        | inl e ↦ rw (e) (
            rw (push_all-append (find_peer_evs c next.on_true) stack rest) (
              rw
                (push_all-append (find_peer_evs c next.on_false)
                  (push_all (find_peer_evs c next.on_true) stack) rest)
                refl))
        | inr e ↦ rw (e) refl
      ]

  module _ {ℓ} (P : Marks → List ℕ → Type ℓ)
      (keep : (m : Marks) (c : ℕ) (stack : List ℕ)
        → P m (c ∷ stack)
        → P (deduce_round prev next m c stack).0 (deduce_round prev next m c stack).1) where
    keep-append :
        (m : Marks) (c : ℕ) (stack rest : List ℕ)
        → P m (c ∷ (stack ++ rest))
        → P (deduce_round prev next m c stack).0 ((deduce_round prev next m c stack).1 ++ rest)
    keep-append m c stack rest p =
        subst (λ q. P q.0 q.1) (deduce_round-append m c stack rest) (keep m c (stack ++ rest) p)

    deduce_loop_rule :
        (fuel : ℕ) (m m' : Marks) (stack rest : List ℕ)
        → P m (stack ++ rest)
        → deduce_loop prev next fuel m stack ≡ some m'
        → P m' rest
    unfolding deduce_loop
    deduce_loop_rule fuel m m' [] rest p e = subst (λ x. P x rest) (some-injective m m' e) p
    deduce_loop_rule zero m m' (c ∷ stack) rest p e = ground arith
    deduce_loop_rule (suc fuel) m m' (c ∷ stack) rest p e =
        let r = deduce_round prev next m c stack in
        deduce_loop_rule fuel r.0 m' r.1 rest (keep-append m c stack rest p) e

    deduce_state_from_rule :
        (fuel : ℕ) (m m' : Marks) (ev : ℕ) (rest : List ℕ)
        → P m (ev ∷ rest)
        → deduce_state_from prev next fuel m ev ≡ some m'
        → P m' rest
    unfolding deduce_state_from
    deduce_state_from_rule fuel m m' ev rest p e = deduce_loop_rule fuel m m' (ev ∷ []) rest p e

    pub deduce_each_rule :
        (fuel : ℕ) (m m' : Marks) (evs : List ℕ)
        → P m evs
        → deduce_each prev next fuel m evs ≡ some m'
        → P m' []
    unfolding deduce_each
    deduce_each_rule fuel m m' [] p e = subst (λ x. P x []) (some-injective m m' e) p
    deduce_each_rule fuel m m' (ev ∷ evs) p e =
        let (m₁, first, later) = >>=-eq-some (deduce_state_from prev next fuel m ev) _ e in
        deduce_each_rule fuel m₁ m' evs (deduce_state_from_rule fuel m m₁ ev evs p first) later
