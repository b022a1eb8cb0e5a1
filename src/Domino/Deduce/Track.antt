-- ===== src/Domino/Deduce/Track.antt =====
-- What a deduction from a list of events keeps and achieves.
use domino_library.Prelude.{
  ℕ, ◌≡◌, ◌<◌, ◌∙◌, Bool, true, false, List, [], ◌∷◌, some, arith, elem, elem-append, length, ◌⊎◌,
}
use domino_library.Domino.Links.{
  Branches, branch, find_peer_evs, Mutual, Falls, Falls-irrefl, Within,
}
use domino_library.Domino.Marks.{
  Marks, state, pure_set_state_ok, deduced, push_all, push_nexts, deduce_round, deduce_each,
}
use domino_library.Domino.Deduce.Round.{state-pure_set_ne, length-pure_set, elem-push_all}
use domino_library.Domino.Deduce.Settle.{SettledBut, settle_round}
use domino_library.Domino.Deduce.Rule.{deduce_each_rule}

-- Each event that came up since `m₀` waits for its effect.
abbrev pub Raised : Marks → Marks → Type 0
Raised m₀ m = (e : ℕ) → state m₀ e ≡ false → state m e ≡ true → elem e m.effect_evs ≡ true

pub pure_set-Raised :
    (m₀ m : Marks) (c : ℕ) (s : Bool) → Raised m₀ m → Raised m₀ (pure_set_state_ok m c s).0
unfolding pure_set_state_ok
pure_set-Raised m₀ m c s raised e down up =
    ground (arith, raised e, elem-append e m.effect_evs (c ∷ []), state-pure_set_ne m c s e)

module _ (prev next : Branches) where
  elem-left :
      (m : Marks) (c e : ℕ) (stack : List ℕ)
      → elem e (deduce_round prev next m c stack).1 ≡ true
      → (elem e stack ≡ true)
        ⊎ (elem e (find_peer_evs c (branch true next)) ≡ true)
        ⊎ (elem e (find_peer_evs c (branch false next)) ≡ true)
  unfolding deduce_round push_nexts
  elem-left m c e stack h = ground (
    arith,
    elem-push_all e (find_peer_evs c next.on_false) (push_all (find_peer_evs c next.on_true) stack),
    elem-push_all e (find_peer_evs c next.on_true) stack,
  )

  module _ (n : ℕ) (must : ℕ → Bool) where
    pub record Progress (m : Marks) (todo : List ℕ) : Type 0 where
      pub sized : length m.states ≡ n
      pub within : (e : ℕ) → elem e todo ≡ true → e < n
      pub settled : SettledBut prev next must m todo

    module _ (rank : ℕ → ℕ) (both : Mutual prev next) (falls : Falls rank next)
        (inside : Within n next) where
      Progress-round :
          (m : Marks) (c : ℕ) (stack : List ℕ)
          → Progress m (c ∷ stack)
          → Progress (deduce_round prev next m c stack).0 (deduce_round prev next m c stack).1
      unfolding deduce_round
      Progress-round m c stack p = record {
        sized = length-pure_set m c (deduced prev next m c) ∙ p.sized;
        within = λ e i.
            ground (arith, elem-left m c e stack i, inside true e c, inside false e c, p.within e);
        settled =
            settle_round prev next both m c stack must
              (λ b. Falls-irrefl rank prev next b c both falls)
              (ground (arith, p.within c, p.sized)) p.settled;
      }

      -- When the calls return, all the tiles of `must` agree with their predecessors.
      pub deduce_each-Progress :
          (fuel : ℕ) (m m' : Marks) (evs : List ℕ)
          → Progress m evs
          → deduce_each prev next fuel m evs ≡ some m'
          → Progress m' []
      deduce_each-Progress = deduce_each_rule prev next Progress Progress-round

  pub deduce_each-Raised :
      (m₀ : Marks) (fuel : ℕ) (m m' : Marks) (evs : List ℕ)
      → Raised m₀ m
      → deduce_each prev next fuel m evs ≡ some m'
      → Raised m₀ m'
  unfolding deduce_round
  deduce_each-Raised m₀ = deduce_each_rule prev next (λ m _. Raised m₀ m) keep
    where
      keep :
          (m : Marks) (c : ℕ) (stack : List ℕ)
          → Raised m₀ m
          → Raised m₀ (deduce_round prev next m c stack).0
      keep m c stack = pure_set-Raised m₀ m c (deduced prev next m c)

  -- Only events outside `root` are waiting, and those of `root` are as they were.
  pub record Keeps (root : ℕ → Bool) (m₀ m : Marks) (todo : List ℕ) : Type 0 where
    pub waiting : (e : ℕ) → elem e todo ≡ true → root e ≡ false
    pub same : (e : ℕ) → root e ≡ true → state m e ≡ state m₀ e

  module _ (root : ℕ → Bool)
      (fed : (b : Bool) (u v : ℕ)
        → elem u (find_peer_evs v (branch b next)) ≡ true
        → root u ≡ false)
      (m₀ : Marks) where
    Keeps-round :
        (m : Marks) (c : ℕ) (stack : List ℕ)
        → Keeps root m₀ m (c ∷ stack)
        → Keeps root m₀ (deduce_round prev next m c stack).0 (deduce_round prev next m c stack).1
    unfolding deduce_round
    Keeps-round m c stack k = record {
      waiting =
          λ e i. ground (arith, elem-left m c e stack i, fed true e c, fed false e c, k.waiting e);
      same = λ e r.
          state-pure_set_ne m c (deduced prev next m c) e (ground (arith, k.waiting c))
          ∙ k.same e r;
    }

    pub deduce_each-Keeps :
        (fuel : ℕ) (m m' : Marks) (evs : List ℕ)
        → Keeps root m₀ m evs
        → deduce_each prev next fuel m evs ≡ some m'
        → Keeps root m₀ m' []
    deduce_each-Keeps = deduce_each_rule prev next (Keeps root m₀) Keeps-round
