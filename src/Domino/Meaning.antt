-- ===== src/Domino/Meaning.antt =====
-- What the states and the links of a domino mean (domino/Domino.hpp).
use domino_library.Prelude.{
  ℕ, zero, suc, ◌≡◌, ◌<◌, refl, ◌↔◌, ◌∙◌, max, ap, sym, inl, inr, Bool, true, false, List, [], ◌∷◌,
  arith, elem, Bool-cases, ltb,
}
use domino_library.Domino.Links.{Branches, find_peer_evs}
use domino_library.Domino.Marks.{Marks, state, all_have, deduced, deduce_state_self}

-- Each of these events is in this state.
abbrev pub AllAre : Bool → Marks → List ℕ → Type 0
AllAre b m evs = (p : ℕ) → elem p evs ≡ true → state m p ≡ b

-- All predecessors for true are up, and all for false are down.
abbrev pub Supported : Branches → Marks → ℕ → Type 0
Supported prev m e =
    AllAre true m (find_peer_evs e prev.on_true) × AllAre false m (find_peer_evs e prev.on_false)

all_have_lem : (b : Bool) (m : Marks) (evs : List ℕ) → (all_have b m evs ≡ true) ↔ AllAre b m evs
unfolding all_have
all_have_lem b m [] = (λ h p i. ground arith, λ h. refl)
all_have_lem b m (x ∷ evs) =
    let ih = all_have_lem b m evs in
    (
      λ h p i. elim (Bool-cases (elem p evs)) [
        | inl later ↦ ih.0 (ground arith) p later
        | inr out ↦ let here : x ≡ p = ground arith in ap (state m) (sym here) ∙ ground arith
      ],
      λ h.
          let mine = h x (ground arith) in
          let rest = ih.1 (λ p i. h p (ground arith)) in ground arith,
    )

-- What `deduced` decides
pub deduced_lem :
    (prev next : Branches) (m : Marks) (e : ℕ) → (deduced prev next m e ≡ true) ↔ Supported prev m e
unfolding deduced deduce_state_self
deduced_lem prev next m e =
    let trues = all_have_lem true m (find_peer_evs e prev.on_true) in
    let falses = all_have_lem false m (find_peer_evs e prev.on_false) in
    (
      λ h. (trues.0 (ground arith), falses.0 (ground arith)),
      λ h. let t = trues.1 h.0 in let f = falses.1 h.1 in ground arith,
    )

-- A bound on the rank of the events below `n`
pub top : (ℕ → ℕ) → ℕ → ℕ
top rank zero = 0
top rank (suc n) = max (suc (rank n)) (top rank n)

pub lt-top : (rank : ℕ → ℕ) (n e : ℕ) → e < n → rank e < top rank n
unfolding top
lt-top rank zero e h = absurd (omega arith)
lt-top rank (suc n) e h = elim (Bool-cases (ltb e n)) [
  | inl below ↦ let ih = lt-top rank n e (ground arith) in omega arith
  | inr last ↦ let same : e ≡ n = ground arith in rw same (omega arith)
]
