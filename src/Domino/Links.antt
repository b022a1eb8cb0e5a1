-- ===== src/Domino/Links.antt =====
-- The links of domino/Domino.hpp: `prev_` and `next_`, each a vector of peers for either state.
use domino_library.Prelude.{
  ℕ, ◌<◌, ◌≡◌, sym, ◌∙◌, inl, inr, Bool, true, false, not, ◌||◌, List, [], get_or, elem, is_empty,
  Bool-cases, arith,
}

-- [event] = peers
abbrev pub EvLinks : Type 0
EvLinks = List (List ℕ)

-- EvLinks prev_[N_EVENT_STATE], indexed by the state that the link asks for
pub record Branches : Type 0 where
  pub on_true : EvLinks
  pub on_false : EvLinks

-- `links_[state]`
abbrev pub branch : Bool → Branches → EvLinks
branch true l = l.on_true
branch false l = l.on_false

-- `links_[state] = v`
abbrev pub set_branch : Bool → Branches → EvLinks → Branches
set_branch true l v = record l { on_true = v }
set_branch false l v = record l { on_false = v }

-- Out of range there are no peers.
abbrev pub find_peer_evs : ℕ → EvLinks → List ℕ
find_peer_evs ev links = get_or links ev []

-- Each link stands at both of its ends.
abbrev pub Mutual : Branches → Branches → Type 0
Mutual prev next =
    (b : Bool) (u v : ℕ)
    → elem v (find_peer_evs u (branch b prev)) ≡ elem u (find_peer_evs v (branch b next))

-- A rank falls along every link, so no walk returns to where it began.
abbrev pub Falls : (ℕ → ℕ) → Branches → Type 0
Falls rank next =
    (b : Bool) (u v : ℕ) → elem u (find_peer_evs v (branch b next)) ≡ true → rank u < rank v

-- Some event must be up, or down, for `ev` to be up.
abbrev pub has_prev : Branches → ℕ → Bool
has_prev prev ev =
    not (is_empty (find_peer_evs ev prev.on_true))
    || not (is_empty (find_peer_evs ev prev.on_false))

pub Falls-irrefl :
    (rank : ℕ → ℕ) (prev next : Branches) (b : Bool) (u : ℕ)
    → Mutual prev next
    → Falls rank next
    → elem u (find_peer_evs u (branch b prev)) ≡ false
Falls-irrefl rank prev next b u both falls =
    elim (Bool-cases (elem u (find_peer_evs u (branch b prev)))) [
      | inl loop ↦ absurd (omega (arith, falls b u u (sym (both b u u) ∙ loop)))
      | inr none ↦ none
    ]

-- The links lead to events below `n`.
abbrev pub Within : ℕ → Branches → Type 0
Within n next = (b : Bool) (u v : ℕ) → elem u (find_peer_evs v (branch b next)) ≡ true → u < n
