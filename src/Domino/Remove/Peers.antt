-- ===== src/Domino/Remove/Peers.antt =====
-- The list of peers without one of them (`pureRmLink_` of domino/Domino.cpp).
use domino_library.Prelude.{
  ℕ, ◌≡◌, refl, true, false, not, ◌&&◌, ◌||◌, List, [], ◌∷◌, arith, elem, Distinct, ◌==◌,
  Bool-cases, inl, inr,
}
use domino_library.Domino.Remove.{last_of, but_last, move_last, swap_erase, drop_peer}

elem-last :
    (a x : ℕ) (xs : List ℕ)
    → ((a == last_of x xs) || elem a (but_last x xs)) ≡ ((a == x) || elem a xs)
unfolding last_of but_last
elem-last a x [] = refl
elem-last a x (y ∷ ys) = ground (arith, elem-last a y ys)

Distinct-last :
    (x : ℕ) (xs : List ℕ)
    → elem x xs ≡ false
    → Distinct xs
    → (elem (last_of x xs) (but_last x xs) ≡ false) × Distinct (but_last x xs)
unfolding last_of but_last
Distinct-last x [] out h = (refl, tt)
Distinct-last x (y ∷ ys) out h =
    let (last, rest) = Distinct-last y ys h.0 h.1 in
    (ground (arith, last, elem-last (last_of y ys) y ys), (ground (arith, elem-last x y ys), rest))

elem-move_last : (a : ℕ) (xs : List ℕ) → elem a (move_last xs) ≡ elem a xs
unfolding move_last
elem-move_last a [] = refl
elem-move_last a (x ∷ xs) = elem-last a x xs

Distinct-move_last : (xs : List ℕ) → Distinct xs → Distinct (move_last xs)
unfolding move_last
Distinct-move_last [] h = tt
Distinct-move_last (x ∷ xs) h = Distinct-last x xs h.0 h.1

elem-swap_erase :
    (ev a : ℕ) (xs : List ℕ)
    → Distinct xs
    → elem a (swap_erase ev xs) ≡ (elem a xs && not (ev == a))
unfolding swap_erase
elem-swap_erase ev a [] h = refl
elem-swap_erase ev a (x ∷ xs) h =
    ground (arith, elem-move_last a xs, h.0, elem-swap_erase ev a xs h.1)

Distinct-swap_erase : (ev : ℕ) (xs : List ℕ) → Distinct xs → Distinct (swap_erase ev xs)
unfolding swap_erase
Distinct-swap_erase ev [] h = tt
Distinct-swap_erase ev (x ∷ xs) h = elim (Bool-cases (ev == x)) [
  | inl same ↦ rw same (Distinct-move_last xs h.1)
  | inr other ↦
      rw other (ground (arith, elem-swap_erase ev x xs h.1, h.0), Distinct-swap_erase ev xs h.1)
]

-- `ev` is gone, and no other peer.
pub elem-drop_peer :
    (ev a : ℕ) (xs : List ℕ)
    → Distinct xs
    → elem ev xs ≡ true
    → elem a (drop_peer ev xs) ≡ (elem a xs && not (ev == a))
unfolding drop_peer
elem-drop_peer ev a [] h i = refl
elem-drop_peer ev a (x ∷ []) h i = ground arith
elem-drop_peer ev a (x ∷ y ∷ ys) h i = elem-swap_erase ev a (x ∷ y ∷ ys) h

pub Distinct-drop_peer : (ev : ℕ) (xs : List ℕ) → Distinct xs → Distinct (drop_peer ev xs)
unfolding drop_peer
Distinct-drop_peer ev [] h = tt
Distinct-drop_peer ev (x ∷ []) h = tt
Distinct-drop_peer ev (x ∷ y ∷ ys) h = Distinct-swap_erase ev (x ∷ y ∷ ys) h
