-- ===== src/HdlrDomino/Tables.antt =====
-- A handler is in a table of domino/HdlrDomino.hpp or domino/MultiHdlrDomino.hpp exactly if some event
-- owns it.
use domino_library.Prelude.{
  ℕ, zero, suc, ◌≡◌, inl, inr, true, String, List, [], ◌∷◌, Option, none, arith, elem, elem-append,
  get_or, Bool-cases,
}
use domino_library.HdlrDomino.State.{
  Shared, HdlrDomino, hdlr_of, multi_of, ids_of, single_id, own, held, held_multi, in_table,
}

module _ {ℓ} {C : Type ℓ} where
  held-slot :
      (id : ℕ) (os : List (Option (Shared C)))
      → held id os ≡ true
      → (ev : ℕ) × (elem id (single_id (get_or os ev none)) ≡ true)
  unfolding held single_id
  held-slot id [] h = absurd (ground arith)
  held-slot id (o ∷ os) h = elim (Bool-cases (elem id (single_id o))) [
    | inl here ↦ (0, here)
    | inr other ↦ let (ev, e) = held-slot id os (ground arith) in (suc ev, e)
  ]

  slot-held :
      (id ev : ℕ) (os : List (Option (Shared C)))
      → elem id (single_id (get_or os ev none)) ≡ true
      → held id os ≡ true
  unfolding held single_id
  slot-held id ev [] h = absurd (ground arith)
  slot-held id zero (o ∷ os) h = ground arith
  slot-held id (suc ev) (o ∷ os) h = ground (arith, slot-held id ev os h)

  held_multi-slot :
      (id : ℕ) (rows : List (List (String × Shared C)))
      → held_multi id rows ≡ true
      → (ev : ℕ) × (elem id (ids_of (get_or rows ev [])) ≡ true)
  unfolding held_multi ids_of
  held_multi-slot id [] h = absurd (ground arith)
  held_multi-slot id (hs ∷ rows) h = elim (Bool-cases (elem id (ids_of hs))) [
    | inl here ↦ (0, here)
    | inr other ↦ let (ev, e) = held_multi-slot id rows (ground arith) in (suc ev, e)
  ]

  slot-held_multi :
      (id ev : ℕ) (rows : List (List (String × Shared C)))
      → elem id (ids_of (get_or rows ev [])) ≡ true
      → held_multi id rows ≡ true
  unfolding held_multi ids_of
  slot-held_multi id ev [] h = absurd (ground arith)
  slot-held_multi id zero (hs ∷ rows) h = ground arith
  slot-held_multi id (suc ev) (hs ∷ rows) h = ground (arith, slot-held_multi id ev rows h)

  -- A handler can be locked exactly if some event owns it.
  pub in_table-own :
      (t : HdlrDomino C) (id : ℕ) → in_table t id ≡ true → (ev : ℕ) × (elem id (own t ev) ≡ true)
  unfolding in_table own
  in_table-own t id h = elim (Bool-cases (held id t.hdlrs)) [
    | inl single ↦
        let (ev, e) = held-slot id t.hdlrs single in
        (ev, ground (arith, elem-append id (single_id (hdlr_of t ev)) (ids_of (multi_of t ev))))
    | inr other ↦
        let (ev, e) = held_multi-slot id t.multi (ground arith) in
        (ev, ground (arith, elem-append id (single_id (hdlr_of t ev)) (ids_of (multi_of t ev))))
  ]

  pub own-in_table :
      (t : HdlrDomino C) (id ev : ℕ) → elem id (own t ev) ≡ true → in_table t id ≡ true
  unfolding in_table own
  own-in_table t id ev h = ground (
    arith,
    elem-append id (single_id (hdlr_of t ev)) (ids_of (multi_of t ev)),
    slot-held id ev t.hdlrs,
    slot-held_multi id ev t.multi,
  )
