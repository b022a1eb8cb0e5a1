-- ===== src/HdlrDomino/Slots.antt =====
-- Handlers that leave the tables of domino/HdlrDomino.hpp and domino/MultiHdlrDomino.hpp, and new ones.
use domino_library.Prelude.{
  ℕ, suc, ◌≡◌, ◌≤◌, ◌⊎◌, refl, sym, ◌∙◌, ap, inl, inr, true, false, ◌&&◌, ◌||◌, String, List, [],
  ◌∷◌, ◌++◌, Option, none, some, if◌then◌else◌, ◌==◌, arith, elem, elem-append, Distinct, get_or,
  put, get_or-put, Bool-cases, erase, string_eq,
}
use domino_library.HdlrDomino.State.{Shared, HdlrDomino, hdlr_of, multi_of, ids_of, single_id, own}
use domino_library.HdlrDomino.Hdlr.{erase_shared}
use domino_library.HdlrDomino.Own.{Kept, Kept-shrink, Kept-grow}

module _ {ℓ} {C : Type ℓ} where
  -- Some of the handlers `old`
  pub record IsPart (hs old : List (String × Shared C)) : Type ℓ where
    pub less : (id : ℕ) → elem id (ids_of hs) ≡ true → elem id (ids_of old) ≡ true
    pub apart : Distinct (ids_of old) → Distinct (ids_of hs)

  pub IsPart-refl : (hs : List (String × Shared C)) → IsPart hs hs
  IsPart-refl hs = record { less = λ id i. i; apart = λ d. d }

  pub IsPart-nil : (hs : List (String × Shared C)) → IsPart [] hs
  unfolding ids_of
  IsPart-nil hs = record { less = λ id i. absurd (ground arith); apart = λ d. tt }

  IsPart-cons :
      (name : String) (h : Shared C) (hs old : List (String × Shared C))
      → IsPart hs old
      → IsPart ((name, h) ∷ hs) ((name, h) ∷ old)
  unfolding ids_of
  IsPart-cons name h hs old p = record {
    less = λ id i. ground (arith, p.less id);
    apart = λ d. (
      elim (Bool-cases (elem h.id (ids_of hs))) [
        | inl i ↦ ground (arith, p.less h.id i, d.0)
        | inr out ↦ out
      ],
      p.apart d.1,
    );
  }

  IsPart-skip :
      (name : String) (h : Shared C) (hs old : List (String × Shared C))
      → IsPart hs old
      → IsPart hs ((name, h) ∷ old)
  unfolding ids_of
  IsPart-skip name h hs old p = record {
    less = λ id i. ground (arith, p.less id i);
    apart = λ d. p.apart d.1;
  }

  pub erase-IsPart : (name : String) (hs : List (String × Shared C)) → IsPart (erase name hs) hs
  unfolding erase
  erase-IsPart name [] = IsPart-refl []
  erase-IsPart name ((j, h) ∷ hs) = elim (Bool-cases (string_eq.beq j name)) [
    | inl same ↦ rw same (IsPart-skip j h (erase name hs) hs (erase-IsPart name hs))
    | inr other ↦ rw other (IsPart-cons j h (erase name hs) hs (erase-IsPart name hs))
  ]

  pub erase_shared-IsPart :
      (id : ℕ) (hs : List (String × Shared C)) → IsPart (erase_shared id hs).0 hs
  unfolding erase_shared
  erase_shared-IsPart id [] = IsPart-refl []
  erase_shared-IsPart id ((j, h) ∷ hs) = elim (Bool-cases (h.id == id)) [
    | inl same ↦ rw same (IsPart-skip j h hs hs (IsPart-refl hs))
    | inr other ↦ rw other (IsPart-cons j h (erase_shared id hs).0 hs (erase_shared-IsPart id hs))
  ]

  part-Distinct :
      (o : Option (Shared C)) (hs old : List (String × Shared C))
      → IsPart hs old
      → Distinct (single_id o ++ ids_of old)
      → Distinct (single_id o ++ ids_of hs)
  unfolding single_id
  part-Distinct none hs old p d = p.apart d
  part-Distinct (some h) hs old p d = (
    elim (Bool-cases (elem h.id (ids_of hs))) [
      | inl i ↦ ground (arith, p.less h.id i, d.0)
      | inr out ↦ out
    ],
    p.apart d.1,
  )

  single-Distinct :
      (o : Option (Shared C)) (xs : List ℕ) → Distinct (single_id o ++ xs) → Distinct xs
  unfolding single_id
  single-Distinct none xs d = d
  single-Distinct (some h) xs d = d.1

  -- Handlers leave their slots, and no other comes.
  pub slots-Kept :
      (t t' : HdlrDomino C)
      → t.next_id ≤ t'.next_id
      → t'.running ≡ t.running
      → ((u : ℕ) → (hdlr_of t' u ≡ hdlr_of t u) ⊎ (hdlr_of t' u ≡ none))
      → ((u : ℕ) → IsPart (multi_of t' u) (multi_of t u))
      → Kept t t'
  unfolding own
  slots-Kept t t' grows runs single rows = Kept-shrink t t' grows runs less apart
    where
      less : (ev id : ℕ) → elem id (own t' ev) ≡ true → elem id (own t ev) ≡ true
      less ev id i =
          let old = elem-append id (single_id (hdlr_of t ev)) (ids_of (multi_of t ev)) in
          let new = elem-append id (single_id (hdlr_of t' ev)) (ids_of (multi_of t' ev)) in
          elim (single ev) [
            | inl kept ↦
                let e = ap (λ o. elem id (single_id o)) kept in
                ground (arith, old, new, e, (rows ev).less id)
            | inr gone ↦
                let e : elem id (single_id (hdlr_of t' ev)) ≡ false =
                  rw gone (unfold single_id in refl) in
                ground (arith, old, new, e, (rows ev).less id)
          ]

      apart : (ev : ℕ) → Distinct (own t ev) → Distinct (own t' ev)
      apart ev d =
          let part = part-Distinct (hdlr_of t ev) (multi_of t' ev) (multi_of t ev) (rows ev) d in
          elim (single ev) [
            | inl kept ↦ rw kept part
            | inr gone ↦
                rw gone (
                  unfold single_id in single-Distinct (hdlr_of t ev) (ids_of (multi_of t' ev)) part)
          ]

  -- A new handler in the free slot of `ev`
  pub single-Kept :
      (t t' : HdlrDomino C) (ev : ℕ) (cb : C)
      → hdlr_of t ev ≡ none
      → t'.next_id ≡ suc t.next_id
      → t'.multi ≡ t.multi
      → t'.hdlrs ≡ put none t.hdlrs ev (some (record { id = t.next_id; cb = cb }))
      → t'.running ≡ t.running
      → Kept t t'
  unfolding own single_id
  single-Kept t t' ev cb free next rows slots runs = Kept-grow t t' ev next runs new apart
    where
      slot :
          (u : ℕ)
          → hdlr_of t' u
            ≡ (if ev == u then some (record { id = t.next_id; cb = cb }) else hdlr_of t u)
      slot u =
          ap (λ s. get_or s u none) slots
          ∙ get_or-put none t.hdlrs ev u (some (record { id = t.next_id; cb = cb }))

      row : (u : ℕ) → multi_of t' u ≡ multi_of t u
      row u = ap (λ m. get_or m u []) rows

      new :
          (u id : ℕ) → elem id (own t' u) ≡ (((ev == u) && (t.next_id == id)) || elem id (own t u))
      new u id = elim (Bool-cases (ev == u)) [
        | inl same ↦
            let here : ev ≡ u = ground arith in
            let was : hdlr_of t u ≡ none = ap (hdlr_of t) (sym here) ∙ free in
            rw (slot u, row u, same) (rw was (ground arith))
        | inr other ↦ rw (slot u, row u, other) refl
      ]

      apart : (u : ℕ) → elem t.next_id (own t u) ≡ false → Distinct (own t u) → Distinct (own t' u)
      apart u out d = elim (Bool-cases (ev == u)) [
        | inl same ↦
            let here : ev ≡ u = ground arith in
            let was : hdlr_of t u ≡ none = ap (hdlr_of t) (sym here) ∙ free in
            rw (slot u, row u, same) (rw was at out, rw was at d)
        | inr other ↦ rw (slot u, row u, other) d
      ]
