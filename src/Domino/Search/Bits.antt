-- ===== src/Domino/Search/Bits.antt =====
-- The marks of the search of `setPrev` in domino/Domino.cpp, and what one event's successors change.
use domino_library.Prelude.{
  ℕ, zero, suc, ◌+◌, ◌≡◌, ◌≤◌, ◌<◌, refl, ◌∙◌, ap, Bool, true, false, not, ◌&&◌, ◌||◌, List, [],
  ◌∷◌, arith, elem, length, Bool-cases, inl, inr, ◌==◌, get_or, set, length-set, get_or-set_self,
  get_or-set_ne,
}
use domino_library.Domino.Links.{Branches}
use domino_library.Domino.Ops.{mark_all}

abbrev pub marked : List Bool → ℕ → Bool
marked nextable v = get_or nextable v false

-- The bits that are still unset
abbrev pub unmarked : List Bool → ℕ
unmarked [] = 0
unmarked (false ∷ bs) = suc (unmarked bs)
unmarked (true ∷ bs) = unmarked bs

pub marked-set :
    (bs : List Bool) (i v : ℕ)
    → i < length bs
    → marked (set bs i true) v ≡ ((i == v) || marked bs v)
marked-set bs i v h =
    ground (arith, get_or-set_self bs i true false, get_or-set_ne bs i v true false)

pub unmarked-set :
    (bs : List Bool) (i : ℕ)
    → i < length bs
    → marked bs i ≡ false
    → suc (unmarked (set bs i true)) ≡ unmarked bs
unmarked-set [] i h e = absurd (omega arith)
unmarked-set (b ∷ bs) zero h e = rw e
unmarked-set (false ∷ bs) (suc i) h e = ap suc (unmarked-set bs i (omega arith) e)
unmarked-set (true ∷ bs) (suc i) h e = unmarked-set bs i (omega arith) e

pub unmarked_le : (bs : List Bool) → unmarked bs ≤ length bs
unmarked_le [] = omega arith
unmarked_le (false ∷ bs) = omega (arith, unmarked_le bs)
unmarked_le (true ∷ bs) = omega (arith, unmarked_le bs)

-- An item of the list lies below `n`.
abbrev pub Below : ℕ → List ℕ → Type 0
Below n evs = (e : ℕ) → elem e evs ≡ true → e < n

-- What one pass over the successors `evs` does to the bits and to the stack
pub record Marked (evs : List ℕ) (bs bs' : List Bool) (stack stack' : List ℕ) : Type 0 where
  pub sized : length bs' ≡ length bs
  pub work : unmarked bs' + length stack' ≡ unmarked bs + length stack
  pub bits : (v : ℕ) → marked bs' v ≡ (elem v evs || marked bs v)
  pub pushed : (v : ℕ) → elem v stack' ≡ ((elem v evs && not (marked bs v)) || elem v stack)

Marked-old :
    (x : ℕ) (evs : List ℕ) (bs bs' : List Bool) (stack stack' : List ℕ)
    → marked bs x ≡ true
    → Marked evs bs bs' stack stack'
    → Marked (x ∷ evs) bs bs' stack stack'
Marked-old x evs bs bs' stack stack' old r = record {
  sized = r.sized;
  work = r.work;
  bits = λ v. ground (arith, r.bits v);
  pushed = λ v. ground (arith, r.pushed v);
}

Marked-new :
    (x : ℕ) (evs : List ℕ) (bs bs' : List Bool) (stack stack' : List ℕ)
    → marked bs x ≡ false
    → x < length bs
    → Marked evs (set bs x true) bs' (x ∷ stack) stack'
    → Marked (x ∷ evs) bs bs' stack stack'
Marked-new x evs bs bs' stack stack' new h r = record {
  sized = r.sized ∙ length-set bs x true;
  work = omega (arith, r.work, unmarked-set bs x h new);
  bits = λ v. ground (arith, r.bits v, marked-set bs x v h);
  pushed = λ v. ground (arith, r.pushed v, marked-set bs x v h);
}

module _ (next : Branches) where
  pub mark_all-Marked :
      (evs : List ℕ) (bs : List Bool) (stack : List ℕ)
      → Below (length bs) evs
      → Marked evs bs (mark_all next evs bs stack).0 stack (mark_all next evs bs stack).1
  unfolding mark_all
  mark_all-Marked [] bs stack h = record {
    sized = refl;
    work = refl;
    bits = λ v. refl;
    pushed = λ v. refl;
  }
  mark_all-Marked (x ∷ evs) bs stack h = elim (Bool-cases (marked bs x)) [
    | inl old ↦
        rw (old, mark_all)
          (Marked-old x evs bs _ stack _ old
            (mark_all-Marked evs bs stack (λ e i. h e (ground arith))))
    | inr new ↦
        rw (new, mark_all)
          (Marked-new x evs bs _ stack _ new (h x (ground arith)) (
            mark_all-Marked evs (set bs x true) (x ∷ stack)
              (λ e i. rw (length-set bs x true) (h e (ground arith)))))
  ]
