-- ===== src/HdlrDomino/Own.antt =====
-- Which handlers the tables of domino/HdlrDomino.hpp and domino/MultiHdlrDomino.hpp own.
use domino_library.Prelude.{
  ℕ, suc, ◌≡◌, ◌<◌, ◌≤◌, refl, sym, ◌∙◌, ap, subst, inl, inr, true, false, ◌&&◌, ◌||◌, [], ◌++◌,
  none, if◌then◌else◌, ◌==◌, arith, elem, Distinct, get_or, Bool-cases,
}
use domino_library.Domino.State.{Domino}
use domino_library.HdlrDomino.State.{
  new_hdlr_domino, HdlrDomino, hdlr_of, ids_of, single_id, own, in_table, alive,
}
use domino_library.HdlrDomino.Tables.{in_table-own, own-in_table}

module _ {ℓ} {C : Type ℓ} where
  -- Each handler belongs to one event and stands in one place there.
  pub record Owned (t : HdlrDomino C) : Type ℓ where
    pub home : ℕ → ℕ
    pub at_home : (ev id : ℕ) → elem id (own t ev) ≡ true → home id ≡ ev
    pub made : (ev id : ℕ) → elem id (own t ev) ≡ true → id < t.next_id
    pub distinct : (ev : ℕ) → Distinct (own t ev)

  -- What every call keeps: the owners, and that a handler once gone does not come back.
  pub record Kept (t t' : HdlrDomino C) : Type ℓ where
    pub owned : Owned t → Owned t'
    pub more : t.next_id ≤ t'.next_id
    pub kept : (ev id : ℕ) → elem id (own t' ev) ≡ true → id < t.next_id → elem id (own t ev) ≡ true
    pub woken : (id : ℕ) → id < t.next_id → alive t' id ≡ true → alive t id ≡ true

  pub Kept-trans : {t t' t'' : HdlrDomino C} → Kept t t' → Kept t' t'' → Kept t t''
  Kept-trans k k' = record {
    owned = λ o. k'.owned (k.owned o);
    more = omega (arith, k.more, k'.more);
    kept = λ ev id i old. k.kept ev id (k'.kept ev id i (omega (arith, k.more, old))) old;
    woken = λ id old a. k.woken id old (k'.woken id (omega (arith, k.more, old)) a);
  }

  woken-kept :
      (t t' : HdlrDomino C)
      → t'.running ≡ t.running
      → ((ev id : ℕ) → elem id (own t' ev) ≡ true → id < t.next_id → elem id (own t ev) ≡ true)
      → (id : ℕ) → id < t.next_id
      → alive t' id ≡ true
      → alive t id ≡ true
  unfolding alive
  woken-kept t t' same less id old a = elim (Bool-cases (in_table t' id)) [
    | inl there ↦
        let (ev, i) = in_table-own t' id there in
        ground (arith, own-in_table t id ev (less ev id i old))
    | inr gone ↦ ground (arith, ap (elem id) same)
  ]

  -- No handler is new.
  pub Kept-shrink :
      (t t' : HdlrDomino C)
      → t.next_id ≤ t'.next_id
      → t'.running ≡ t.running
      → ((ev id : ℕ) → elem id (own t' ev) ≡ true → elem id (own t ev) ≡ true)
      → ((ev : ℕ) → Distinct (own t ev) → Distinct (own t' ev))
      → Kept t t'
  Kept-shrink t t' grows runs less apart = record {
    owned = λ o. record {
      home = o.home;
      at_home = λ ev id i. o.at_home ev id (less ev id i);
      made = λ ev id i. let m = o.made ev id (less ev id i) in omega arith;
      distinct = λ ev. apart ev (o.distinct ev);
    };
    more = omega arith;
    kept = λ ev id i old. less ev id i;
    woken = woken-kept t t' runs (λ ev id i old. less ev id i);
  }

  -- One handler is new, at `ev₀`.
  pub Kept-grow :
      (t t' : HdlrDomino C) (ev₀ : ℕ)
      → t'.next_id ≡ suc t.next_id
      → t'.running ≡ t.running
      → ((ev id : ℕ)
          → elem id (own t' ev) ≡ (((ev₀ == ev) && (t.next_id == id)) || elem id (own t ev)))
      → ((ev : ℕ) → elem t.next_id (own t ev) ≡ false → Distinct (own t ev) → Distinct (own t' ev))
      → Kept t t'
  Kept-grow t t' ev₀ next runs new apart = record {
    owned = λ o. record {
      home = λ id. if id == t.next_id then ev₀ else o.home id;
      at_home = λ ev id i. ground (arith, new ev id, o.at_home ev id, o.made ev id);
      made = λ ev id i. ground (arith, new ev id, o.made ev id);
      distinct = λ ev.
          apart ev
            (elim (Bool-cases (elem t.next_id (own t ev))) [
              | inl i ↦ absurd (omega (arith, o.made ev t.next_id i))
              | inr out ↦ out
            ])
            (o.distinct ev);
    };
    more = omega arith;
    kept = λ ev id i old. ground (arith, new ev id);
    woken = woken-kept t t' runs (λ ev id i old. ground (arith, new ev id));
  }

  own-same :
      (t t' : HdlrDomino C) (ev : ℕ)
      → t'.hdlrs ≡ t.hdlrs
      → t'.multi ≡ t.multi
      → own t' ev ≡ own t ev
  unfolding own
  own-same t t' ev slots rows =
      ap (λ x. single_id (get_or x ev none) ++ ids_of (get_or t'.multi ev [])) slots
      ∙ ap (λ x. single_id (hdlr_of t ev) ++ ids_of (get_or x ev [])) rows

  -- The tables are the same.
  pub Kept-aside :
      (t t' : HdlrDomino C)
      → t'.hdlrs ≡ t.hdlrs
      → t'.multi ≡ t.multi
      → t'.next_id ≡ t.next_id
      → t'.running ≡ t.running
      → Kept t t'
  Kept-aside t t' slots rows next runs =
      Kept-shrink t t' (omega (arith, next)) runs
        (λ ev id i. ap (elem id) (sym (own-same t t' ev slots rows)) ∙ i)
        (λ ev d. subst Distinct (sym (own-same t t' ev slots rows)) d)

  -- All but what was sent is the same.
  pub record Same (t t' : HdlrDomino C) : Type ℓ where
    pub same_dom : t'.dom ≡ t.dom
    pub same_hdlrs : t'.hdlrs ≡ t.hdlrs
    pub same_multi : t'.multi ≡ t.multi
    pub same_repeats : t'.repeats ≡ t.repeats
    pub same_pris : t'.pris ≡ t.pris
    pub same_next : t'.next_id ≡ t.next_id
    pub same_running : t'.running ≡ t.running

  pub Same-refl : (t : HdlrDomino C) → Same t t
  Same-refl t = record {
    same_dom = refl;
    same_hdlrs = refl;
    same_multi = refl;
    same_repeats = refl;
    same_pris = refl;
    same_next = refl;
    same_running = refl;
  }

  pub Same-trans : {t t' t'' : HdlrDomino C} → Same t t' → Same t' t'' → Same t t''
  Same-trans s s' = record {
    same_dom = s'.same_dom ∙ s.same_dom;
    same_hdlrs = s'.same_hdlrs ∙ s.same_hdlrs;
    same_multi = s'.same_multi ∙ s.same_multi;
    same_repeats = s'.same_repeats ∙ s.same_repeats;
    same_pris = s'.same_pris ∙ s.same_pris;
    same_next = s'.same_next ∙ s.same_next;
    same_running = s'.same_running ∙ s.same_running;
  }

  pub Same-own : (t t' : HdlrDomino C) (ev : ℕ) → Same t t' → own t' ev ≡ own t ev
  Same-own t t' ev s = own-same t t' ev s.same_hdlrs s.same_multi

  pub Same-Kept : (t t' : HdlrDomino C) → Same t t' → Kept t t'
  Same-Kept t t' s = Kept-aside t t' s.same_hdlrs s.same_multi s.same_next s.same_running

  pub new_hdlr_domino-Owned : (d : Domino) → Owned (new_hdlr_domino d)
  unfolding own
  new_hdlr_domino-Owned d = record {
    home = λ _. 0;
    at_home = λ ev id i. ground arith;
    made = λ ev id i. ground arith;
    distinct = λ ev. tt;
  }
