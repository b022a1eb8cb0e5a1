-- ===== src/Domino/Inv/Extend.antt =====
-- A domino with more events, where the old ones are as they were.
use domino_library.Prelude.{
  ℕ, ◌≡◌, ◌≤◌, refl, sym, ◌∙◌, ap, subst, Bool, true, false, String, List, [], ◌∷◌, ◌++◌, some,
  arith, lookup, string_eq, length, length-append, length-concat, get_or-concat_default, elem,
  Distinct,
}
use domino_library.Domino.Links.{Branches, branch, find_peer_evs, has_prev}
use domino_library.Domino.Marks.{Marks, state, all_have, deduced}
use domino_library.Domino.Deduce.Settle.{IsSettled}
use domino_library.Domino.State.{Domino, grow}
use domino_library.Domino.Inv.{Linked}

-- The same peers at every event
abbrev pub SameLinks : Branches → Branches → Type 0
SameLinks l l' = (b : Bool) (e : ℕ) → find_peer_evs e (branch b l') ≡ find_peer_evs e (branch b l)

abbrev pub SameStates : Marks → Marks → Type 0
SameStates m m' = (e : ℕ) → state m' e ≡ state m e

pub record Extends (d d' : Domino) : Type 0 where
  pub same_prev : SameLinks d.prev d'.prev
  pub same_next : SameLinks d.next d'.next
  pub same_states : SameStates d.marks d'.marks
  pub same_effects : d'.effect_evs ≡ d.effect_evs
  pub grows : length d.states ≤ length d'.states
  pub keeps_names :
      (name : String) (e : ℕ) → lookup name d.en_ev ≡ some e → lookup name d'.en_ev ≡ some e

pub Extends-refl : (d : Domino) → Extends d d
Extends-refl d = record {
  same_prev = λ b e. refl;
  same_next = λ b e. refl;
  same_states = λ e. refl;
  same_effects = refl;
  grows = omega arith;
  keeps_names = λ name e h. h;
}

pub Extends-trans : {d d' d'' : Domino} → Extends d d' → Extends d' d'' → Extends d d''
Extends-trans x y = record {
  same_prev = λ b e. y.same_prev b e ∙ x.same_prev b e;
  same_next = λ b e. y.same_next b e ∙ x.same_next b e;
  same_states = λ e. y.same_states e ∙ x.same_states e;
  same_effects = y.same_effects ∙ x.same_effects;
  grows = omega (arith, x.grows, y.grows);
  keeps_names = λ name e h. y.keeps_names name e (x.keeps_names name e h);
}

Linked-same :
    {n n' : ℕ} {prev next prev' next' : Branches}
    → n ≤ n'
    → ((b : Bool) → length (branch b prev') ≡ n')
    → ((b : Bool) → length (branch b next') ≡ n')
    → SameLinks prev prev'
    → SameLinks next next'
    → Linked n prev next
    → Linked n' prev' next'
Linked-same h sp sn p q l = record {
  sized_prev = sp;
  sized_next = sn;
  both = λ b u v. ap (elem v) (p b u) ∙ l.both b u v ∙ ap (elem u) (sym (q b v));
  within = λ b u v i. omega (arith, l.within b u v (ap (elem u) (sym (q b v)) ∙ i));
  distinct_prev = λ b e. subst Distinct (sym (p b e)) (l.distinct_prev b e);
  distinct_next = λ b e. subst Distinct (sym (q b e)) (l.distinct_next b e);
}

all_have-same :
    (type : Bool) (m m' : Marks) (evs : List ℕ)
    → SameStates m m'
    → all_have type m' evs ≡ all_have type m evs
unfolding all_have
all_have-same type m m' [] same = refl
all_have-same type m m' (v ∷ evs) same = ground (arith, same v, all_have-same type m m' evs same)

pub has_prev-same :
    (prev prev' : Branches) (e : ℕ) → SameLinks prev prev' → has_prev prev' e ≡ has_prev prev e
has_prev-same prev prev' e p = rw (p true e, p false e) refl

deduced-same :
    (prev next prev' next' : Branches) (m m' : Marks) (e : ℕ)
    → SameLinks prev prev'
    → SameStates m m'
    → deduced prev' next' m' e ≡ deduced prev next m e
unfolding deduced
deduced-same prev next prev' next' m m' e p same =
    rw
      (
        p true e,
        p false e,
        all_have-same true m m' (find_peer_evs e prev.on_true) same,
        all_have-same false m m' (find_peer_evs e prev.on_false) same,
      )
      refl

pub IsSettled-same :
    (prev next prev' next' : Branches) (m m' : Marks) (e : ℕ)
    → SameLinks prev prev'
    → SameStates m m'
    → IsSettled prev next m e
    → IsSettled prev' next' m' e
IsSettled-same prev next prev' next' m m' e p same s =
    same e ∙ s ∙ sym (deduced-same prev next prev' next' m m' e p same)

grow-SameLinks : (d : Domino) → SameLinks d.prev (grow d).prev × SameLinks d.next (grow d).next
unfolding grow
grow-SameLinks d = (
  elim [
    | true ↦ λ e. get_or-concat_default d.prev.on_true e []
    | false ↦ λ e. get_or-concat_default d.prev.on_false e []
  ],
  elim [
    | true ↦ λ e. get_or-concat_default d.next.on_true e []
    | false ↦ λ e. get_or-concat_default d.next.on_false e []
  ],
)

grow-SameStates : (d : Domino) → SameStates d.marks (grow d).marks
unfolding grow
grow-SameStates d e = get_or-concat_default d.states e false

pub grow-Linked :
    (d : Domino)
    → Linked (length d.states) d.prev d.next
    → Linked (length (grow d).states) (grow d).prev (grow d).next
unfolding grow
grow-Linked d l =
    Linked-same (omega (arith, length-append d.states (false ∷ [])))
      (elim [ true ↦ slot _ (l.sized_prev true) | false ↦ slot _ (l.sized_prev false) ])
      (elim [ true ↦ slot _ (l.sized_next true) | false ↦ slot _ (l.sized_next false) ])
      (grow-SameLinks d).0 (grow-SameLinks d).1 l
  where
    slot :
        (ls : List (List ℕ))
        → length ls ≡ length d.states
        → length (ls ++ [] ∷ []) ≡ length (d.states ++ false ∷ [])
    slot ls e = omega (arith, e, length-concat ls [], length-concat d.states false)

pub grow-Extends : (d : Domino) → Extends d (grow d)
unfolding grow
grow-Extends d = record {
  same_prev = (grow-SameLinks d).0;
  same_next = (grow-SameLinks d).1;
  same_states = grow-SameStates d;
  same_effects = refl;
  grows = omega (arith, length-concat d.states false);
  keeps_names = λ name e h. h;
}
