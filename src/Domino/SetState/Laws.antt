-- ===== src/Domino/SetState/Laws.antt =====
-- `setState` of domino/Domino.cpp as a whole.
use domino_library.Prelude.{
  ℕ, ◌≡◌, ◌≤◌, ◌<◌, refl, sym, ◌∙◌, ap, inl, inr, ◌⊎◌, Bool, true, false, not, String, List, [],
  ◌∷◌, some, some-injective, arith, lookup, string_eq, length, elem, Bool-cases, is_empty,
  get_or-beyond,
}
use domino_library.Domino.Links.{Branches, branch, find_peer_evs, has_prev, Mutual}
use domino_library.Domino.Marks.{state}
use domino_library.Domino.State.{Domino, SimuEvents}
use domino_library.Domino.Ops.{Done, are_free, set_states, nexts_of, deduce_and_effect, set_state}
use domino_library.Domino.Inv.{Linked, InvBut, Inv}
use domino_library.Domino.Inv.Extend.{has_prev-same}
use domino_library.Domino.Finish.{deduce_and_effect_ends, deduce_and_effect-Finished}
use domino_library.Domino.SetState.Assign.{
  are_free-Free, Assigned, set_states-Assigned, elem-nexts_of,
}
use domino_library.Domino.SetState.Values.{
  Absent, UniqueNames, Holds, set_states_keeps, set_states-Holds,
}

nonempty : (x : ℕ) (xs : List ℕ) → elem x xs ≡ true → is_empty xs ≡ false
nonempty x [] h = ground arith
nonempty x (y ∷ xs) h = refl

-- What follows another event has a predecessor.
linked-has_prev :
    (prev next : Branches) (b : Bool) (e x : ℕ)
    → Mutual prev next
    → elem e (find_peer_evs x (branch b next)) ≡ true
    → has_prev prev e ≡ true
linked-has_prev prev next true e x both h =
    rw (nonempty x (find_peer_evs e prev.on_true) (both true e x ∙ h)) refl
linked-has_prev prev next false e x both h =
    ground (arith, nonempty x (find_peer_evs e prev.on_false) (both false e x ∙ h))

nexts-has_prev :
    (prev next : Branches) (e : ℕ) (evs : List ℕ)
    → Mutual prev next
    → elem e (nexts_of next evs) ≡ true
    → has_prev prev e ≡ true
unfolding nexts_of
nexts-has_prev prev next e [] both h = ground arith
nexts-has_prev prev next e (x ∷ evs) both h =
    elim (Bool-cases (elem e (find_peer_evs x next.on_true))) [
      | inl t ↦ linked-has_prev prev next true e x both t
      | inr not_t ↦ elim (Bool-cases (elem e (find_peer_evs x next.on_false))) [
        | inl f ↦ linked-has_prev prev next false e x both f
        | inr not_f ↦
            nexts-has_prev prev next e evs both (ground (arith, elem-nexts_of next e x evs))
      ]
    ]

-- An event with a predecessor has a slot, and is in use.
pub has_prev-inside :
    (n e : ℕ) (prev next : Branches) → Linked n prev next → has_prev prev e ≡ true → e < n
has_prev-inside n e prev next l h = ground (
  arith,
  get_or-beyond prev.on_true e [],
  get_or-beyond prev.on_false e [],
  l.sized_prev true,
  l.sized_prev false,
)

has_prev-in_use :
    (loose : ℕ → Bool) (d : Domino) (e : ℕ)
    → InvBut loose d
    → has_prev d.prev e ≡ true
    → elem e d.is_removed_ev.items ≡ false
has_prev-in_use loose d e v h = elim (Bool-cases (elem e d.is_removed_ev.items)) [
  | inl gone ↦ ground (arith, (v.removed e gone).no_prev true, (v.removed e gone).no_prev false)
  | inr used ↦ used
]

Holds-same :
    (d d' : Domino) (evs : SimuEvents)
    → d'.en_ev ≡ d.en_ev
    → d'.prev ≡ d.prev
    → ((e : ℕ) → has_prev d.prev e ≡ false → state d'.marks e ≡ state d.marks e)
    → Holds d evs
    → Holds d' evs
Holds-same d d' [] names links states h = tt
Holds-same d d' ((name, s) ∷ evs) names links states ((e, found, free, value), h) = (
  (e, ap (lookup name) names ∙ found, ap (λ p. has_prev p e) links ∙ free, states e free ∙ value),
  Holds-same d d' evs names links states h,
)

-- The call was carried out.
pub record Applied (d : Domino) (evs : SimuEvents) (r : Done ℕ) : Type 0 where
  pub valid : Inv r.dom
  pub counted : r.ret ≡ length (set_states d evs).1
  pub holds : UniqueNames evs → Holds r.dom evs
  -- A name that is not set, and has no predecessor, keeps its state.
  pub keeps :
      (j : String) (e : ℕ)
      → lookup j d.en_ev ≡ some e
      → has_prev d.prev e ≡ false
      → Absent j evs
      → state r.dom.marks e ≡ state d.marks e
  pub sound : (e : ℕ) → elem e r.effects ≡ true → state r.dom.marks e ≡ true
  pub complete :
      (e : ℕ) → state d.marks e ≡ false → state r.dom.marks e ≡ true → elem e r.effects ≡ true

module _ (d : Domino) (evs : SimuEvents) (v : Inv d) where
  -- Before any deduction
  abbrev pub set_all : Domino × List ℕ
  set_all = set_states d evs

  abbrev todo : List ℕ
  todo = nexts_of set_all.0.next set_all.1

  assigned : are_free d evs ≡ true → Assigned (λ _. false) d set_all
  assigned ok = set_states-Assigned (λ _. false) d evs v.held (are_free-Free d evs ok)

  applied :
      (fuel : ℕ) (r : Done ℕ)
      → are_free d evs ≡ true
      → deduce_and_effect fuel set_all.0 todo (length set_all.1) ≡ some r
      → Applied d evs r
  applied fuel r ok e =
      let free = are_free-Free d evs ok in
      let a = assigned ok in
      let both = a.valid.linked.both in
      let fed = λ (u : ℕ) (i : elem u todo ≡ true).
        nexts-has_prev set_all.0.prev set_all.0.next u set_all.1 both i in
      let z =
        deduce_and_effect-Finished set_all.0 todo (length set_all.1) a.valid
          (λ u i. has_prev-inside _ u set_all.0.prev set_all.0.next a.valid.linked (fed u i))
          (λ u i. has_prev-in_use _ set_all.0 u a.valid (fed u i)) fuel r e in
      let roots : (u : ℕ)
          → has_prev set_all.0.prev u ≡ false
          → state r.dom.marks u ≡ state set_all.0.marks u =
        λ u h.
          z.untouched (λ w. not (has_prev set_all.0.prev w))
            (λ b w x i. ap not (linked-has_prev set_all.0.prev set_all.0.next b w x both i))
            (λ w i. ap not (fed w i)) u (ap not h) in
      record {
        valid = z.valid;
        counted = z.answer;
        holds = λ unique.
            Holds-same set_all.0 r.dom evs z.same.same_names z.same.same_prev roots
              (set_states-Holds (λ _. false) d evs v.held free unique);
        keeps = λ j u h f out.
            roots u (has_prev-same d.prev set_all.0.prev u a.same_prev ∙ f)
            ∙ set_states_keeps (λ _. false) d evs j u v.held free h out;
        sound = z.sound;
        complete = z.complete d.marks (a.raised d.marks (λ u down up. ground arith));
      }

  -- The call was refused: an event that is set has predecessors. Nothing changes.
  unfoldable pub refused : Done ℕ
  refused = record { dom = d; effects = []; ret = 0 }

  pub set_state-cases :
      (fuel : ℕ) (r : Done ℕ)
      → set_state fuel d evs ≡ some r
      → ((are_free d evs ≡ true) × Applied d evs r) ⊎ ((are_free d evs ≡ false) × (r ≡ refused))
  unfolding set_state refused
  set_state-cases fuel r e = elim (Bool-cases (are_free d evs)) [
    | inl ok ↦ inl (ok, applied fuel r ok (rw ok at e))
    | inr linked ↦ inr (linked, sym (some-injective _ _ (rw linked at e)))
  ]

  -- Enough fuel makes `setState` return, and so does any more.
  pub set_state_ends :
      (enough : ℕ) × ((fuel : ℕ) → enough ≤ fuel → (r : Done ℕ) × (set_state fuel d evs ≡ some r))
  unfolding set_state
  set_state_ends = elim (Bool-cases (are_free d evs)) [
    | inl ok ↦
        let (enough, ends) =
          deduce_and_effect_ends set_all.0 todo (length set_all.1) (assigned ok).valid in
        (enough, λ fuel h. let (r, e) = ends fuel h in (r, rw ok e))
    | inr linked ↦ (0, λ fuel h. (record { dom = d; effects = []; ret = 0 }, rw linked refl))
  ]
