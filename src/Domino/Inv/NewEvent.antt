-- ===== src/Domino/Inv/NewEvent.antt =====
-- `newEvent` of domino/Domino.cpp keeps the invariant, and changes nothing but a name.
use domino_library.Prelude.{
  Bool, ℕ, ◌≡◌, ◌≢◌, ◌<◌, ◌%◌, refl, sym, ◌∙◌, ap, inl, inr, true, false, String, List, [], ◌∷◌,
  none, some, arith, lookup, lookup-insert, lookup-insert_self, string_eq, length, elem,
  elem-get_or, Option-cases, ◌⊎◌, get_or-beyond, Bool-cases,
}
use domino_library.Domino.Links.{branch, find_peer_evs}
use domino_library.Domino.Marks.{state}
use domino_library.Domino.State.{
  Domino, EventSet, grow, name_event, get_event_by, remove, recycle_ev, new_event,
}
use domino_library.Domino.Inv.{InvBut}
use domino_library.Domino.Inv.Extend.{Extends, Extends-refl, Extends-trans, grow-Extends}
use domino_library.Domino.Inv.Bear.{
  remove-Distinct, bear, bear-Extends, bear-Inv, grow-Inv, name_event-new, name_event-old,
  grow_names, reuse, reuse-Inv,
}

-- An event that nothing leads to, and that is down
pub record IsSpare (d : Domino) (e : ℕ) : Type 0 where
  pub no_prev : (b : Bool) → find_peer_evs e (branch b d.prev) ≡ []
  pub down : state d.marks e ≡ false

-- What `newEvent` does when the name is new: another event, in use from now on, bears it.
pub record Fresh (loose : ℕ → Bool) (d : Domino) (name : String) (r : Domino × ℕ) : Type 0 where
  pub extends : Extends d r.0
  pub valid : InvBut loose r.0
  pub found : lookup name r.0.en_ev ≡ some r.1
  pub only :
      (j : String) (e : ℕ) → lookup j r.0.en_ev ≡ some e → (lookup j d.en_ev ≡ some e) ⊎ (e ≡ r.1)
  pub origin : (lookup name d.en_ev ≡ some r.1) ⊎ IsSpare d r.1

bear_only :
    (d₀ d : Domino) (name j : String) (ev e : ℕ)
    → (lookup j d.en_ev ≡ some e → lookup j d₀.en_ev ≡ some e)
    → lookup j (bear d name ev).en_ev ≡ some e
    → (lookup j d₀.en_ev ≡ some e) ⊎ (e ≡ ev)
bear_only d₀ d name j ev e back h =
    let found = sym (lookup-insert name j ev d.en_ev) ∙ h in
    elim (Bool-cases (string_eq.beq name j)) [
      | inl same ↦ inr (ground arith)
      | inr other ↦ inl (back (ground arith))
    ]

bear-Fresh :
    {loose : ℕ → Bool} (d d₀ : Domino) (name : String) (ev : ℕ)
    → ((j : String) (e : ℕ) → lookup j d.en_ev ≡ some e → lookup j d₀.en_ev ≡ some e)
    → IsSpare d₀ ev
    → Extends d₀ d
    → InvBut loose d
    → ev < length d.states
    → elem ev d.is_removed_ev.items ≡ false
    → ((j : String) (e : ℕ) → lookup j d.en_ev ≡ some e → e ≢ ev)
    → lookup name d.en_ev ≡ none
    → Fresh loose d₀ name (bear d name ev, ev)
bear-Fresh d d₀ name ev back spare x v inside in_use unnamed new = record {
  extends = Extends-trans x (bear-Extends d name ev new);
  valid = bear-Inv d name ev v inside in_use unnamed;
  found = lookup-insert_self name ev d.en_ev;
  only = λ j e h. bear_only d₀ d name j ev e (back j e) h;
  origin = inr spare;
}

place_new :
    {loose : ℕ → Bool} (d : Domino) (name : String)
    → InvBut loose d
    → lookup name d.en_ev ≡ none
    → Fresh loose d name (name_event d name (length d.states), length d.states)
place_new d name v new =
    let (same_names, same_removed, longer) = grow_names d in
    rw (name_event-new d name) (
      bear-Fresh (grow d) d name (length d.states) (λ j e h. ap (lookup j) (sym same_names) ∙ h)
        (record {
          no_prev = λ b.
              get_or-beyond (branch b d.prev) (length d.states) []
                (omega (arith, v.linked.sized_prev b));
          down = get_or-beyond d.states (length d.states) false (omega arith);
        })
        (grow-Extends d) (grow-Inv d v) (omega (arith, longer))
        (elim (Bool-cases (elem (length d.states) d.is_removed_ev.items)) [
          | inl i ↦ absurd (omega (arith, (v.removed (length d.states) i).inside))
          | inr o ↦ ap (λ s. elem (length d.states) s.items) same_removed ∙ o
        ])
        (λ j e h.
          let inside = (v.names j e (ap (lookup j) (sym same_names) ∙ h)).inside in omega arith)
        (ap (lookup name) same_names ∙ new))

pub recycle_ev_lem :
    (s : EventSet) (ev : ℕ) (rest : EventSet)
    → recycle_ev s ≡ some (ev, rest)
    → (elem ev s.items ≡ true) × (rest.items ≡ remove ev s.items)
unfolding recycle_ev
recycle_ev_lem s ev rest e = go s.items e
  where
    go :
        (xs : List ℕ)
        → recycle_ev (record { items = xs; first = s.first }) ≡ some (ev, rest)
        → (elem ev xs ≡ true) × (rest.items ≡ remove ev xs)
    go [] h = ground arith
    go (x ∷ xs) h =
        let i = s.first (x ∷ xs) % length (x ∷ xs) in
        ground (arith, elem-get_or (x ∷ xs) i x (omega arith))

place_recycled :
    {loose : ℕ → Bool} (d : Domino) (name : String) (ev : ℕ) (rest : EventSet)
    → InvBut loose d
    → lookup name d.en_ev ≡ none
    → recycle_ev d.is_removed_ev ≡ some (ev, rest)
    → Fresh loose d name (name_event (reuse d rest) name ev, ev)
place_recycled d name ev rest v new e =
    let (was, left) = recycle_ev_lem d.is_removed_ev ev rest e in
    let inside = (v.removed ev was).inside in
    rw (name_event-old (reuse d rest) name ev inside) (
      bear-Fresh (reuse d rest) d name ev (λ j u h. h)
        (record { no_prev = (v.removed ev was).no_prev; down = (v.removed ev was).down })
        (record {
          same_prev = λ b u. refl;
          same_next = λ b u. refl;
          same_states = λ u. refl;
          same_effects = refl;
          grows = omega arith;
          keeps_names = λ j u h. h;
        })
        (reuse-Inv d ev rest v left) inside
        (ap (elem ev) left ∙ (remove-Distinct ev d.is_removed_ev.items v.distinct).1)
        (λ j u h same. let used = (v.names j u h).in_use in ground arith) new)

-- Any event that `newEvent` gives is in use from then on and bears the name; the invariant stays, and
-- no link, no state and no other name changes.
pub new_event-Fresh :
    {loose : ℕ → Bool} (d : Domino) (name : String)
    → InvBut loose d
    → Fresh loose d name (new_event d name)
unfolding new_event
new_event-Fresh d name v = elim (Option-cases (get_event_by d name)) [
  | inl new ↦ elim (Option-cases (recycle_ev d.is_removed_ev)) [
    | inl used_up ↦ rw (new, new_event) (rw (used_up, new_event) (place_new d name v new))
    | inr ((ev, rest), e) ↦
        rw (new, new_event) (rw (e, new_event) (place_recycled d name ev rest v new e))
  ]
  | inr (ev, old) ↦
      rw (old, new_event)
        (record {
          extends = Extends-refl d;
          valid = v;
          found = old;
          only = λ j e h. inl h;
          origin = inl old;
        })
]
