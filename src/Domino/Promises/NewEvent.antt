-- ===== src/Domino/Promises/NewEvent.antt =====
-- `newEvent` and `getEventBy` of domino/Domino.hpp, with the events that domino/RmEvDom.hpp recycles.
use domino_library.Prelude.{
  ℕ, ◌≡◌, ◌<◌, ◌∙◌, ap, Bool, true, false, String, some, lookup, string_eq, elem, length, get_or,
  arith, refl, List, [], ◌∷◌, Option-cases, none, inl, inr, ◌⊎◌, ◌↔◌, Bool-cases,
}
use domino_library.Domino.Links.{branch, find_peer_evs}
use domino_library.Domino.Marks.{state}
use domino_library.Domino.State.{
  Domino, empty_domino, get_event_by, new_event, is_removed, names_in_use, ev_names, recycle_ev,
}
use domino_library.Domino.Inv.{Inv}
use domino_library.Domino.Inv.NewEvent.{new_event-Fresh, recycle_ev_lem}
use domino_library.Domino.Inv.Bear.{name_event-old, reuse}
use domino_library.Domino.SetPrev.Wire.{new_event-known}

-- A domino with no event satisfies the invariant.
pub empty_domino-Inv : (first : List ℕ → ℕ) → Inv (empty_domino first)
empty_domino-Inv first = record {
  held = record {
    linked = record {
      sized_prev = elim [ true ↦ refl | false ↦ refl ];
      sized_next = elim [ true ↦ refl | false ↦ refl ];
      both = elim [ true ↦ λ u v. refl | false ↦ λ u v. refl ];
      within = elim [ true ↦ λ u v i. ground arith | false ↦ λ u v i. ground arith ];
      distinct_prev = elim [ true ↦ λ e. tt | false ↦ λ e. tt ];
      distinct_next = elim [ true ↦ λ e. tt | false ↦ λ e. tt ];
    };
    rank = λ _. 0;
    falls = elim [ true ↦ λ u v i. ground arith | false ↦ λ u v i. ground arith ];
    settled = λ e h t. ground arith;
    named = refl;
    names = λ name e h. absurd (no_name name e h);
    removed = λ e i. absurd (ground arith);
    distinct = tt;
  };
  idle = refl;
}
  where
    no_name : (name : String) (e : ℕ) → lookup name (empty_domino first).en_ev ≡ some e → ⊥
    no_name name e h = unfold lookup in cc

-- `newEvent` keeps the invariant.
pub new_event-Inv : (d : Domino) (name : String) → Inv d → Inv (new_event d name).0
new_event-Inv d name v =
    let f = new_event-Fresh d name v.held in
    record { held = f.valid; idle = f.extends.same_effects ∙ v.idle }

-- The event that `newEvent` gives has a slot, bears the name, is not one of the removed, and is the
-- one that `getEventBy` then finds and a second `newEvent` gives again, without any change; no state
-- and no link of any event is changed.
pub new_event_lem :
    (d : Domino) (name : String) (b : Bool) (e : ℕ)
    → Inv d
    → ((new_event d name).1 < length (new_event d name).0.states)
      × (get_or (new_event d name).0.ev_en (new_event d name).1 "" ≡ name)
      × (elem (new_event d name).1 (new_event d name).0.is_removed_ev.items ≡ false)
      × (get_event_by (new_event d name).0 name ≡ some (new_event d name).1)
      × (new_event (new_event d name).0 name ≡ new_event d name)
      × (state (new_event d name).0.marks e ≡ state d.marks e)
      × (find_peer_evs e (branch b (new_event d name).0.prev) ≡ find_peer_evs e (branch b d.prev))
      × (find_peer_evs e (branch b (new_event d name).0.next) ≡ find_peer_evs e (branch b d.next))
unfolding get_event_by
new_event_lem d name b e v =
    let f = new_event-Fresh d name v.held in
    let n = f.valid.names name (new_event d name).1 f.found in
    let x = f.extends in
    (
      n.inside,
      n.bears,
      n.in_use,
      f.found,
      new_event-known (new_event d name).0 name (new_event d name).1 f.found,
      x.same_states e,
      x.same_prev b e,
      x.same_next b e,
    )

-- The list of names has the name
abbrev pub HasName : String → List String → Type 0
HasName name [] = ⊥
HasName name (x ∷ xs) = (x ≡ name) ⊎ HasName name xs

module _ (d : Domino) where
  listed :
      (entries : List (String × ℕ)) (j : String) (e : ℕ)
      → lookup j entries ≡ some e
      → is_removed d e ≡ false
      → HasName j (names_in_use d entries)
  unfolding lookup names_in_use
  listed [] j e h used = ground arith
  listed ((i, w) ∷ entries) j e h used = elim (Bool-cases (string_eq.beq i j)) [
    | inl same ↦
        let here : w ≡ e = ground arith in rw (here, used) (inl ((string_eq.beq_iff i j).0 same))
    | inr other ↦
        let later = listed entries j e (ground arith) used in
        elim (Bool-cases (is_removed d w)) [
          | inl gone ↦ rw gone later
          | inr kept ↦ rw kept (inr later)
        ]
  ]

  found_of :
      (entries : List (String × ℕ)) (j : String)
      → HasName j (names_in_use d entries)
      → (e : ℕ) × (lookup j entries ≡ some e)
  unfolding lookup names_in_use
  found_of [] j h = absurd h
  found_of ((i, w) ∷ entries) j h = elim (Bool-cases (string_eq.beq i j)) [
    | inl same ↦ (w, rw same refl)
    | inr other ↦ let (e, f) = found_of entries j (below other h) in (e, rw other f)
  ]
    where
      below :
          string_eq.beq i j ≡ false
          → HasName j (names_in_use d ((i, w) ∷ entries))
          → HasName j (names_in_use d entries)
      below other h = elim (Bool-cases (is_removed d w)) [
        | inl gone ↦ rw gone at h
        | inr kept ↦ elim (rw kept at h) [
          | inl same ↦ ground (arith, string_eq.beq_iff i j)
          | inr rest ↦ rest
        ]
      ]

-- `evNames` gives exactly the names for which `getEventBy` finds an event.
ev_names_lem :
    (d : Domino) (j : String)
    → Inv d
    → HasName j (ev_names d) ↔ ((e : ℕ) × (get_event_by d j ≡ some e))
unfolding ev_names get_event_by
ev_names_lem d j v = (
  found_of d d.en_ev j,
  λ (e, h).
      let n = v.names j e h in
      listed d d.en_ev j e h (unfold is_removed in ground (arith, n.inside, n.in_use)),
)

recycle_ev-none {ℓ} :
    {A : Type ℓ} (xs : List ℕ) (first : List ℕ → ℕ) (x : ℕ)
    → elem x xs ≡ true
    → recycle_ev (record { items = xs; first = first }) ≡ none
    → A
unfolding recycle_ev
recycle_ev-none [] first x i e = ground arith
recycle_ev-none (y ∷ ys) first x i e = ground arith

-- A new name gets a removed event, if there is one: then no slot is added.
new_event_reuses :
    (d : Domino) (name : String) (x : ℕ)
    → Inv d
    → get_event_by d name ≡ none
    → elem x d.is_removed_ev.items ≡ true
    → (elem (new_event d name).1 d.is_removed_ev.items ≡ true)
      × (length (new_event d name).0.states ≡ length d.states)
unfolding get_event_by new_event
new_event_reuses d name x v fresh some_removed = elim (Option-cases (recycle_ev d.is_removed_ev)) [
  | inl none' ↦ recycle_ev-none d.is_removed_ev.items d.is_removed_ev.first x some_removed none'
  | inr ((ev, rest), taken) ↦
      let (was, _) = recycle_ev_lem d.is_removed_ev ev rest taken in
      let same = name_event-old (reuse d rest) name ev (v.removed ev was).inside in
      rw (fresh, new_event) (rw (taken, new_event) (was, ap (λ q. length q.states) same))
]
