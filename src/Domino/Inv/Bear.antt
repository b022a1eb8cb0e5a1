-- ===== src/Domino/Inv/Bear.antt =====
-- A name for an event, and room for one more (domino/Domino.cpp, `newEvent`).
use domino_library.Prelude.{
  Bool, ℕ, suc, ◌≡◌, ◌≢◌, ◌<◌, refl, sym, ◌∙◌, ap, subst, inl, inr, true, false, String, List, [],
  ◌∷◌, none, some, arith, lookup, insert, lookup-insert, string_eq, length, length-concat,
  length-set, get_or, get_or-concat_default, get_or-set_self, get_or-set_ne, set, elem, Distinct,
  leb, Bool-cases,
}
use domino_library.Domino.State.{Domino, EventSet, grow, name_event, remove}
use domino_library.Domino.Inv.{Denotes, InvBut}
use domino_library.Domino.Inv.Extend.{
  Extends, grow-Extends, grow-Linked, IsSettled-same, has_prev-same,
}

remove-elem : (a x : ℕ) (xs : List ℕ) → elem a (remove x xs) ≡ true → elem a xs ≡ true
unfolding remove
remove-elem a x [] h = h
remove-elem a x (y ∷ xs) h = ground (arith, remove-elem a x xs)

pub remove-Distinct :
    (x : ℕ) (xs : List ℕ) → Distinct xs → Distinct (remove x xs) × (elem x (remove x xs) ≡ false)
unfolding remove
remove-Distinct x [] h = (tt, refl)
remove-Distinct x (y ∷ xs) h = ground (arith, remove-Distinct x xs h.1, remove-elem y x xs)

-- `ev` gets the name `name`.
abbrev pub bear : Domino → String → ℕ → Domino
bear d name ev = record d { en_ev = insert name ev d.en_ev; ev_en = set d.ev_en ev name }

pub bear-Extends :
    (d : Domino) (name : String) (ev : ℕ) → lookup name d.en_ev ≡ none → Extends d (bear d name ev)
bear-Extends d name ev new = record {
  same_prev = λ b e. refl;
  same_next = λ b e. refl;
  same_states = λ e. refl;
  same_effects = refl;
  grows = omega arith;
  keeps_names = λ j e h. ground (arith, lookup-insert name j ev d.en_ev, string_eq.beq_iff name j);
}

bear-Denotes :
    (d : Domino) (name j : String) (ev e : ℕ)
    → length d.ev_en ≡ length d.states
    → ev < length d.states
    → elem ev d.is_removed_ev.items ≡ false
    → (lookup j d.en_ev ≡ some e → Denotes d j e × (e ≢ ev))
    → lookup j (bear d name ev).en_ev ≡ some e
    → Denotes (bear d name ev) j e
bear-Denotes d name j ev e named inside in_use old h =
    let found = sym (lookup-insert name j ev d.en_ev) ∙ h in
    elim (Bool-cases (string_eq.beq name j)) [
      | inl same ↦
          let here : ev ≡ e = ground arith in
          record {
            inside = omega arith;
            bears =
                ap (λ x. get_or (set d.ev_en ev name) x "") (sym here)
                ∙ get_or-set_self d.ev_en ev name "" (omega arith)
                ∙ (string_eq.beq_iff name j).0 same;
            in_use = ap (λ x. elem x d.is_removed_ev.items) (sym here) ∙ in_use;
          }
      | inr other ↦
          let (n, ne) = old (ground arith) in
          record {
            inside = n.inside;
            bears = get_or-set_ne d.ev_en ev e name "" (λ q. ne (sym q)) ∙ n.bears;
            in_use = n.in_use;
          }
    ]

pub bear-Inv :
    {loose : ℕ → Bool} (d : Domino) (name : String) (ev : ℕ)
    → InvBut loose d
    → ev < length d.states
    → elem ev d.is_removed_ev.items ≡ false
    → ((j : String) (e : ℕ) → lookup j d.en_ev ≡ some e → e ≢ ev)
    → InvBut loose (bear d name ev)
bear-Inv d name ev v inside in_use unnamed = record {
  linked = v.linked;
  rank = v.rank;
  falls = v.falls;
  settled = v.settled;
  named = length-set d.ev_en ev name ∙ v.named;
  names = λ j e h.
      bear-Denotes d name j ev e v.named inside in_use (λ l. (v.names j e l, unnamed j e l)) h;
  removed = λ e i.
      let r = v.removed e i in
      record { inside = r.inside; down = r.down; no_prev = r.no_prev; no_next = r.no_next };
  distinct = v.distinct;
}

pub grow-Inv : {loose : ℕ → Bool} (d : Domino) → InvBut loose d → InvBut loose (grow d)
unfolding grow
grow-Inv d v =
    let x = grow-Extends d in
    record {
      linked = grow-Linked d v.linked;
      rank = v.rank;
      falls = λ b u w i. v.falls b u w (ap (elem u) (sym (x.same_next b w)) ∙ i);
      settled = λ e p t.
          IsSettled-same d.prev d.next (grow d).prev (grow d).next d.marks (grow d).marks e
            x.same_prev x.same_states
            (v.settled e (sym (has_prev-same d.prev (grow d).prev e x.same_prev) ∙ p) t);
      named = omega (arith, v.named, length-concat d.ev_en "", length-concat d.states false);
      names = λ name e h.
          let n = v.names name e h in
          record {
            inside = omega (arith, n.inside, x.grows);
            bears = get_or-concat_default d.ev_en e "" ∙ n.bears;
            in_use = n.in_use;
          };
      removed = λ e i.
          let r = v.removed e i in
          record {
            inside = omega (arith, r.inside, x.grows);
            down = x.same_states e ∙ r.down;
            no_prev = λ b. x.same_prev b e ∙ r.no_prev b;
            no_next = λ b. x.same_next b e ∙ r.no_next b;
          };
      distinct = v.distinct;
    }

pub name_event-new :
    (d : Domino) (name : String)
    → name_event d name (length d.states) ≡ bear (grow d) name (length d.states)
unfolding name_event
name_event-new d name =
    let full : leb (length d.states) (length d.states) ≡ true = ground arith in rw full refl

pub name_event-old :
    (d : Domino) (name : String) (ev : ℕ)
    → ev < length d.states
    → name_event d name ev ≡ bear d name ev
unfolding name_event
name_event-old d name ev h =
    let room : leb (length d.states) ev ≡ false = ground arith in rw room refl

pub grow_names :
    (d : Domino)
    → ((grow d).en_ev ≡ d.en_ev)
      × ((grow d).is_removed_ev ≡ d.is_removed_ev)
      × (length (grow d).states ≡ suc (length d.states))
unfolding grow
grow_names d = (refl, refl, length-concat d.states false)

-- The domino with `rest` for its removed events
abbrev pub reuse : Domino → EventSet → Domino
reuse d rest = record d { is_removed_ev = rest }

pub reuse-Inv :
    {loose : ℕ → Bool} (d : Domino) (ev : ℕ) (rest : EventSet)
    → InvBut loose d
    → rest.items ≡ remove ev d.is_removed_ev.items
    → InvBut loose (reuse d rest)
reuse-Inv d ev rest v left = record {
  linked = v.linked;
  rank = v.rank;
  falls = v.falls;
  settled = v.settled;
  named = v.named;
  names = λ j e h.
      let n = v.names j e h in
      record {
        inside = n.inside;
        bears = n.bears;
        in_use = elim (Bool-cases (elem e rest.items)) [
          | inl i ↦ ground (arith, still e i, n.in_use)
          | inr o ↦ o
        ];
      };
  removed = λ e i.
      let r = v.removed e (still e i) in
      record { inside = r.inside; down = r.down; no_prev = r.no_prev; no_next = r.no_next };
  distinct = subst Distinct (sym left) (remove-Distinct ev d.is_removed_ev.items v.distinct).0;
}
  where
    still : (e : ℕ) → elem e rest.items ≡ true → elem e d.is_removed_ev.items ≡ true
    still e i = remove-elem e ev d.is_removed_ev.items (ap (elem e) (sym left) ∙ i)
