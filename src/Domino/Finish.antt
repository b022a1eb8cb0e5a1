-- ===== src/Domino/Finish.antt =====
-- The common end of `setPrev`, `setState` and `rmEv_` in domino/Domino.cpp: deduce, then `effect_()`.
use domino_library.Prelude.{
  ℕ, ◌≡◌, ◌≤◌, ◌<◌, refl, sym, ◌∙◌, subst, inl, inr, Bool, true, false, ◌&&◌, List, [], ◌∷◌, some,
  some-injective, arith, length, elem, Bool-cases, >>=-eq-some,
}
use domino_library.Domino.Links.{branch, find_peer_evs, has_prev}
use domino_library.Domino.Marks.{Marks, state, deduce_each}
use domino_library.Domino.Deduce.Ends.{deduce_each_ends}
use domino_library.Domino.Deduce.Track.{
  Raised, Progress, deduce_each-Progress, deduce_each-Raised, deduce_each-Keeps,
}
use domino_library.Domino.State.{Domino}
use domino_library.Domino.Ops.{Done, up_of, effect, deduce_and_effect}
use domino_library.Domino.Inv.{InvBut, Inv}
use domino_library.Domino.Inv.Extend.{IsSettled-same}

elem-up_of : (e : ℕ) (m : Marks) (evs : List ℕ) → elem e (up_of m evs) ≡ (elem e evs && state m e)
unfolding up_of
elem-up_of e m [] = refl
elem-up_of e m (x ∷ evs) = ground (arith, elem-up_of e m evs)

-- Only marks may differ.
pub record SameTiles (d d' : Domino) : Type 0 where
  pub same_prev : d'.prev ≡ d.prev
  pub same_next : d'.next ≡ d.next
  pub same_names : d'.en_ev ≡ d.en_ev
  pub same_ev_en : d'.ev_en ≡ d.ev_en
  pub same_removed : d'.is_removed_ev ≡ d.is_removed_ev
  pub same_count : length d'.states ≡ length d.states

-- What comes out of a deduction from `todo` that began at `d`.
pub record Finished {ℓ} {A : Type ℓ} (d : Domino) (todo : List ℕ) (a : A) (r : Done A)
    : Type ℓ where
  pub valid : Inv r.dom
  pub same : SameTiles d r.dom
  pub answer : r.ret ≡ a
  -- The effects are of events that are up, ...
  pub sound : (e : ℕ) → elem e r.effects ≡ true → state r.dom.marks e ≡ true
  -- ... among them all that came up.
  pub complete :
      (m₀ : Marks)
      → Raised m₀ d.marks
      → (e : ℕ) → state m₀ e ≡ false
      → state r.dom.marks e ≡ true
      → elem e r.effects ≡ true
  -- Events that nothing leads to are as they were.
  pub untouched :
      (root : ℕ → Bool)
      → ((b : Bool) (u v : ℕ) → elem u (find_peer_evs v (branch b d.next)) ≡ true → root u ≡ false)
      → ((e : ℕ) → elem e todo ≡ true → root e ≡ false)
      → (e : ℕ) → root e ≡ true
      → state r.dom.marks e ≡ state d.marks e

module _ {ℓ} {A : Type ℓ} (d : Domino) (todo : List ℕ) (a : A)
    (v : InvBut (λ e. elem e todo) d) where
  -- Some fuel is enough, and so is any more.
  pub deduce_and_effect_ends :
      (enough : ℕ) × ((fuel : ℕ)
        → enough ≤ fuel
        → (r : Done A) × (deduce_and_effect fuel d todo a ≡ some r))
  unfolding deduce_and_effect
  deduce_and_effect_ends =
      let (enough, ends) = deduce_each_ends d.prev d.next v.rank v.falls todo in
      (
        enough,
        λ fuel h.
            let (m, e) = ends fuel h d.marks in (effect (record d { marks = m }) a, rw e refl),
      )

  module _ (inside : (e : ℕ) → elem e todo ≡ true → e < length d.states)
      (apart : (e : ℕ) → elem e todo ≡ true → elem e d.is_removed_ev.items ≡ false) (fuel : ℕ)
      (r : Done A) (returns : deduce_and_effect fuel d todo a ≡ some r) where
    finished-at :
        (m : Marks) × (deduce_each d.prev d.next fuel d.marks todo ≡ some m)
        × (effect (record d { marks = m }) a ≡ r)
    unfolding deduce_and_effect
    finished-at =
        let (m, e, f) = >>=-eq-some (deduce_each d.prev d.next fuel d.marks todo) _ returns in
        (m, e, some-injective _ _ f)

    unfed :
        (b : Bool) (u w : ℕ)
        → elem u (find_peer_evs w (branch b d.next)) ≡ true
        → elem u d.is_removed_ev.items ≡ false
    unfed b u w i = elim (Bool-cases (elem u d.is_removed_ev.items)) [
      | inl gone ↦ ground (arith, v.linked.both b u w, (v.removed u gone).no_prev b)
      | inr used ↦ used
    ]

    progress :
        (m : Marks)
        → deduce_each d.prev d.next fuel d.marks todo ≡ some m
        → Progress d.prev d.next (length d.states) (has_prev d.prev) m []
    progress m =
        deduce_each-Progress d.prev d.next (length d.states) (has_prev d.prev) v.rank v.linked.both
          v.falls v.linked.within fuel d.marks m todo
          (record { sized = refl; within = inside; settled = v.settled })

    finished-Inv :
        (m : Marks)
        → deduce_each d.prev d.next fuel d.marks todo ≡ some m
        → Inv (effect (record d { marks = m }) a).dom
    unfolding effect
    finished-Inv m e =
        let p = progress m e in
        let k =
          deduce_each-Keeps d.prev d.next (λ u. elem u d.is_removed_ev.items) unfed d.marks fuel
            d.marks m todo (record { waiting = apart; same = λ u i. refl }) e in
        record {
          held = record {
            linked = rw p.sized v.linked;
            rank = v.rank;
            falls = v.falls;
            settled = λ u h t.
                IsSettled-same d.prev d.next d.prev d.next m
                  (record { states = m.states; effect_evs = [] }) u (λ b w. refl) (λ w. refl)
                  (p.settled u h refl);
            named = v.named ∙ sym p.sized;
            names = λ j u h.
                let n = v.names j u h in
                record {
                  inside = omega (arith, n.inside, p.sized);
                  bears = n.bears;
                  in_use = n.in_use;
                };
            removed = λ u i.
                let b = v.removed u i in
                record {
                  inside = omega (arith, b.inside, p.sized);
                  down = k.same u i ∙ b.down;
                  no_prev = b.no_prev;
                  no_next = b.no_next;
                };
            distinct = v.distinct;
          };
          idle = refl;
        }

    pub deduce_and_effect-Finished : Finished d todo a r
    unfolding effect
    deduce_and_effect-Finished =
        let (m, e, f) = finished-at in
        subst (Finished d todo a) f (record {
          valid = finished-Inv m e;
          same = record {
            same_prev = refl;
            same_next = refl;
            same_names = refl;
            same_ev_en = refl;
            same_removed = refl;
            same_count = (progress m e).sized;
          };
          answer = refl;
          sound = λ u i. ground (arith, elem-up_of u m m.effect_evs);
          complete = λ m₀ raised u down up. ground (
            arith,
            elem-up_of u m m.effect_evs,
            deduce_each-Raised d.prev d.next m₀ fuel d.marks m todo raised e u down,
          );
          untouched = λ root fed waiting u i.
              (deduce_each-Keeps d.prev d.next root fed d.marks fuel d.marks m todo
                  (record { waiting = waiting; same = λ w j. refl }) e).same
                u i;
        })
