-- ===== src/Domino/Remove/Wire.antt =====
-- The domino after `rmEv_` took an event out, before the deduction (domino/Domino.cpp).
use domino_library.Prelude.{
  ℕ, ◌≡◌, ◌≢◌, ◌<◌, refl, sym, ◌∙◌, ap, Bool, true, false, not, ◌&&◌, String, List, [], some, none,
  arith, elem, ◌==◌, Bool-cases, inl, inr, length, length-set, get_or, get_or-set_ne, lookup,
  lookup-erase, string_eq, if◌then◌else◌,
}
use domino_library.Domino.Links.{branch, find_peer_evs, Falls-irrefl}
use domino_library.Domino.Marks.{state, pure_set_state_ok}
use domino_library.Domino.Deduce.Round.{state-pure_set_ne, state-pure_set_self}
use domino_library.Domino.State.{Domino}
use domino_library.Domino.Inv.{Linked, Inv}
use domino_library.Domino.Remove.{rm_links, rm_self}
use domino_library.Domino.Remove.Cut.{
  IsCut, cut, cut-next, cut-prev, elem-cut, Distinct-cut, find-cut,
}

abbrev pub without : ℕ → Domino → Domino
without ev d = rm_self ev (rm_links ev d)

module _ (d : Domino) (ev : ℕ) (v : Inv d) (inside : ev < length d.states)
    (in_use : elem ev d.is_removed_ev.items ≡ false) where
  abbrev prevs : Bool → ℕ → List ℕ
  prevs b e = find_peer_evs e (branch b d.prev)

  abbrev nexts : Bool → ℕ → List ℕ
  nexts b e = find_peer_evs e (branch b d.next)

  loopless_prev : (b : Bool) → elem ev (prevs b ev) ≡ false
  loopless_prev b = Falls-irrefl v.rank d.prev d.next b ev v.linked.both v.falls

  pub loopless_next : (b : Bool) → elem ev (nexts b ev) ≡ false
  loopless_next b = sym (v.linked.both b ev ev) ∙ loopless_prev b

  prev-IsCut : (b : Bool) → IsCut ev (nexts b ev) (branch b d.prev) (branch b (without ev d).prev)
  unfolding rm_self rm_links cut
  prev-IsCut true =
      cut-prev ev d.prev.on_true d.next.on_true (loopless_prev true) (loopless_next true)
        (v.linked.distinct_prev true ev) (v.linked.distinct_next true ev)
  prev-IsCut false =
      cut-prev ev d.prev.on_false d.next.on_false (loopless_prev false) (loopless_next false)
        (v.linked.distinct_prev false ev) (v.linked.distinct_next false ev)

  next-IsCut : (b : Bool) → IsCut ev (prevs b ev) (branch b d.next) (branch b (without ev d).next)
  unfolding rm_self rm_links cut
  next-IsCut true =
      cut-next ev d.prev.on_true d.next.on_true (loopless_prev true) (loopless_next true)
        (v.linked.distinct_prev true ev) (v.linked.distinct_next true ev)
  next-IsCut false =
      cut-next ev d.prev.on_false d.next.on_false (loopless_prev false) (loopless_next false)
        (v.linked.distinct_prev false ev) (v.linked.distinct_next false ev)

  -- The peers of every event are as before, without `ev`.
  pub elem-prev :
      (b : Bool) (u a : ℕ)
      → elem a (find_peer_evs u (branch b (without ev d).prev))
        ≡ (elem a (prevs b u) && (not (ev == u) && not (ev == a)))
  elem-prev b u a =
      elem-cut ev (nexts b ev) (branch b d.prev) (branch b (without ev d).prev) (prev-IsCut b)
        (λ w. v.linked.both b w ev) (v.linked.distinct_prev b) u a

  pub elem-next :
      (b : Bool) (u a : ℕ)
      → elem a (find_peer_evs u (branch b (without ev d).next))
        ≡ (elem a (nexts b u) && (not (ev == u) && not (ev == a)))
  elem-next b u a =
      elem-cut ev (prevs b ev) (branch b d.next) (branch b (without ev d).next) (next-IsCut b)
        (λ w. sym (v.linked.both b ev w)) (v.linked.distinct_next b) u a

  pub without-count : length (without ev d).states ≡ length d.states
  unfolding rm_self rm_links pure_set_state_ok
  without-count = ground (arith, length-set d.states ev false)

  pub without-removed : (without ev d).is_removed_ev ≡ d.is_removed_ev
  unfolding rm_self rm_links
  without-removed = refl

  pub without-states : (e : ℕ) → ev ≢ e → state (without ev d).marks e ≡ state d.marks e
  unfolding rm_self rm_links
  without-states e ne = state-pure_set_ne d.marks ev false e ne

  pub without-down : state (without ev d).marks ev ≡ false
  unfolding rm_self rm_links
  without-down = state-pure_set_self d.marks ev false inside

  pub without-Linked : Linked (length d.states) (without ev d).prev (without ev d).next
  without-Linked = record {
    sized_prev = λ b. (prev-IsCut b).same_length ∙ v.linked.sized_prev b;
    sized_next = λ b. (next-IsCut b).same_length ∙ v.linked.sized_next b;
    both = λ b u w. ground (arith, elem-prev b u w, elem-next b w u, v.linked.both b u w);
    within = λ b u w i. v.linked.within b u w (ground (arith, elem-next b w u));
    distinct_prev = λ b.
        Distinct-cut ev (nexts b ev) (branch b d.prev) (branch b (without ev d).prev) (prev-IsCut b)
          (λ w. v.linked.both b w ev) (v.linked.distinct_prev b);
    distinct_next = λ b.
        Distinct-cut ev (prevs b ev) (branch b d.next) (branch b (without ev d).next) (next-IsCut b)
          (λ w. sym (v.linked.both b ev w)) (v.linked.distinct_next b);
  }

  -- An event that `ev` does not lead to has the predecessors that it had.
  pub same_prevs :
      (b : Bool) (e : ℕ)
      → ev ≢ e
      → elem e (nexts b ev) ≡ false
      → find_peer_evs e (branch b (without ev d).prev) ≡ prevs b e
  same_prevs b e ne out =
      find-cut ev (nexts b ev) (branch b d.prev) (branch b (without ev d).prev) (prev-IsCut b)
        (λ w. v.linked.both b w ev) (v.linked.distinct_prev b) e ne out

  pub same_nexts :
      (b : Bool) (e : ℕ)
      → ev ≢ e
      → elem e (prevs b ev) ≡ false
      → find_peer_evs e (branch b (without ev d).next) ≡ nexts b e
  same_nexts b e ne out =
      find-cut ev (prevs b ev) (branch b d.next) (branch b (without ev d).next) (next-IsCut b)
        (λ w. sym (v.linked.both b ev w)) (v.linked.distinct_next b) e ne out

  pub own_prevs : (b : Bool) → find_peer_evs ev (branch b (without ev d).prev) ≡ []
  own_prevs b = (prev-IsCut b).own

  pub own_nexts : (b : Bool) → find_peer_evs ev (branch b (without ev d).next) ≡ []
  own_nexts b = (next-IsCut b).own

  pub without-ev_en : (e : ℕ) → ev ≢ e → get_or (without ev d).ev_en e "" ≡ get_or d.ev_en e ""
  unfolding rm_self rm_links
  without-ev_en e ne = get_or-set_ne d.ev_en ev e "" "" ne

  pub without-named : length (without ev d).ev_en ≡ length (without ev d).states
  unfolding rm_self rm_links
  without-named = length-set d.ev_en ev "" ∙ v.named ∙ sym without-count

  pub without-lookup :
      (j : String)
      → lookup j (without ev d).en_ev
        ≡ (if string_eq.beq (get_or d.ev_en ev "") j then none else lookup j d.en_ev)
  unfolding rm_self rm_links
  without-lookup j = lookup-erase (get_or d.ev_en ev "") j d.en_ev

  -- Only the name of `ev` is forgotten.
  pub without-names :
      (j : String) (e : ℕ)
      → lookup j (without ev d).en_ev ≡ some e
      → (lookup j d.en_ev ≡ some e) × (ev ≢ e)
  unfolding rm_self rm_links
  without-names j e h =
      let name = get_or d.ev_en ev "" in
      let erased = sym (lookup-erase name j d.en_ev) ∙ h in
      elim (Bool-cases (string_eq.beq name j)) [
        | inl same ↦ ground (arith, erased)
        | inr other ↦
            let old : lookup j d.en_ev ≡ some e = ground (arith, erased) in
            (
              old,
              λ q.
                  let bears = (v.names j e old).bears in
                  ground (arith, string_eq.beq_iff name j, ap (λ x. get_or d.ev_en x "") q ∙ bears),
            )
      ]
