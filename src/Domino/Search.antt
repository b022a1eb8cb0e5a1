-- ===== src/Domino/Search.antt =====
-- The search of `setPrev` in domino/Domino.cpp for the events that follow from one.
pub mod Bits
use domino_library.Prelude.{
  ℕ, zero, suc, ◌+◌, ◌≡◌, ◌≤◌, ◌<◌, ◌↔◌, refl, ◌∙◌, ap, subst, Bool, true, false, not, ◌&&◌, ◌||◌,
  List, [], ◌∷◌, some, arith, elem, length, Bool-cases, inl, inr, ◌==◌, get_or, set, length-set,
  get_or-set_self, get_or-set_ne, some-injective, replicate, length-replicate, get_or-replicate,
}
use domino_library.Domino.Links.{Branches, find_peer_evs, Within}
use domino_library.Domino.Ops.{mark_all, search_round, search_loop, nextables}
use domino_library.Domino.Search.Bits.{
  marked, unmarked, marked-set, unmarked-set, unmarked_le, Below, Marked, mark_all-Marked,
}

module _ (next : Branches) where
  -- `v` follows `u` by one link.
  abbrev pub follows : ℕ → ℕ → Bool
  follows v u = elem v (find_peer_evs u next.on_true) || elem v (find_peer_evs u next.on_false)

  -- A round pops `cur`, marks its successors, and pushes those that it marks.
  record Rounded (cur : ℕ) (bs bs' : List Bool) (stack stack' : List ℕ) : Type 0 where
    sized : length bs' ≡ length bs
    work : unmarked bs' + length stack' ≡ unmarked bs + length stack
    bits : (v : ℕ) → marked bs' v ≡ (follows v cur || marked bs v)
    pushed : (v : ℕ) → elem v stack' ≡ ((follows v cur && not (marked bs v)) || elem v stack)

  search_round-Rounded :
      (n cur : ℕ) (bs : List Bool) (stack : List ℕ)
      → Within n next
      → n ≤ length bs
      → Rounded cur bs (search_round next cur bs stack).0 stack (search_round next cur bs stack).1
  unfolding search_round
  search_round-Rounded n cur bs stack within fits =
      let ts = find_peer_evs cur next.on_true in
      let fs = find_peer_evs cur next.on_false in
      let r = mark_all next ts bs stack in
      let p = mark_all-Marked next ts bs stack (λ e i. omega (arith, within true e cur i)) in
      let q =
        mark_all-Marked next fs r.0 r.1 (λ e i. omega (arith, p.sized, within false e cur i)) in
      record {
        sized = q.sized ∙ p.sized;
        work = q.work ∙ p.work;
        bits = λ v. ground (arith, p.bits v, q.bits v);
        pushed = λ v. ground (arith, p.bits v, p.pushed v, q.pushed v);
      }

  search_loop_mono :
      (fuel fuel' : ℕ) (bs bs' : List Bool) (stack : List ℕ)
      → fuel ≤ fuel'
      → search_loop next fuel bs stack ≡ some bs'
      → search_loop next fuel' bs stack ≡ some bs'
  unfolding search_loop
  search_loop_mono fuel fuel' bs bs' [] h e = e
  search_loop_mono zero fuel' bs bs' (c ∷ stack) h e = ground arith
  search_loop_mono (suc fuel) zero bs bs' (c ∷ stack) h e = absurd (omega arith)
  search_loop_mono (suc fuel) (suc fuel') bs bs' (c ∷ stack) h e =
      let r = search_round next c bs stack in
      search_loop_mono fuel fuel' r.0 bs' r.1 (omega arith) e

  -- More fuel gives the same events.
  pub nextables_mono :
      (fuel fuel' size from : ℕ) (bs : List Bool)
      → fuel ≤ fuel'
      → nextables next fuel size from ≡ some bs
      → nextables next fuel' size from ≡ some bs
  unfolding nextables
  nextables_mono fuel fuel' size from bs h e =
      search_loop_mono fuel fuel' (set (replicate size false) from true) bs (from ∷ []) h e

  -- A walk along the links
  pub data Walk (from : ℕ) : ℕ → Type 0 where
    here : Walk from from
    onward : {u v : ℕ} → Walk from u → follows v u ≡ true → Walk from v

  module _ (from n : ℕ) (within : Within n next) where
    -- The invariant of the search
    record Searched (bs : List Bool) (stack : List ℕ) : Type 0 where
      fits : n ≤ length bs
      source : marked bs from ≡ true
      queued : (v : ℕ) → elem v stack ≡ true → marked bs v ≡ true
      sound : (v : ℕ) → marked bs v ≡ true → Walk from v
      closed :
          (u v : ℕ)
          → marked bs u ≡ true
          → elem u stack ≡ false
          → follows v u ≡ true
          → marked bs v ≡ true

    Searched-round :
        (cur : ℕ) (bs : List Bool) (stack : List ℕ)
        → Searched bs (cur ∷ stack)
        → Searched (search_round next cur bs stack).0 (search_round next cur bs stack).1
    Searched-round cur bs stack s =
        let r = search_round-Rounded n cur bs stack within s.fits in
        let at_cur = s.queued cur (ground arith) in
        record {
          fits = omega (arith, r.sized, s.fits);
          source = ground (arith, r.bits from, s.source);
          queued = λ v i. ground (arith, r.bits v, r.pushed v, s.queued v);
          sound = λ v i. elim (Bool-cases (follows v cur)) [
            | inl f ↦ onward (s.sound cur at_cur) f
            | inr other ↦ s.sound v (ground (arith, r.bits v))
          ];
          closed = λ u v i out f. ground (arith, r.bits u, r.bits v, r.pushed u, s.closed u v);
        }

    Searched-loop :
        (fuel : ℕ) (bs bs' : List Bool) (stack : List ℕ)
        → Searched bs stack
        → search_loop next fuel bs stack ≡ some bs'
        → Searched bs' []
    unfolding search_loop
    Searched-loop fuel bs bs' [] s e = subst (λ x. Searched x []) (some-injective bs bs' e) s
    Searched-loop zero bs bs' (c ∷ stack) s e = ground arith
    Searched-loop (suc fuel) bs bs' (c ∷ stack) s e =
        let r = search_round next c bs stack in
        Searched-loop fuel r.0 bs' r.1 (Searched-round c bs stack s) e

    search_loop_ends :
        (fuel : ℕ) (bs : List Bool) (stack : List ℕ)
        → n ≤ length bs
        → unmarked bs + length stack ≤ fuel
        → (bs' : List Bool) × (search_loop next fuel bs stack ≡ some bs')
    unfolding search_loop
    search_loop_ends fuel bs [] fits h = (bs, refl)
    search_loop_ends zero bs (c ∷ stack) fits h = absurd (omega arith)
    search_loop_ends (suc fuel) bs (c ∷ stack) fits h =
        let r = search_round-Rounded n c bs stack within fits in
        let q = search_round next c bs stack in
        search_loop_ends fuel q.0 q.1 (omega (arith, r.sized)) (omega (arith, r.work))

    module _ (size : ℕ) (room : n ≤ size) (inside : from < n) where
      abbrev first_bits : List Bool
      first_bits = set (replicate size false) from true

      length-first_bits : length first_bits ≡ size
      length-first_bits = length-set (replicate size false) from true ∙ length-replicate size false

      marked-first_bits : (v : ℕ) → marked first_bits v ≡ (from == v)
      marked-first_bits v = ground (
        arith,
        marked-set (replicate size false) from v,
        get_or-replicate size v false,
        length-replicate size false,
      )

      Searched-start : Searched first_bits (from ∷ [])
      Searched-start = record {
        fits = omega (arith, length-first_bits, room);
        source = ground (arith, marked-first_bits from);
        queued = λ v i. ground (arith, marked-first_bits v);
        sound = λ v i.
            let e : from ≡ v = ground (arith, marked-first_bits v) in subst (Walk from) e here;
        closed = λ u v i out f. ground (arith, marked-first_bits u);
      }

      -- Closed under the links
      walked : (bs : List Bool) → Searched bs [] → {v : ℕ} → Walk from v → marked bs v ≡ true
      walked bs s here = s.source
      walked bs s (onward {u} {v} w f) = s.closed u v (walked bs s w) refl f

      -- When the search returns, it has marked exactly the events to which the links lead from `from`,
      -- if all of them lead to events below `size`.
      pub nextables-Walk :
          (fuel : ℕ) (bs : List Bool) (v : ℕ)
          → nextables next fuel size from ≡ some bs
          → (marked bs v ≡ true) ↔ Walk from v
      unfolding nextables
      nextables-Walk fuel bs v e =
          let s = Searched-loop fuel first_bits bs (from ∷ []) Searched-start e in
          (s.sound v, walked bs s)

      -- `size + 1` rounds are enough.
      pub nextables_ends :
          (fuel : ℕ) → size < fuel → (bs : List Bool) × (nextables next fuel size from ≡ some bs)
      unfolding nextables
      nextables_ends fuel h =
          search_loop_ends fuel first_bits (from ∷ []) (omega (arith, length-first_bits, room))
            (omega (arith, unmarked_le first_bits, length-first_bits))
