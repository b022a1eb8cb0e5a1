-- ===== src/Domino/Inv/AddLink.antt =====
-- One more link, as `pureSetPrev_` of domino/Domino.cpp makes it.
use domino_library.Prelude.{
  ℕ, ◌≡◌, ◌≢◌, ◌<◌, refl, sym, ◌∙◌, ap, inl, inr, Bool, true, false, ◌||◌, ◌&&◌, [], ◌∷◌, ◌++◌,
  arith, length, length-set, get_or-set_self, get_or-set_ne, elem, elem-append, Distinct,
  Distinct-concat, if◌then◌else◌, ◌==◌, eqb, Bool-cases,
}
use domino_library.Domino.Links.{Branches, EvLinks, branch, set_branch, find_peer_evs, Falls}
use domino_library.Domino.State.{Domino}
use domino_library.Domino.Ops.{add_peer, add_link}
use domino_library.Domino.Inv.{Linked}

branch-set_branch :
    (b s : Bool) (l : Branches) (v : EvLinks)
    → branch b (set_branch s l v) ≡ (if eqb s b then v else branch b l)
branch-set_branch true true l v = refl
branch-set_branch true false l v = refl
branch-set_branch false true l v = refl
branch-set_branch false false l v = refl

module _ (ev peer : ℕ) (links : EvLinks) where
  length-add_peer : length (add_peer ev peer links) ≡ length links
  unfolding add_peer
  length-add_peer = ground (arith, length-set links ev (find_peer_evs ev links ++ peer ∷ []))

  elem-add_peer :
      (e x : ℕ)
      → ev < length links
      → elem x (find_peer_evs e (add_peer ev peer links))
        ≡ (elem x (find_peer_evs e links) || ((ev == e) && (peer == x)))
  unfolding add_peer
  elem-add_peer e x h = ground (
    arith,
    get_or-set_self links ev (find_peer_evs ev links ++ peer ∷ []) [] h,
    get_or-set_ne links ev e (find_peer_evs ev links ++ peer ∷ []) [],
    elem-append x (find_peer_evs ev links) (peer ∷ []),
  )

  Distinct-add_peer :
      ev < length links
      → ((e : ℕ) → Distinct (find_peer_evs e links))
      → (e : ℕ) → Distinct (find_peer_evs e (add_peer ev peer links))
  unfolding add_peer
  Distinct-add_peer h all e = elim (Bool-cases (elem peer (find_peer_evs ev links))) [
    | inl old ↦ rw old (all e)
    | inr new ↦ elim (Bool-cases (ev == e)) [
      | inl same ↦
          let here : ev ≡ e = ground arith in
          rw (new, ← here, get_or-set_self links ev (find_peer_evs ev links ++ peer ∷ []) [] h)
            (Distinct-concat peer (find_peer_evs ev links) new (all ev))
      | inr other ↦
          let away : ev ≢ e = ground arith in
          rw (new, get_or-set_ne links ev e (find_peer_evs ev links ++ peer ∷ []) [] away) (all e)
    ]
  ]

Distinct-if :
    (test : Bool) (l l' : EvLinks) (e : ℕ)
    → Distinct (find_peer_evs e l)
    → Distinct (find_peer_evs e l')
    → Distinct (find_peer_evs e (if test then l else l'))
Distinct-if true l l' e h h' = h
Distinct-if false l l' e h h' = h'

module _ (d : Domino) (from pe : ℕ) (s : Bool) (n : ℕ) (l : Linked n d.prev d.next)
    (in_from : from < n) (in_pe : pe < n) where
  elem-add_link_next :
      (b : Bool) (u v : ℕ)
      → elem u (find_peer_evs v (branch b (add_link d from pe s).next))
        ≡ (elem u (find_peer_evs v (branch b d.next)) || (eqb s b && ((pe == v) && (from == u))))
  unfolding add_link
  elem-add_link_next b u v = ground (
    arith,
    branch-set_branch b s d.next (add_peer pe from (branch s d.next)),
    elem-add_peer pe from (branch s d.next) v u,
    l.sized_next s,
  )

  pub elem-add_link_prev :
      (b : Bool) (u v : ℕ)
      → elem v (find_peer_evs u (branch b (add_link d from pe s).prev))
        ≡ (elem v (find_peer_evs u (branch b d.prev)) || (eqb s b && ((pe == v) && (from == u))))
  unfolding add_link
  elem-add_link_prev b u v = ground (
    arith,
    branch-set_branch b s d.prev (add_peer from pe (branch s d.prev)),
    elem-add_peer from pe (branch s d.prev) u v,
    l.sized_prev s,
  )

  pub add_link-Linked : Linked n (add_link d from pe s).prev (add_link d from pe s).next
  add_link-Linked = record {
    sized_prev = λ b.
        unfold add_link in
        ground (
          arith,
          branch-set_branch b s d.prev (add_peer from pe (branch s d.prev)),
          length-add_peer from pe (branch s d.prev),
          l.sized_prev s,
          l.sized_prev b,
        );
    sized_next = λ b.
        unfold add_link in
        ground (
          arith,
          branch-set_branch b s d.next (add_peer pe from (branch s d.next)),
          length-add_peer pe from (branch s d.next),
          l.sized_next s,
          l.sized_next b,
        );
    both = λ b u v.
        elem-add_link_prev b u v
        ∙ ap (λ q. q || (eqb s b && ((pe == v) && (from == u)))) (l.both b u v)
        ∙ sym (elem-add_link_next b u v);
    within = λ b u v i. ground (arith, elem-add_link_next b u v, l.within b u v);
    distinct_prev = λ b e.
        unfold add_link in
        rw (branch-set_branch b s d.prev (add_peer from pe (branch s d.prev))) (
          Distinct-if (eqb s b) _ _ e
            (Distinct-add_peer from pe (branch s d.prev) (omega (arith, l.sized_prev s))
              (l.distinct_prev s) e)
            (l.distinct_prev b e));
    distinct_next = λ b e.
        unfold add_link in
        rw (branch-set_branch b s d.next (add_peer pe from (branch s d.next))) (
          Distinct-if (eqb s b) _ _ e
            (Distinct-add_peer pe from (branch s d.next) (omega (arith, l.sized_next s))
              (l.distinct_next s) e)
            (l.distinct_next b e));
  }

  -- A rank that falls along the new link too
  pub add_link-Falls :
      (rank : ℕ → ℕ)
      → Falls rank d.next
      → rank from < rank pe
      → Falls rank (add_link d from pe s).next
  add_link-Falls rank falls down b u v i = ground (arith, elem-add_link_next b u v, falls b u v)

add_peer_ne :
    (ev peer : ℕ) (links : EvLinks) (e : ℕ)
    → ev ≢ e
    → find_peer_evs e (add_peer ev peer links) ≡ find_peer_evs e links
unfolding add_peer
add_peer_ne ev peer links e h =
    ground (arith, get_or-set_ne links ev e (find_peer_evs ev links ++ peer ∷ []) [] h)

-- The links of other events are as they were.
pub add_link_prev_ne :
    (d : Domino) (from pe : ℕ) (s b : Bool) (e : ℕ)
    → from ≢ e
    → find_peer_evs e (branch b (add_link d from pe s).prev) ≡ find_peer_evs e (branch b d.prev)
unfolding add_link
add_link_prev_ne d from pe s b e h = ground (
  arith,
  branch-set_branch b s d.prev (add_peer from pe (branch s d.prev)),
  add_peer_ne from pe (branch s d.prev) e h,
)

pub add_link_next_ne :
    (d : Domino) (from pe : ℕ) (s b : Bool) (e : ℕ)
    → pe ≢ e
    → find_peer_evs e (branch b (add_link d from pe s).next) ≡ find_peer_evs e (branch b d.next)
unfolding add_link
add_link_next_ne d from pe s b e h = ground (
  arith,
  branch-set_branch b s d.next (add_peer pe from (branch s d.next)),
  add_peer_ne pe from (branch s d.next) e h,
)
