-- ===== src/Domino/Remove/Cut.antt =====
-- One branch of the links when an event is cut out of it (`pureRmLink_` of domino/Domino.cpp).
use domino_library.Prelude.{
  ℕ, ◌≡◌, ◌≢◌, refl, ◌∙◌, false, not, ◌&&◌, List, [], ◌∷◌, arith, elem, Distinct, ◌==◌, ltb,
  if◌then◌else◌, Bool-cases, inl, inr, length, length-set, get_or-set_self, get_or-set_ne,
  get_or-beyond, set,
}
use domino_library.Domino.Links.{EvLinks, find_peer_evs}
use domino_library.Domino.Remove.{drop_peer, unlink, unlink_each, pure_rm_link}
use domino_library.Domino.Remove.Peers.{elem-drop_peer, Distinct-drop_peer}

find-unlink :
    (ev : ℕ) (links : EvLinks) (peer u : ℕ)
    → find_peer_evs u (unlink ev links peer)
      ≡ (if peer == u then drop_peer ev (find_peer_evs u links) else find_peer_evs u links)
unfolding unlink
find-unlink ev links peer u = elim (Bool-cases (ltb peer (length links))) [
  | inl inside ↦ elim (Bool-cases (peer == u)) [
    | inl same ↦
        let here : peer ≡ u = ground arith in
        rw (inside, here)
          (rw (get_or-set_self links u (drop_peer ev (find_peer_evs u links)) [] (ground arith))
            (ground arith))
    | inr other ↦
        rw (inside, other)
          (get_or-set_ne links peer u (drop_peer ev (find_peer_evs peer links)) [] (ground arith))
  ]
  | inr beyond ↦ elim (Bool-cases (peer == u)) [
    | inl same ↦
        let none : find_peer_evs u links ≡ [] = get_or-beyond links u [] (ground arith) in
        rw (beyond, same, none) (unfold drop_peer in refl)
    | inr other ↦ rw (beyond, other) refl
  ]
]

find-unlink_each :
    (ev : ℕ) (links : EvLinks) (peers : List ℕ) (u : ℕ)
    → Distinct peers
    → find_peer_evs u (unlink_each ev links peers)
      ≡ (if elem u peers then drop_peer ev (find_peer_evs u links) else find_peer_evs u links)
unfolding unlink_each
find-unlink_each ev links [] u h = refl
find-unlink_each ev links (p ∷ peers) u h =
    ground
      (arith, h.0, find-unlink ev links p u, find-unlink_each ev (unlink ev links p) peers u h.1)

length-unlink_each :
    (ev : ℕ) (links : EvLinks) (peers : List ℕ) → length (unlink_each ev links peers) ≡ length links
unfolding unlink_each unlink
length-unlink_each ev links [] = refl
length-unlink_each ev links (p ∷ peers) = ground (
  arith,
  length-unlink_each ev (unlink ev links p) peers,
  length-set links p (drop_peer ev (find_peer_evs p links)),
)

-- `links'` is `links` without `ev`, where `peers` are those to which `ev` is a peer.
pub record IsCut (ev : ℕ) (peers : List ℕ) (links links' : EvLinks) : Type 0 where
  pub same_length : length links' ≡ length links
  pub own : find_peer_evs ev links' ≡ []
  pub others :
      (u : ℕ)
      → ev ≢ u
      → find_peer_evs u links'
        ≡ (if elem u peers then drop_peer ev (find_peer_evs u links) else find_peer_evs u links)

module _ (ev : ℕ) (peers : List ℕ) (links links' : EvLinks) (cut : IsCut ev peers links links')
    (known : (u : ℕ) → elem ev (find_peer_evs u links) ≡ elem u peers)
    (distinct : (u : ℕ) → Distinct (find_peer_evs u links)) where
  pub elem-cut :
      (u a : ℕ)
      → elem a (find_peer_evs u links')
        ≡ (elem a (find_peer_evs u links) && (not (ev == u) && not (ev == a)))
  elem-cut u a = elim (Bool-cases (ev == u)) [
    | inl same ↦
        let here : ev ≡ u = ground arith in
        let gone : find_peer_evs u links' ≡ [] = rw (← here) cut.own in ground (arith, gone)
    | inr other ↦ ground (
      arith,
      cut.others u (ground arith),
      known u,
      elem-drop_peer ev a (find_peer_evs u links) (distinct u),
    )
  ]

  pub Distinct-cut : (u : ℕ) → Distinct (find_peer_evs u links')
  Distinct-cut u = elim (Bool-cases (ev == u)) [
    | inl same ↦ let here : ev ≡ u = ground arith in rw (← here, cut.own) tt
    | inr other ↦ elim (Bool-cases (elem u peers)) [
      | inl i ↦
          rw (cut.others u (ground arith), i)
            (Distinct-drop_peer ev (find_peer_evs u links) (distinct u))
      | inr o ↦ rw (cut.others u (ground arith), o) (distinct u)
    ]
  ]

  -- What `ev` is no peer of is as it was.
  pub find-cut :
      (u : ℕ) → ev ≢ u → elem u peers ≡ false → find_peer_evs u links' ≡ find_peer_evs u links
  find-cut u ne out = cut.others u ne ∙ ground (arith, out)

-- The two calls of `pureRmLink_` for one branch
unfoldable pub cut : ℕ → EvLinks → EvLinks → EvLinks × EvLinks
unfolding pure_rm_link
cut ev prev next =
    let a = pure_rm_link ev prev next in let b = pure_rm_link ev a.1 a.0 in (b.1, b.0)

clear-own :
    (ev : ℕ) (l : EvLinks) → find_peer_evs ev (if ltb ev (length l) then set l ev [] else l) ≡ []
clear-own ev l = ground (arith, get_or-set_self l ev [] [], get_or-beyond l ev [])

clear-ne :
    (ev u : ℕ) (l : EvLinks)
    → ev ≢ u
    → find_peer_evs u (if ltb ev (length l) then set l ev [] else l) ≡ find_peer_evs u l
clear-ne ev u l ne = ground (arith, get_or-set_ne l ev u [] [] ne)

length-clear :
    (ev : ℕ) (l : EvLinks) → length (if ltb ev (length l) then set l ev [] else l) ≡ length l
length-clear ev l = ground (arith, length-set l ev [])

module _ (ev : ℕ) (prev next : EvLinks) (loopless_prev : elem ev (find_peer_evs ev prev) ≡ false)
    (loopless_next : elem ev (find_peer_evs ev next) ≡ false)
    (distinct_prev : Distinct (find_peer_evs ev prev))
    (distinct_next : Distinct (find_peer_evs ev next)) where
  abbrev cleared : EvLinks
  cleared = if ltb ev (length prev) then set prev ev [] else prev

  abbrev unlinked : EvLinks
  unlinked = unlink_each ev next (find_peer_evs ev prev)

  same_next : find_peer_evs ev unlinked ≡ find_peer_evs ev next
  same_next =
      find-unlink_each ev next (find_peer_evs ev prev) ev distinct_prev
      ∙ ground (arith, loopless_prev)

  pub cut-next : IsCut ev (find_peer_evs ev prev) next (cut ev prev next).1
  unfolding cut pure_rm_link
  cut-next = record {
    same_length = length-clear ev unlinked ∙ length-unlink_each ev next (find_peer_evs ev prev);
    own = clear-own ev unlinked;
    others = λ u ne.
        clear-ne ev u unlinked ne
        ∙ find-unlink_each ev next (find_peer_evs ev prev) u distinct_prev;
  }

  pub cut-prev : IsCut ev (find_peer_evs ev next) prev (cut ev prev next).0
  unfolding cut pure_rm_link
  cut-prev = rw same_next (record {
    same_length = length-unlink_each ev cleared (find_peer_evs ev next) ∙ length-clear ev prev;
    own =
        find-unlink_each ev cleared (find_peer_evs ev next) ev distinct_next
        ∙ ground (arith, loopless_next, clear-own ev prev);
    others = λ u ne.
        find-unlink_each ev cleared (find_peer_evs ev next) u distinct_next
        ∙ rw (clear-ne ev u prev ne) refl;
  })
