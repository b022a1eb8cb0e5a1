-- ===== src/Domino/WhyFalse/Peers.antt =====
-- The predecessors that `whyFalse` of domino/Domino.cpp follows.
use domino_library.Prelude.{
  ℕ, suc, ◌+◌, ◌≡◌, ◌≢◌, ◌⊎◌, ◌<◌, not, none, refl, sym, ◌∙◌, ap, inl, inr, Bool, true, false, List,
  [], ◌∷◌, some, some-injective, arith, eqb, elem, length, Bool-cases, List-cases,
}
use domino_library.Domino.Links.{branch, find_peer_evs, has_prev}
use domino_library.Domino.Marks.{state}
use domino_library.Domino.State.{Domino}
use domino_library.Domino.Search.{Walk, here, onward, follows}
use domino_library.Domino.Inv.{Inv}
use domino_library.Domino.Meaning.{top, lt-top, AllAre, Supported, deduced_lem}
use domino_library.Domino.SetState.Laws.{has_prev-inside}
use domino_library.Domino.WhyFalse.{find_state}

-- The event is a predecessor for true of one that is down and leads to `ev`.
abbrev pub Passed : Domino → ℕ → ℕ → Type 0
Passed d ev e =
    (w : ℕ) × (state d.marks w ≡ false)
    × Walk d.next w ev
    × (elem e (find_peer_evs w d.prev.on_true) ≡ true)

-- Why the search ends at an event. One that is up has not exactly one predecessor. One that is down
-- has no predecessor for true that is down, and either has no predecessor at all, or is one for true
-- of an event that is down and leads to `ev`.
abbrev pub IsRoot : Domino → ℕ → ℕ → Bool → Type 0
IsRoot d ev e true =
    length (find_peer_evs e d.prev.on_true) + length (find_peer_evs e d.prev.on_false) ≢ 1
IsRoot d ev e false =
    AllAre true d.marks (find_peer_evs e d.prev.on_true)
    × ((has_prev d.prev e ≡ false) ⊎ Passed d ev e)

module _ (d : Domino) (v : Inv d) where
  unfoldable pub bound : ℕ
  bound = top v.rank (length d.states)

  Walk-before : (u w e : ℕ) → follows d.next w u ≡ true → Walk d.next w e → Walk d.next u e
  Walk-before u w e f here = onward here f
  Walk-before u w e f (onward {u = x} p g) = onward (Walk-before u w x f p) g

  -- A predecessor: it leads to the event, and has a higher rank within the bound.
  pub record Feeds (peer ev : ℕ) : Type 0 where
    pub higher : v.rank ev < v.rank peer
    pub leads : follows d.next ev peer ≡ true
    pub limited : v.rank ev < bound
    pub fed : has_prev d.prev ev ≡ true

  pub feeds :
      (b : Bool) (peer ev : ℕ)
      → elem peer (find_peer_evs ev (branch b d.prev)) ≡ true
      → Feeds peer ev
  unfolding bound
  feeds true peer ev i =
      let next = sym (v.linked.both true ev peer) ∙ i in
      let fed : has_prev d.prev ev ≡ true = elim (List-cases (find_peer_evs ev d.prev.on_true)) [
        | inl empty ↦ absurd (ground (arith, rw empty at i))
        | inr (x, xs, full) ↦ rw (has_prev, full) refl
      ] in
      record {
        higher = v.falls true ev peer next;
        leads = ground (arith, next);
        limited =
            lt-top v.rank (length d.states) ev
              (has_prev-inside (length d.states) ev d.prev d.next v.linked fed);
        fed = fed;
      }
  feeds false peer ev i =
      let next = sym (v.linked.both false ev peer) ∙ i in
      let fed : has_prev d.prev ev ≡ true = elim (List-cases (find_peer_evs ev d.prev.on_false)) [
        | inl empty ↦ absurd (ground (arith, rw empty at i))
        | inr (x, xs, full) ↦ rw (has_prev, full) (ground arith)
      ] in
      record {
        higher = v.falls false ev peer next;
        leads = ground (arith, next);
        limited =
            lt-top v.rank (length d.states) ev
              (has_prev-inside (length d.states) ev d.prev d.next v.linked fed);
        fed = fed;
      }

  pub find_state-some :
      (b : Bool) (evs : List ℕ) (e : ℕ)
      → find_state d b evs ≡ some e
      → (elem e evs ≡ true) × (state d.marks e ≡ b)
  unfolding find_state
  find_state-some b [] e h = absurd (ground arith)
  find_state-some b (x ∷ evs) e h = elim (Bool-cases (eqb (state d.marks x) b)) [
    | inl found ↦
        let same : x ≡ e = some-injective x e (rw found at h) in
        (ground (arith, same), ap (state d.marks) (sym same) ∙ ground (arith, found))
    | inr other ↦ let (i, s) = find_state-some b evs e (rw other at h) in (ground (arith, i), s)
  ]

  pub find_state-none :
      (b : Bool) (evs : List ℕ) → find_state d b evs ≡ none → AllAre (not b) d.marks evs
  unfolding find_state
  find_state-none b [] h p i = ground arith
  find_state-none b (x ∷ evs) h p i = elim (Bool-cases (eqb (state d.marks x) b)) [
    | inl found ↦ absurd (ground (arith, rw found at h))
    | inr other ↦ elim (Bool-cases (elem p evs)) [
      | inl later ↦ find_state-none b evs (rw other at h) p later
      | inr out ↦
          let here : x ≡ p = ground arith in ap (state d.marks) (sym here) ∙ ground (arith, other)
    ]
  ]

  -- An event that is down with nothing against it has no predecessor.
  pub unsupported :
      (e : ℕ) → state d.marks e ≡ false → Supported d.prev d.marks e → has_prev d.prev e ≡ false
  unsupported e down s = elim (Bool-cases (has_prev d.prev e)) [
    | inl fed ↦
        absurd
          (ground (arith, down, v.settled e fed refl, (deduced_lem d.prev d.next d.marks e).1 s))
    | inr root ↦ root
  ]

  -- What the search has found: an event that leads to `ev`, and its state
  unfoldable pub Cause : ℕ → ℕ → Bool → Type 0
  Cause ev e b = (state d.marks e ≡ b) × Walk d.next e ev

  -- Enough fuel for a loop at this event
  unfoldable pub Enough : ℕ → ℕ → Type 0
  Enough fuel cur = (0 < fuel) × (bound < v.rank cur + fuel)

  pub Enough-peer : (fuel peer cur : ℕ) → Enough (suc fuel) cur → Feeds peer cur → Enough fuel peer
  unfolding Enough
  Enough-peer fuel peer cur (some_fuel, near) f =
      (omega (arith, near, f.limited), omega (arith, near, f.higher))

  pub Cause-peer :
      (peer cur ev : ℕ) (b b' : Bool)
      → Cause ev cur b
      → Feeds peer cur
      → state d.marks peer ≡ b'
      → Cause ev peer b'
  unfolding Cause
  Cause-peer peer cur ev b b' c f s = (s, Walk-before peer cur ev f.leads c.1)
