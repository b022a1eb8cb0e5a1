-- ===== src/Domino/SetPrev/Wire.antt =====
-- `pureSetPrev_` of domino/Domino.cpp on links that passed the check.
use domino_library.Prelude.{
  ap, ℕ, ◌≡◌, ◌≢◌, ◌<◌, refl, sym, ◌∙◌, Bool, true, false, String, List, [], ◌∷◌, some, arith,
  lookup, string_eq, length, elem,
}
use domino_library.Domino.Links.{Branches, branch, find_peer_evs, has_prev, Falls}
use domino_library.Domino.Marks.{Marks, deduced}
use domino_library.Domino.State.{Domino, SimuEvents, new_event}
use domino_library.Domino.Ops.{add_link, pure_set_prev}
use domino_library.Domino.Inv.{InvBut}
use domino_library.Domino.Inv.AddLink.{
  elem-add_link_prev, add_link-Linked, add_link-Falls, add_link_prev_ne, add_link_next_ne,
}
use domino_library.Domino.Search.Bits.{marked}
use domino_library.Domino.SetPrev.Check.{Cleared}

-- A known name gives its event, and changes nothing.
pub new_event-known :
    (d : Domino) (name : String) (ev : ℕ)
    → lookup name d.en_ev ≡ some ev
    → new_event d name ≡ (d, ev)
unfolding new_event
new_event-known d name ev h = rw (h, new_event) refl

deduced_at :
    (prev next prev' next' : Branches) (m : Marks) (e : ℕ)
    → ((b : Bool) → find_peer_evs e (branch b prev') ≡ find_peer_evs e (branch b prev))
    → deduced prev' next' m e ≡ deduced prev next m e
unfolding deduced
deduced_at prev next prev' next' m e kept = rw (kept true, kept false) refl

has_prev_eq :
    (prev prev' : Branches) (e : ℕ)
    → ((b : Bool) → find_peer_evs e (branch b prev') ≡ find_peer_evs e (branch b prev))
    → has_prev prev' e ≡ true
    → has_prev prev e ≡ true
has_prev_eq prev prev' e kept h = ground (arith, kept true, kept false)

-- One link whose ends are in use, along which the rank falls
add_link-InvBut :
    (loose : ℕ → Bool) (d : Domino) (from pe : ℕ) (s : Bool) (v : InvBut loose d)
    → (rank : ℕ → ℕ) → Falls rank d.next
    → rank from < rank pe
    → loose from ≡ true
    → from < length d.states
    → pe < length d.states
    → elem from d.is_removed_ev.items ≡ false
    → elem pe d.is_removed_ev.items ≡ false
    → InvBut loose (add_link d from pe s)
unfolding add_link
add_link-InvBut loose d from pe s v rank falls down tied in_from in_pe use_from use_pe = record {
  linked = add_link-Linked d from pe s (length d.states) v.linked in_from in_pe;
  rank = rank;
  falls = add_link-Falls d from pe s (length d.states) v.linked in_from in_pe rank falls down;
  settled = λ e h t.
      let ne : from ≢ e = ground arith in
      let kept = λ (b : Bool). add_link_prev_ne d from pe s b e ne in
      v.settled e (has_prev_eq d.prev (add_link d from pe s).prev e kept h) t
      ∙ sym (
          deduced_at d.prev d.next (add_link d from pe s).prev (add_link d from pe s).next d.marks e
            kept);
  named = v.named;
  names = λ name e h.
      let n = v.names name e h in record { inside = n.inside; bears = n.bears; in_use = n.in_use };
  removed = λ e i.
      let r = v.removed e i in
      record {
        inside = r.inside;
        down = r.down;
        no_prev = λ b. add_link_prev_ne d from pe s b e (ground arith) ∙ r.no_prev b;
        no_next = λ b. add_link_next_ne d from pe s b e (ground arith) ∙ r.no_next b;
      };
  distinct = v.distinct;
}

-- Each of the links asked for is there.
abbrev pub AllLinked : Domino → ℕ → SimuEvents → Type 0
AllLinked d from [] = Unit {0}
AllLinked d from ((name, s) ∷ evs) =
    ((ev : ℕ) × (lookup name d.en_ev ≡ some ev)
      × (elem ev (find_peer_evs from (branch s d.prev)) ≡ true))
    × AllLinked d from evs

-- Names of events that do not follow from `from`
abbrev Known : List (String × ℕ) → List Bool → SimuEvents → Type 0
Known en_ev bs [] = Unit {0}
Known en_ev bs ((name, s) ∷ evs) =
    ((ev : ℕ) × (lookup name en_ev ≡ some ev) × (marked bs ev ≡ false)) × Known en_ev bs evs

pub Known-Cleared :
    (d : Domino) (from : ℕ) (bs : List Bool) (evs : SimuEvents)
    → Cleared d from bs evs
    → Known d.en_ev bs evs
Known-Cleared d from bs [] c = tt
Known-Cleared d from bs ((name, s) ∷ evs) c =
    let k = c.0 in ((k.ev, k.found, k.ahead), Known-Cleared d from bs evs c.1)

-- What the links of `d'` have over those of `d`: those asked for, and none is lost.
pub record Wired (loose : ℕ → Bool) (d : Domino) (from : ℕ) (evs : SimuEvents) (d' : Domino)
    : Type 0 where
  pub valid : InvBut loose d'
  pub same_marks : d'.marks ≡ d.marks
  pub same_names : d'.en_ev ≡ d.en_ev
  pub same_removed : d'.is_removed_ev ≡ d.is_removed_ev
  pub keeps :
      (b : Bool) (x : ℕ)
      → elem x (find_peer_evs from (branch b d.prev)) ≡ true
      → elem x (find_peer_evs from (branch b d'.prev)) ≡ true
  pub linked : AllLinked d' from evs

pub pure_set_prev-Wired :
    (loose : ℕ → Bool) (d : Domino) (from : ℕ) (bs : List Bool) (rank : ℕ → ℕ) (evs : SimuEvents)
    → InvBut loose d
    → Falls rank d.next
    → ((e : ℕ) → marked bs e ≡ false → rank from < rank e)
    → Known d.en_ev bs evs
    → loose from ≡ true
    → from < length d.states
    → elem from d.is_removed_ev.items ≡ false
    → Wired loose d from evs (pure_set_prev d from evs)
unfolding pure_set_prev
pure_set_prev-Wired loose d from bs rank [] v falls ranked known tied inside used = record {
  valid = v;
  same_marks = refl;
  same_names = refl;
  same_removed = refl;
  keeps = λ b x i. i;
  linked = tt;
}
pure_set_prev-Wired loose d from bs rank ((name, s) ∷ evs) v falls ranked
      ((pe, found, ahead), known) tied inside used =
    let n = v.names name pe found in
    let v₁ =
      add_link-InvBut loose d from pe s v rank falls (ranked pe ahead) tied inside n.inside used
        n.in_use in
    let falls₁ =
      add_link-Falls d from pe s (length d.states) v.linked inside n.inside rank falls
        (ranked pe ahead) in
    let w =
      pure_set_prev-Wired loose (add_link d from pe s) from bs rank evs v₁ falls₁ ranked known tied
        inside used in
    rw (new_event-known d name pe found) (record {
      valid = w.valid;
      same_marks = w.same_marks;
      same_names = w.same_names;
      same_removed = w.same_removed;
      keeps = λ b x i. w.keeps b x (
          ground (
            arith,
            elem-add_link_prev d from pe s (length d.states) v.linked inside n.inside b from x,
          ));
      linked = (
        (
          pe,
          ap (lookup name) w.same_names ∙ found,
          w.keeps s pe (
              ground (
                arith,
                elem-add_link_prev d from pe s (length d.states) v.linked inside n.inside s from pe,
              )),
        ),
        w.linked,
      );
    })
