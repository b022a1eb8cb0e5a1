-- ===== src/Domino/SetState/Assign.antt =====
-- The loop of `setState` in domino/Domino.cpp that sets all the states before any is deduced.
use domino_library.Prelude.{
  ℕ, ◌≡◌, ◌≢◌, ◌<◌, refl, sym, ◌∙◌, ap, subst, inl, inr, Bool, true, false, ◌||◌, ◌&&◌, String,
  List, [], ◌∷◌, ◌++◌, some, arith, lookup, string_eq, length, elem, elem-append, Bool-cases,
}
use domino_library.Domino.Links.{Branches, branch, find_peer_evs, has_prev}
use domino_library.Domino.Marks.{Marks, state, pure_set_state_ok}
use domino_library.Domino.Deduce.Round.{state-pure_set_ne, length-pure_set, pure_set-same}
use domino_library.Domino.Deduce.Settle.{IsSettled, deduced_eq}
use domino_library.Domino.Deduce.Track.{Raised, pure_set-Raised}
use domino_library.Domino.State.{Domino, SimuEvents, get_event_by, new_event}
use domino_library.Domino.Ops.{are_free, set_states, nexts_of}
use domino_library.Domino.Search.{follows}
use domino_library.Domino.Inv.{InvBut, InvBut-weaken}
use domino_library.Domino.Inv.Extend.{SameLinks, has_prev-same}
use domino_library.Domino.Inv.NewEvent.{Fresh, new_event-Fresh}

-- The events that these names have already have no predecessor.
abbrev pub Free : Domino → SimuEvents → Type 0
Free d [] = Unit {0}
Free d ((name, s) ∷ evs) =
    ((e : ℕ) → lookup name d.en_ev ≡ some e → has_prev d.prev e ≡ false) × Free d evs

pub are_free-Free : (d : Domino) (evs : SimuEvents) → are_free d evs ≡ true → Free d evs
unfolding are_free get_event_by
are_free-Free d [] h = tt
are_free-Free d ((name, s) ∷ evs) h = (λ e found. ground arith, are_free-Free d evs (ground arith))

no_prev-has_prev :
    (prev : Branches) (e : ℕ)
    → ((b : Bool) → find_peer_evs e (branch b prev) ≡ [])
    → has_prev prev e ≡ false
no_prev-has_prev prev e h = rw (h true, h false) refl

-- The event of a name that is free, and `newEvent` leaves the other names free.
pub new_event-free :
    {loose : ℕ → Bool} (d : Domino) (name : String) (r : Domino × ℕ)
    → Fresh loose d name r
    → ((e : ℕ) → lookup name d.en_ev ≡ some e → has_prev d.prev e ≡ false)
    → has_prev r.0.prev r.1 ≡ false
new_event-free d name r f free =
    has_prev-same d.prev r.0.prev r.1 f.extends.same_prev ∙ elim f.origin [
      | inl old ↦ free r.1 old
      | inr spare ↦ no_prev-has_prev d.prev r.1 spare.no_prev
    ]

pub Free-new_event :
    {loose : ℕ → Bool} (d : Domino) (name : String) (r : Domino × ℕ) (evs : SimuEvents)
    → Fresh loose d name r
    → has_prev r.0.prev r.1 ≡ false
    → Free d evs
    → Free r.0 evs
Free-new_event d name r [] f free all = tt
Free-new_event d name r ((j, s) ∷ evs) f free (first, all) = (
  λ e found. elim (f.only j e found) [
    | inl old ↦ has_prev-same d.prev r.0.prev e f.extends.same_prev ∙ first e old
    | inr same ↦ ap (has_prev r.0.prev) same ∙ free
  ],
  Free-new_event d name r evs f free all,
)

-- A state that no predecessor decides is set: only the successors may disagree now.
abbrev pub spread : (ℕ → Bool) → Domino → ℕ → Bool → ℕ → Bool
spread loose d ev changed e = loose e || (changed && follows d.next e ev)

abbrev pub assign : Domino → ℕ → Bool → Domino
assign d ev s = record d { marks = (pure_set_state_ok d.marks ev s).0 }

assign-IsSettled :
    (loose : ℕ → Bool) (d : Domino) (ev : ℕ) (s : Bool)
    → InvBut loose d
    → has_prev d.prev ev ≡ false
    → (e : ℕ) → has_prev d.prev e ≡ true
    → spread loose d ev (pure_set_state_ok d.marks ev s).1 e ≡ false
    → IsSettled d.prev d.next (assign d ev s).marks e
assign-IsSettled loose d ev s v free e h t =
    let p = pure_set_state_ok d.marks ev s in
    let others = state-pure_set_ne d.marks ev s in
    let ne : ev ≢ e = λ q. ground (arith, ap (has_prev d.prev) q) in
    let was = v.settled e h (ground arith) in
    elim (Bool-cases p.1) [
      | inl changed ↦
          let away : (b : Bool) → elem ev (find_peer_evs e (branch b d.prev)) ≡ false = elim [
            | true ↦ ground (arith, v.linked.both true e ev)
            | false ↦ ground (arith, v.linked.both false e ev)
          ] in
          others e ne ∙ was ∙ sym (deduced_eq d.prev d.next d.marks p.0 ev e others away)
      | inr same ↦
          subst (λ m. IsSettled d.prev d.next m e) (sym (pure_set-same d.marks ev s same)) was
    ]

pub assign-InvBut :
    (loose : ℕ → Bool) (d : Domino) (ev : ℕ) (s : Bool)
    → InvBut loose d
    → has_prev d.prev ev ≡ false
    → ev < length d.states
    → elem ev d.is_removed_ev.items ≡ false
    → InvBut (spread loose d ev (pure_set_state_ok d.marks ev s).1) (assign d ev s)
assign-InvBut loose d ev s v free inside used =
    let size = length-pure_set d.marks ev s in
    let others = state-pure_set_ne d.marks ev s in
    record {
      linked = rw size v.linked;
      rank = v.rank;
      falls = v.falls;
      settled = λ e h t. assign-IsSettled loose d ev s v free e h t;
      named = v.named ∙ sym size;
      names = λ j e h.
          let n = v.names j e h in
          record { inside = omega (arith, n.inside, size); bears = n.bears; in_use = n.in_use };
      removed = λ e i.
          let b = v.removed e i in
          record {
            inside = omega (arith, b.inside, size);
            down = others e (ground arith) ∙ b.down;
            no_prev = b.no_prev;
            no_next = b.no_next;
          };
      distinct = v.distinct;
    }

pub elem-nexts_of :
    (next : Branches) (e x : ℕ) (evs : List ℕ)
    → elem e (nexts_of next (x ∷ evs)) ≡ (follows next e x || elem e (nexts_of next evs))
unfolding nexts_of
elem-nexts_of next e x evs = ground (
  arith,
  elem-append e (find_peer_evs x next.on_true) (find_peer_evs x next.on_false ++ nexts_of next evs),
  elem-append e (find_peer_evs x next.on_false) (nexts_of next evs),
)

-- What the loop does: names may be new, states are set, and only successors of the events that
-- changed may disagree with their predecessors.
pub record Assigned (loose : ℕ → Bool) (d : Domino) (r : Domino × List ℕ) : Type 0 where
  pub same_prev : SameLinks d.prev r.0.prev
  pub same_next : SameLinks d.next r.0.next
  pub keeps_names : (j : String) (e : ℕ) → lookup j d.en_ev ≡ some e → lookup j r.0.en_ev ≡ some e
  pub valid : InvBut (λ e. loose e || elem e (nexts_of r.0.next r.1)) r.0
  pub raised : (m₀ : Marks) → Raised m₀ d.marks → Raised m₀ r.0.marks

Raised-same :
    (m₀ m m' : Marks)
    → ((e : ℕ) → state m' e ≡ state m e)
    → m'.effect_evs ≡ m.effect_evs
    → Raised m₀ m
    → Raised m₀ m'
Raised-same m₀ m m' states effects r e down up =
    ap (elem e) effects ∙ r e down (sym (states e) ∙ up)

pub set_states-Assigned :
    (loose : ℕ → Bool) (d : Domino) (evs : SimuEvents)
    → InvBut loose d
    → Free d evs
    → Assigned loose d (set_states d evs)
unfolding set_states
set_states-Assigned loose d [] v free = record {
  same_prev = λ b e. refl;
  same_next = λ b e. refl;
  keeps_names = λ j e h. h;
  valid = InvBut-weaken loose _ d (λ e h. ground arith) v;
  raised = λ m₀ r. r;
}
set_states-Assigned loose d ((name, s) ∷ evs) v (first, all) =
    let (d₁, ev) = new_event d name in
    let f = new_event-Fresh d name v in
    let free = new_event-free d name (new_event d name) f first in
    let n = f.valid.names name ev f.found in
    let p = pure_set_state_ok d₁.marks ev s in
    let a =
      set_states-Assigned (spread loose d₁ ev p.1) (assign d₁ ev s) evs
        (assign-InvBut loose d₁ ev s f.valid free n.inside n.in_use)
        (Free-new_event d name (new_event d name) evs f free all) in
    let q = set_states (assign d₁ ev s) evs in
    record {
      same_prev = λ b e. a.same_prev b e ∙ f.extends.same_prev b e;
      same_next = λ b e. a.same_next b e ∙ f.extends.same_next b e;
      keeps_names = λ j e h. a.keeps_names j e (f.extends.keeps_names j e h);
      valid =
          InvBut-weaken _ _ q.0
            (λ e h.
              ground
                (arith, elem-nexts_of q.0.next e ev q.1, a.same_next true ev, a.same_next false ev))
            a.valid;
      raised = λ m₀ r. a.raised m₀ (
          pure_set-Raised m₀ d₁.marks ev s
            (Raised-same m₀ d.marks d₁.marks f.extends.same_states f.extends.same_effects r));
    }
