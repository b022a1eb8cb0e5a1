-- ===== src/Domino/Inv.antt =====
-- The invariant of a domino between two calls (domino/Domino.hpp, domino/RmEvDom.hpp).
pub mod Extend
pub mod Bear
pub mod NewEvent
pub mod AddLink
use domino_library.Prelude.{
  ℕ, ◌≡◌, ◌<◌, Bool, true, false, String, List, [], Option, some, lookup, string_eq, length, get_or,
  elem, Distinct,
}
use domino_library.Domino.Links.{Branches, branch, find_peer_evs, has_prev, Mutual, Falls, Within}
use domino_library.Domino.Marks.{Marks, state}
use domino_library.Domino.Deduce.Settle.{IsSettled}
use domino_library.Domino.State.{Domino}

-- The links of `n` events: a slot for each, each link at both ends, none twice.
pub record Linked (n : ℕ) (prev next : Branches) : Type 0 where
  pub sized_prev : (b : Bool) → length (branch b prev) ≡ n
  pub sized_next : (b : Bool) → length (branch b next) ≡ n
  pub both : Mutual prev next
  pub within : Within n next
  pub distinct_prev : (b : Bool) (e : ℕ) → Distinct (find_peer_evs e (branch b prev))
  pub distinct_next : (b : Bool) (e : ℕ) → Distinct (find_peer_evs e (branch b next))

-- A removed event keeps its slot: it is down, and nothing is linked to it.
pub record IsBlank (d : Domino) (e : ℕ) : Type 0 where
  pub inside : e < length d.states
  pub down : state d.marks e ≡ false
  pub no_prev : (b : Bool) → find_peer_evs e (branch b d.prev) ≡ []
  pub no_next : (b : Bool) → find_peer_evs e (branch b d.next) ≡ []

-- What a name stands for: an event in use, which bears that name.
pub record Denotes (d : Domino) (name : String) (e : ℕ) : Type 0 where
  pub inside : e < length d.states
  pub bears : get_or d.ev_en e "" ≡ name
  pub in_use : elem e d.is_removed_ev.items ≡ false

-- The invariant, but that the events of `loose` may disagree with their predecessors.
pub record InvBut (loose : ℕ → Bool) (d : Domino) : Type 0 where
  pub linked : Linked (length d.states) d.prev d.next
  pub rank : ℕ → ℕ
  pub falls : Falls rank d.next
  pub settled :
      (e : ℕ) → has_prev d.prev e ≡ true → loose e ≡ false → IsSettled d.prev d.next d.marks e
  pub named : length d.ev_en ≡ length d.states
  pub names : (name : String) (e : ℕ) → lookup name d.en_ev ≡ some e → Denotes d name e
  pub removed : (e : ℕ) → elem e d.is_removed_ev.items ≡ true → IsBlank d e
  pub distinct : Distinct d.is_removed_ev.items

-- Between two calls no event is loose, and no effect is due.
pub record Inv (d : Domino) : Type 0 where
  pub held : InvBut (λ _. false) d
  pub open held use *
  pub idle : d.effect_evs ≡ []

pub InvBut-weaken :
    (loose loose' : ℕ → Bool) (d : Domino)
    → ((e : ℕ) → loose' e ≡ false → loose e ≡ false)
    → InvBut loose d
    → InvBut loose' d
InvBut-weaken loose loose' d wider v = record {
  linked = v.linked;
  rank = v.rank;
  falls = v.falls;
  settled = λ e h t. v.settled e h (wider e t);
  named = v.named;
  names = v.names;
  removed = v.removed;
  distinct = v.distinct;
}
