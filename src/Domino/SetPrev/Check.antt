-- ===== src/Domino/SetPrev/Check.antt =====
-- The check of `setPrev` in domino/Domino.cpp for loops and for links that conflict.
use domino_library.Prelude.{
  ◌⊎◌, some-injective, sym, ap, refl, ℕ, ◌≡◌, ◌∙◌, ap, inl, inr, Bool, true, false, not, String,
  List, [], ◌∷◌, some, arith, lookup, string_eq, elem, Bool-cases,
}
use domino_library.Domino.Links.{branch, find_peer_evs}
use domino_library.Domino.State.{Domino, SimuEvents, new_event}
use domino_library.Domino.Ops.{validate}
use domino_library.Domino.Search.Bits.{marked}
use domino_library.Domino.Inv.{InvBut}
use domino_library.Domino.Inv.Extend.{Extends, Extends-refl, Extends-trans}
use domino_library.Domino.Inv.NewEvent.{new_event-Fresh}

-- A predecessor that may be linked: it is there, it does not follow from `from`, and it is no
-- predecessor for the other state.
pub record IsClear (d : Domino) (from : ℕ) (bs : List Bool) (name : String) (s : Bool)
    : Type 0 where
  pub ev : ℕ
  pub found : lookup name d.en_ev ≡ some ev
  pub ahead : marked bs ev ≡ false
  pub apart : elem ev (find_peer_evs from (branch (not s) d.prev)) ≡ false

abbrev pub Cleared : Domino → ℕ → List Bool → SimuEvents → Type 0
Cleared d from bs [] = Unit
Cleared d from bs ((name, s) ∷ evs) = IsClear d from bs name s × Cleared d from bs evs

IsClear-Extends :
    (d d' : Domino) (from : ℕ) (bs : List Bool) (name : String) (s : Bool)
    → Extends d d'
    → IsClear d from bs name s
    → IsClear d' from bs name s
IsClear-Extends d d' from bs name s x c = record {
  ev = c.ev;
  found = x.keeps_names name c.ev c.found;
  ahead = c.ahead;
  apart = ap (elem c.ev) (x.same_prev (not s) from) ∙ c.apart;
}

-- What the check leaves: more events at most.
pub record Checked (loose : ℕ → Bool) (d : Domino) (from : ℕ) (bs : List Bool) (evs : SimuEvents)
    (r : Domino × Bool) : Type 0 where
  pub extends : Extends d r.0
  pub valid : InvBut loose r.0
  pub cleared : r.1 ≡ true → Cleared r.0 from bs evs

pub validate-Checked :
    {loose : ℕ → Bool} (d : Domino) (from : ℕ) (bs : List Bool) (evs : SimuEvents)
    → InvBut loose d
    → Checked loose d from bs evs (validate d from bs evs)
unfolding validate
validate-Checked d from bs [] v = record { extends = Extends-refl d; valid = v; cleared = λ _. tt }
validate-Checked d from bs ((name, s) ∷ evs) v =
    let r = new_event d name in
    let f = new_event-Fresh d name v in
    let c = validate-Checked r.0 from bs evs f.valid in
    elim (Bool-cases (marked bs r.1)) [
      | inl loop ↦
          rw loop
            (record { extends = f.extends; valid = f.valid; cleared = λ no. absurd (ground arith) })
      | inr ahead ↦ elim (Bool-cases (elem r.1 (find_peer_evs from (branch (not s) r.0.prev)))) [
        | inl conflict ↦
            rw (ahead, conflict)
              (record {
                extends = f.extends;
                valid = f.valid;
                cleared = λ no. absurd (ground arith);
              })
        | inr apart ↦
            rw (ahead, apart)
              (record {
                extends = Extends-trans f.extends c.extends;
                valid = c.valid;
                cleared = λ ok. (
                  IsClear-Extends r.0 _ from bs name s c.extends
                      (record { ev = r.1; found = f.found; ahead = ahead; apart = apart }),
                  c.cleared ok,
                );
              })
      ]
    ]

-- The name is one of these.
abbrev pub Asks : String → SimuEvents → Type 0
Asks name [] = ⊥
Asks name ((j, s) ∷ evs) = (j ≡ name) ⊎ Asks name evs

-- An event that follows from `from` fails the check.
pub validate_loop :
    {loose : ℕ → Bool} (d : Domino) (from : ℕ) (bs : List Bool) (evs : SimuEvents) (name : String)
    (e : ℕ)
    → InvBut loose d
    → lookup name d.en_ev ≡ some e
    → marked bs e ≡ true
    → Asks name evs
    → (validate d from bs evs).1 ≡ false
unfolding validate
validate_loop d from bs [] name e v found loop asks = absurd asks
validate_loop d from bs ((j, s) ∷ evs) name e v found loop asks =
    let r = new_event d j in
    let f = new_event-Fresh d j v in
    elim (Bool-cases (marked bs r.1)) [
      | inl m ↦ rw m refl
      | inr ahead ↦ elim (Bool-cases (elem r.1 (find_peer_evs from (branch (not s) r.0.prev)))) [
        | inl conflict ↦ rw (ahead, conflict) refl
        | inr apart ↦ elim asks [
          | inl same ↦
              let known : lookup j r.0.en_ev ≡ some e =
                ap (λ k. lookup k r.0.en_ev) same ∙ f.extends.keeps_names name e found in
              ground (arith, some-injective r.1 e (sym f.found ∙ known))
          | inr later ↦
              rw (ahead, apart)
                (validate_loop r.0 from bs evs name e f.valid (f.extends.keeps_names name e found)
                  loop later)
        ]
      ]
    ]
