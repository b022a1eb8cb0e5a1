-- ===== src/WbasicDatDom/Protects.antt =====
-- Data under the write control of domino/WbasicDatDom.hpp stays through the calls without the right.
use domino_library.Prelude.{
  ℕ, ◌≡◌, sym, ◌∙◌, ap, inl, inr, Bool, true, false, String, Option, some, if◌then◌else◌, ◌>>=◌,
  ◌==◌, get_or-put, arith, Bool-cases, Option-cases, nat_eq, string_eq,
}
use domino_library.DataStore.{replace_ok}
use domino_library.DataStore.Laws.{get-replace_ok}
use domino_library.Domino.State.{Domino, get_event_by, new_event}
use domino_library.Domino.Inv.{Inv}
use domino_library.Domino.Inv.NewEvent.{new_event-Fresh}
use domino_library.Domino.Promises.NewEvent.{new_event-Inv}
use domino_library.DataDomino.{DataDomino, data_at}
use domino_library.WbasicDatDom.{
  WbasicDatDom, is_wr_ctrl_at, is_wr_ctrl, replaced, replace_data_ok, wr_ctrl_ok, Call,
  new_event_call, replace_call, wr_ctrl_call, do_call,
}

new_event-keeps :
    (d : Domino) (name other : String) (ev : ℕ)
    → Inv d
    → get_event_by d name ≡ some ev
    → get_event_by (new_event d other).0 name ≡ some ev
unfolding get_event_by
new_event-keeps d name other ev v found =
    (new_event-Fresh d other v.held).extends.keeps_names name ev found

module _ {ℓ} {D : Type ℓ} where
  -- The event of the name is under write control and has the data.
  pub record Protects (t : WbasicDatDom D) (name : String) (ev : ℕ) (x : D) : Type ℓ where
    pub valid : Inv t.base.dom
    pub found : get_event_by t.base.dom name ≡ some ev
    pub guarded : is_wr_ctrl_at t ev ≡ true
    pub has : data_at t.base ev ≡ some x

  pub data_at-replace_ok :
      (t : DataDomino D) (d : Domino) (ev other : ℕ) (data_ : Option D)
      → data_at (record { dom = d; ev_data = (replace_ok t.ev_data ev data_).0 }) other
        ≡ (if ev == other then data_ >>= some else data_at t other)
  unfolding data_at
  data_at-replace_ok t d ev other data_ = get-replace_ok some t.ev_data ev other data_

  module _ (t : WbasicDatDom D) (name : String) (ev : ℕ) (x : D) (p : Protects t name ev x) where
    moved :
        (other : String)
        → Protects
            (record t { base = record t.base { dom = (new_event t.base.dom other).0 } })
            name
            ev
            x
    unfolding data_at
    moved other = record {
      valid = new_event-Inv t.base.dom other p.valid;
      found = new_event-keeps t.base.dom name other ev p.valid p.found;
      guarded = p.guarded;
      has = p.has;
    }

    wr_ctrl_ok-Protects :
        (other : String) (new_state : Bool) → Protects (wr_ctrl_ok t other new_state).0 name ev x
    unfolding wr_ctrl_ok
    wr_ctrl_ok-Protects other new_state =
        let m = moved other in
        let r = (new_event t.base.dom other).1 in
        elim (Option-cases (data_at t.base r)) [
          | inr (y, full) ↦ rw (wr_ctrl_ok, full) m
          | inl empty ↦
              rw (wr_ctrl_ok, empty)
                (record {
                  valid = m.valid;
                  found = m.found;
                  guarded =
                      get_or-put false t.wr_ctrl r ev new_state ∙ (elim (Bool-cases (r == ev)) [
                        | inl here ↦
                            let at : r ≡ ev = ground arith in
                            ground (arith, sym empty ∙ ap (data_at t.base) at ∙ p.has)
                        | inr other_ev ↦ rw other_ev p.guarded
                      ]);
                  has = m.has;
                })
        ]

    -- An event without write control is another one, also when it is new.
    other_event :
        (other : String)
        → is_wr_ctrl t other ≡ false
        → ((new_event t.base.dom other).1 == ev) ≡ false
    unfolding is_wr_ctrl
    other_event other free = elim (Bool-cases ((new_event t.base.dom other).1 == ev)) [
      | inr apart ↦ apart
      | inl here ↦
          let f = new_event-Fresh t.base.dom other p.valid.held in
          let at : (new_event t.base.dom other).1 ≡ ev = ground arith in
          let mine =
            f.valid.names name ev
              (f.extends.keeps_names name ev (unfold get_event_by in p.found)) in
          let its = f.valid.names other ev (f.found ∙ ap some at) in
          let same : name ≡ other = sym mine.bears ∙ its.bears in
          let known : get_event_by t.base.dom other ≡ some ev =
            ap (get_event_by t.base.dom) (sym same) ∙ p.found in
          ground (arith, rw (is_wr_ctrl, known) at free, p.guarded)
    ]

    replaced-Protects :
        (other : String) (data_ : Option D)
        → is_wr_ctrl t other ≡ false
        → Protects (replaced t other data_).0 name ev x
    unfolding replaced
    replaced-Protects other data_ free =
        let m = moved other in
        let d = (new_event t.base.dom other).0 in
        let r = (new_event t.base.dom other).1 in
        record {
          valid = m.valid;
          found = m.found;
          guarded = m.guarded;
          has = data_at-replace_ok t.base d r ev data_ ∙ rw (other_event other free) p.has;
        }

    replace_data_ok-Protects :
        (other : String) (data_ : Option D) → Protects (replace_data_ok t other data_).0 name ev x
    unfolding replace_data_ok
    replace_data_ok-Protects other data_ = elim (Bool-cases (is_wr_ctrl t other)) [
      | inl guarded ↦ rw (replace_data_ok, guarded) p
      | inr free ↦ rw (replace_data_ok, free) (replaced-Protects other data_ free)
    ]

    pub do_call-Protects : (c : Call D) → Protects (do_call t c) name ev x
    unfolding do_call
    do_call-Protects (new_event_call other) = moved other
    do_call-Protects (replace_call other data_) = replace_data_ok-Protects other data_
    do_call-Protects (wr_ctrl_call other new_state) = wr_ctrl_ok-Protects other new_state
