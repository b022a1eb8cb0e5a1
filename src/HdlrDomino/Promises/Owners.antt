-- ===== src/HdlrDomino/Promises/Owners.antt =====
-- Which handlers are ever called, whatever is called between.
use domino_library.Prelude.{
  ℕ, ◌≡◌, ◌<◌, refl, sym, ◌∙◌, ap, subst, inl, inr, Bool, true, false, String, List, [], ◌∷◌, none,
  some, some-injective, arith, elem, Bool-cases, string_eq, >>=-eq-some,
}
use domino_library.Domino.State.{get_event_by, new_event}
use domino_library.HdlrDomino.State.{Msg, HdlrDomino, hdlr_of, has_hdlr, own, in_table, alive}
use domino_library.HdlrDomino.Hdlr.{
  rm_one_hdlr_ok, rm_hdlr_at, rm_shared, set_linked_hdlr, set_state_hdlr, set_prev_hdlr,
}
use domino_library.HdlrDomino.Calls.{rm_ev_ok_hdlr, cb_hdlr}
use domino_library.HdlrDomino.Own.{Owned, Kept, Kept-trans, Kept-aside}
use domino_library.HdlrDomino.Tables.{own-in_table}
use domino_library.HdlrDomino.Keep.{Kept-refl, rm_hdlr_at-Kept}
use domino_library.HdlrDomino.Added.{set_hdlr-Kept, multi_hdlr_on_same_ev-Kept}
use domino_library.HdlrDomino.Lasting.{
  rm_one_hdlr_ok-Kept, rm_all_hdlr-Kept, rm_named_hdlr_ok-Kept, repeated_hdlr-Kept,
  set_priority-Kept, force_all_hdlr-Kept, set_state_hdlr-Kept, set_prev_hdlr-Kept,
  rm_ev_ok_hdlr-Kept, set_linked_hdlr-Kept,
}
use domino_library.HdlrDomino.Locked.{cb_hdlr-Kept, end_hdlr-Kept}
use domino_library.HdlrDomino.Gone.{gone-out, hdlr-own, rm_hdlr_at-out, rm_shared-out}
use domino_library.HdlrDomino.Session.{
  Call, new_event_call, set_hdlr_call, multi_hdlr_call, linked_hdlr_call, rm_one_call, rm_all_call,
  force_all_call, rm_ev_call, rm_named_call, repeated_call, priority_call, set_state_call,
  set_prev_call, message_call, end_call, do_call, do_calls,
}

module _ {ℓ} {C : Type ℓ} (has_free : Bool) (fuel : ℕ) where
  returned : (t t' t'' : HdlrDomino C) → Kept t t' → some t' ≡ some t'' → Kept t t''
  returned t t' t'' k e = subst (Kept t) (some-injective _ _ e) k

  do_call-Kept :
      (t t' : HdlrDomino C) (c : Call C) → do_call has_free fuel t c ≡ some t' → Kept t t'
  unfolding do_call
  do_call-Kept t t' (new_event_call name) e =
      returned t _ t'
        (Kept-aside t (record t { dom = (new_event t.dom name).0 }) refl refl refl refl) e
  do_call-Kept t t' (set_hdlr_call name cb) e = returned t _ t' (set_hdlr-Kept has_free t name cb) e
  do_call-Kept t t' (multi_hdlr_call name cb hdlr_name) e =
      returned t _ t' (multi_hdlr_on_same_ev-Kept has_free t name cb hdlr_name) e
  do_call-Kept t t' (linked_hdlr_call new_en cb trigger_en) e =
      let (r, f, g) = >>=-eq-some (set_linked_hdlr has_free fuel t new_en cb trigger_en) _ e in
      returned t r.0 t' (set_linked_hdlr-Kept has_free fuel t new_en cb trigger_en r f) g
  do_call-Kept t t' (rm_one_call name) e = returned t _ t' (rm_one_hdlr_ok-Kept t name) e
  do_call-Kept t t' (rm_all_call name) e = returned t _ t' (rm_all_hdlr-Kept t name) e
  do_call-Kept t t' (force_all_call name) e =
      returned t _ t' (force_all_hdlr-Kept has_free fuel t name) e
  do_call-Kept t t' (rm_ev_call name) e =
      let (r, f, g) = >>=-eq-some (rm_ev_ok_hdlr has_free fuel t name) _ e in
      returned t r.0 t' (rm_ev_ok_hdlr-Kept has_free fuel t name r f) g
  do_call-Kept t t' (rm_named_call name hdlr_name) e =
      returned t _ t' (rm_named_hdlr_ok-Kept t name hdlr_name) e
  do_call-Kept t t' (repeated_call name is_repeated) e =
      returned t _ t' (repeated_hdlr-Kept t name is_repeated) e
  do_call-Kept t t' (priority_call name pri) e = returned t _ t' (set_priority-Kept t name pri) e
  do_call-Kept t t' (set_state_call evs) e =
      let (r, f, g) = >>=-eq-some (set_state_hdlr has_free fuel t evs) _ e in
      returned t r.0 t' (set_state_hdlr-Kept has_free fuel t evs r f) g
  do_call-Kept t t' (set_prev_call name evs) e =
      let (r, f, g) = >>=-eq-some (set_prev_hdlr has_free fuel t name evs) _ e in
      returned t r.0 t' (set_prev_hdlr-Kept has_free fuel t name evs r f) g
  do_call-Kept t t' (message_call m) e = returned t _ t' (cb_hdlr-Kept t m) e
  do_call-Kept t t' end_call e = returned t _ t' (end_hdlr-Kept t) e

  do_calls-Kept :
      (t t' : HdlrDomino C) (cs : List (Call C)) → do_calls has_free fuel t cs ≡ some t' → Kept t t'
  unfolding do_calls
  do_calls-Kept t t' [] e = returned t t t' (Kept-refl t) e
  do_calls-Kept t t' (c ∷ cs) e =
      let (t₁, f, g) = >>=-eq-some (do_call has_free fuel t c) _ e in
      Kept-trans (do_call-Kept t t₁ c f) (do_calls-Kept t₁ t' cs g)

  -- After any calls, each handler in the tables still belongs to one event, stands in one place
  -- there, and is one that MAKE_PTR made, if that was so before.
  pub do_calls-Owned :
      (t t' : HdlrDomino C) (cs : List (Call C))
      → Owned t
      → do_calls has_free fuel t cs ≡ some t'
      → Owned t'
  do_calls-Owned t t' cs o e = (do_calls-Kept t t' cs e).owned o

  -- Neither a table nor a running `cb_hdlr_` owns it.
  no_owner :
      (t : HdlrDomino C) (id : ℕ)
      → in_table t id ≡ false
      → elem id t.running ≡ false
      → alive t id ≡ false
  unfolding alive
  no_owner t id out idle = ground arith

  owned_alive : (t : HdlrDomino C) (ev id : ℕ) → elem id (own t ev) ≡ true → alive t id ≡ true
  unfolding alive
  owned_alive t ev id i = ground (arith, own-in_table t id ev i)

  silent : (t : HdlrDomino C) (m : Msg C) → alive t m.weak.id ≡ false → (cb_hdlr t m).1 ≡ none
  unfolding cb_hdlr
  silent t m dead = rw (cb_hdlr, dead) refl

  -- A handler that nothing owns is never called again: after any calls, a message with a weak
  -- pointer to it calls nothing.
  dead_stays_dead :
      (t t' : HdlrDomino C) (cs : List (Call C)) (m : Msg C)
      → m.weak.id < t.next_id
      → alive t m.weak.id ≡ false
      → do_calls has_free fuel t cs ≡ some t'
      → (cb_hdlr t' m).1 ≡ none
  dead_stays_dead t t' cs m made dead e = silent t' m (elim (Bool-cases (alive t' m.weak.id)) [
    | inl there ↦
        let was = (do_calls-Kept t t' cs e).woken m.weak.id made there in ground (arith, was, dead)
    | inr gone ↦ gone
  ])

  running-rm_hdlr_at : (t : HdlrDomino C) (ev : ℕ) → (rm_hdlr_at t ev).0.running ≡ t.running
  unfolding rm_hdlr_at
  running-rm_hdlr_at t ev = elim (Bool-cases (has_hdlr t ev)) [
    | inl there ↦ rw (rm_hdlr_at, there) refl
    | inr empty ↦ rw (rm_hdlr_at, empty) refl
  ]

  -- Messages on the road are withdrawn: if each handler in the tables belongs to one event and one
  -- place, then after `rmOneHdlrOK` of the name of an event that has the handler, when no callback of
  -- this handler is running, and after any calls and messages then, a message with this handler calls
  -- nothing.
  pub withdrawn :
      (t t' : HdlrDomino C) (name : String) (ev : ℕ) (m : Msg C) (cs : List (Call C))
      → Owned t
      → get_event_by t.dom name ≡ some ev
      → hdlr_of t ev ≡ some m.weak
      → elem m.weak.id t.running ≡ false
      → do_calls has_free fuel (rm_one_hdlr_ok t name).0 cs ≡ some t'
      → (cb_hdlr t' m).1 ≡ none
  unfolding rm_one_hdlr_ok
  withdrawn t t' name ev m cs o found there idle e =
      let t₁ = (rm_hdlr_at t ev).0 in
      let first : (rm_one_hdlr_ok t name).0 ≡ t₁ = rw (rm_one_hdlr_ok, found) refl in
      let k = rm_hdlr_at-Kept t ev in
      let was = hdlr-own t ev m.weak there in
      let out =
        gone-out t t₁ ev m.weak.id o k was (rm_hdlr_at-out t ev m.weak (o.distinct ev) there) in
      let idle₁ = ap (elem m.weak.id) (running-rm_hdlr_at t ev) ∙ idle in
      let made = o.made ev m.weak.id was in
      dead_stays_dead t₁ t' cs m (omega (arith, made, k.more)) (no_owner t₁ m.weak.id out idle₁)
        (ap (λ x. do_calls has_free fuel x cs) (sym first) ∙ e)

  -- A handler that is not repeated is not called again: if each handler in the tables belongs to one
  -- event and one place, a message of FreeHdlrDomino calls its handler when its event owns it, and
  -- then, when after whatever the callback and others do none of its callbacks is running any more,
  -- no message with this handler calls anything, after any further calls and messages.
  pub freed_once :
      (t t₁ t' : HdlrDomino C) (m m' : Msg C) (body cs : List (Call C))
      → Owned t
      → m.frees ≡ true
      → elem m.weak.id (own t m.ev) ≡ true
      → m'.weak.id ≡ m.weak.id
      → do_calls has_free fuel (cb_hdlr t m).0 body ≡ some t₁
      → elem m.weak.id t₁.running ≡ false
      → do_calls has_free fuel t₁ cs ≡ some t'
      → ((cb_hdlr t m).1 ≡ some m.weak.cb) × ((cb_hdlr t' m').1 ≡ none)
  unfolding cb_hdlr
  freed_once t t₁ t' m m' body cs o frees was same e idle e' =
      let u = (rm_shared t m.ev m.weak).0 in
      let there = owned_alive t m.ev m.weak.id was in
      let u' : HdlrDomino C = record u { running = m.weak.id ∷ u.running } in
      let first : (cb_hdlr t m).0 ≡ u' = rw (cb_hdlr, there) (rw frees refl) in
      let k₁ = cb_hdlr-Kept t m in
      let k₂ = do_calls-Kept (cb_hdlr t m).0 t₁ body e in
      let left = rm_shared-out t m.ev m.weak (o.distinct m.ev) was in
      let left' : elem m.weak.id (own (cb_hdlr t m).0 m.ev) ≡ false =
        ap (λ x. elem m.weak.id (own x m.ev)) first ∙ unfold own in left in
      let made = o.made m.ev m.weak.id was in
      let out : elem m.weak.id (own t₁ m.ev) ≡ false =
        elim (Bool-cases (elem m.weak.id (own t₁ m.ev))) [
          | inl i ↦ ground (arith, k₂.kept m.ev m.weak.id i (omega (arith, made, k₁.more)), left')
          | inr gone ↦ gone
        ] in
      let out₁ = gone-out t t₁ m.ev m.weak.id o (Kept-trans k₁ k₂) was out in
      (
        rw (cb_hdlr, there) refl,
        dead_stays_dead t₁ t' cs m' (omega (arith, made, k₁.more, k₂.more, same))
            (ap (alive t₁) same ∙ no_owner t₁ m.weak.id out₁ idle) e',
      )
