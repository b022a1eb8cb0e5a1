-- ===== src/Domino/Deduce/Round.antt =====
-- One change of a state, and what it leaves alone.
use domino_library.Prelude.{
  ℕ, ◌≡◌, ◌≢◌, ◌<◌, refl, Bool, true, false, ◌||◌, List, [], ◌∷◌, arith, elem, length, length-set,
  get_or-set_self, get_or-set_ne,
}
use domino_library.Domino.Marks.{Marks, state, pure_set_state_ok, all_have, push_all}

module _ (m : Marks) (ev : ℕ) (s : Bool) where
  pub state-pure_set_ne : (v : ℕ) → ev ≢ v → state (pure_set_state_ok m ev s).0 v ≡ state m v
  unfolding pure_set_state_ok
  state-pure_set_ne v h = ground (arith, get_or-set_ne m.states ev v s false)

  pub state-pure_set_self : ev < length m.states → state (pure_set_state_ok m ev s).0 ev ≡ s
  unfolding pure_set_state_ok
  state-pure_set_self h = ground (arith, get_or-set_self m.states ev s false)

  pub length-pure_set : length (pure_set_state_ok m ev s).0.states ≡ length m.states
  unfolding pure_set_state_ok
  length-pure_set = ground (arith, length-set m.states ev s)

  pub pure_set-same : (pure_set_state_ok m ev s).1 ≡ false → (pure_set_state_ok m ev s).0 ≡ m
  unfolding pure_set_state_ok
  pure_set-same h = ground arith

  -- The second result says whether the state differed.
  pure_set-changed : (pure_set_state_ok m ev s).1 ≡ true → state m ev ≢ s
  unfolding pure_set_state_ok
  pure_set-changed h = ground arith

-- The test reads no state but those of its list.
pub all_have_eq :
    (type : Bool) (m m' : Marks) (c : ℕ) (evs : List ℕ)
    → ((v : ℕ) → c ≢ v → state m' v ≡ state m v)
    → elem c evs ≡ false
    → all_have type m' evs ≡ all_have type m evs
unfolding all_have
all_have_eq type m m' c [] same out = refl
all_have_eq type m m' c (v ∷ evs) same out =
    ground (arith, same v, all_have_eq type m m' c evs same)

pub elem-push_all :
    (v : ℕ) (evs stack : List ℕ) → elem v (push_all evs stack) ≡ (elem v evs || elem v stack)
unfolding push_all
elem-push_all v [] stack = refl
elem-push_all v (x ∷ evs) stack = ground (arith, elem-push_all v evs (x ∷ stack))
