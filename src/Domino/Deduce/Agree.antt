-- ===== src/Domino/Deduce/Agree.antt =====
-- `deduceStateSelf_` of domino/Domino.cpp looks at the predecessors of the event and at their states.
use domino_library.Prelude.{ℕ, ◌≡◌, refl, Bool, true, false, List, [], ◌∷◌, arith, elem}
use domino_library.Domino.Links.{Branches, branch, find_peer_evs}
use domino_library.Domino.Marks.{Marks, state, all_have, deduced}

all_have_on :
    (type : Bool) (m m' : Marks) (evs : List ℕ)
    → ((v : ℕ) → elem v evs ≡ true → state m' v ≡ state m v)
    → all_have type m' evs ≡ all_have type m evs
unfolding all_have
all_have_on type m m' [] same = refl
all_have_on type m m' (x ∷ evs) same =
    ground (arith, same x (ground arith), all_have_on type m m' evs (λ v i. same v (ground arith)))

pub deduced_on :
    (prev next prev' next' : Branches) (m m' : Marks) (e : ℕ)
    → ((b : Bool) → find_peer_evs e (branch b prev') ≡ find_peer_evs e (branch b prev))
    → ((b : Bool) (v : ℕ)
        → elem v (find_peer_evs e (branch b prev)) ≡ true
        → state m' v ≡ state m v)
    → deduced prev' next' m' e ≡ deduced prev next m e
unfolding deduced
deduced_on prev next prev' next' m m' e links same =
    rw
      (
        links true,
        links false,
        all_have_on true m m' (find_peer_evs e prev.on_true) (same true),
        all_have_on false m m' (find_peer_evs e prev.on_false) (same false),
      )
      refl
