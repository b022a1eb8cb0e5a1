-- ===== src/MtInQueue/Handle.antt =====
-- Which elements `handleAllEle` of thread/MtInQueue.cpp handles, in which order.
use domino_library.Prelude.{
  ℕ, ◌+◌, ◌≡◌, ◌≤◌, ◌<◌, refl, sym, ◌∙◌, ap, inl, inr, true, false, List, [], ◌∷◌, ◌++◌,
  append_assoc, append-nil, none, some, if◌then◌else◌, ltb, length, arith, Bool-cases, Option-cases,
  lookup, nat_eq,
}
use domino_library.MtInQueue.{
  EleTid, MtInQueue, Push, mt_push_ok, push_each, handle_ele, handle_rounds, handle_cache_ele,
  handle_all_ele,
}

-- The elements of which `mt_pushOK` takes hold, in order
unfoldable pub taken {ℓ} : {E : Type ℓ} → List (Push E) → List (EleTid E)
taken [] = []
taken ((none, (use_count, tid)) ∷ ps) = taken ps
taken ((some ele, (use_count, tid)) ∷ ps) =
    if ltb 1 use_count then taken ps else (ele, tid) ∷ taken ps

module _ {ℓ κ} {E : Type ℓ} {H : Type κ} where
  -- The queue after pushes and calls of handlers: the handlers and the cache stay.
  record Pushed (q q' : MtInQueue E H) (eles : List (EleTid E)) : Type (ℓ ⊔ κ) where
    same_cache : q'.cache ≡ q.cache
    same_hdlrs : q'.hdlrs ≡ q.hdlrs
    longer : q'.queue ≡ q.queue ++ eles
    pinged : q.pings ≤ q'.pings

  push_each-Pushed : (q : MtInQueue E H) (ps : List (Push E)) → Pushed q (push_each q ps) (taken ps)
  unfolding push_each taken mt_push_ok
  push_each-Pushed q [] = record {
    same_cache = refl;
    same_hdlrs = refl;
    longer = sym (append-nil q.queue);
    pinged = omega arith;
  }
  push_each-Pushed q ((none, (use_count, tid)) ∷ ps) = push_each-Pushed q ps
  push_each-Pushed q ((some ele, (use_count, tid)) ∷ ps) = elim (Bool-cases (ltb 1 use_count)) [
    | inl shared ↦ rw (push_each, taken, mt_push_ok, shared) (push_each-Pushed q ps)
    | inr own ↦
        let q' = record q { queue = q.queue ++ (ele, tid) ∷ []; pings = q.pings + 1 } in
        let p = push_each-Pushed q' ps in
        rw (push_each, taken, mt_push_ok, own)
          (record {
            same_cache = p.same_cache;
            same_hdlrs = p.same_hdlrs;
            longer = p.longer ∙ append_assoc q.queue ((ele, tid) ∷ []) (taken ps);
            pinged = omega (arith, p.pinged);
          })
  ]

  module _ {ι} {W : Type ι} (run : H → E → W → W × List (Push E)) (hdlrs : List (ℕ × H)) where
    -- The reference: each element is given to the handler of its type, in order; the second part
    -- is what is pushed meanwhile.
    unfoldable pub call_of : W → EleTid E → W × List (EleTid E)
    unfolding lookup taken
    call_of w ele = elim (lookup ele.1 hdlrs) [
      | none ↦ (w, [])
      | some hdlr ↦ ((run hdlr ele.0 w).0, taken (run hdlr ele.0 w).1)
    ]

    unfoldable pub calls_of : List (EleTid E) → W → W × List (EleTid E)
    unfolding call_of
    calls_of [] w = (w, [])
    calls_of (ele ∷ eles) w =
        let (w', pushed) = call_of w ele in
        let (w'', later) = calls_of eles w' in (w'', pushed ++ later)

    handle_ele-Pushed :
        (q : MtInQueue E H) (w : W) (ele : EleTid E)
        → q.hdlrs ≡ hdlrs
        → Pushed q (handle_ele run q w ele).0 (call_of w ele).1
          × ((handle_ele run q w ele).1 ≡ (call_of w ele).0)
    unfolding handle_ele call_of
    handle_ele-Pushed q w ele same = elim (Option-cases (lookup ele.1 hdlrs)) [
      | inl free ↦
          let free' = ap (lookup ele.1) same ∙ free in
          rw (handle_ele, free', call_of, free) (push_each-Pushed q [], refl)
      | inr (hdlr, there) ↦
          let there' = ap (lookup ele.1) same ∙ there in
          rw (handle_ele, there', call_of, there) (push_each-Pushed q (run hdlr ele.0 w).1, refl)
    ]

    handle_rounds-Pushed :
        (eles : List (EleTid E)) (q : MtInQueue E H) (w : W)
        → q.hdlrs ≡ hdlrs
        → Pushed (record q { cache = [] }) (handle_rounds run eles q w).0 (calls_of eles w).1
          × ((handle_rounds run eles q w).1 ≡ (calls_of eles w).0)
    unfolding handle_rounds calls_of push_each taken
    handle_rounds-Pushed [] q w same = (push_each-Pushed (record q { cache = [] }) [], refl)
    handle_rounds-Pushed (ele ∷ eles) q w same =
        let q₀ = record q { cache = eles } in
        let (one, world) = handle_ele-Pushed q₀ w ele same in
        let q₁ = (handle_ele run q₀ w ele).0 in
        let w₁ = (handle_ele run q₀ w ele).1 in
        let (rest, world') = handle_rounds-Pushed eles q₁ w₁ (one.same_hdlrs ∙ same) in
        let pushed = ap (λ x. (call_of w ele).1 ++ (calls_of eles x).1) world in
        (
          record {
            same_cache = rest.same_cache;
            same_hdlrs = rest.same_hdlrs ∙ one.same_hdlrs;
            longer =
                rest.longer
                ∙ ap (λ x. x ++ (calls_of eles w₁).1) one.longer
                ∙ append_assoc q.queue (call_of w ele).1 (calls_of eles w₁).1
                ∙ ap (λ x. q.queue ++ x) pushed;
            pinged = omega (arith, one.pinged, rest.pinged);
          },
          world' ∙ ap (λ x. (calls_of eles x).0) world,
        )

  module _ {ι} {W : Type ι} (run : H → E → W → W × List (Push E)) where
    handle_cache-Pushed :
        (q : MtInQueue E H) (w : W)
        → Pushed
            (record q { cache = [] })
            (handle_cache_ele run q w).0
            (calls_of run q.hdlrs q.cache w).1
          × ((handle_cache_ele run q w).1.0 ≡ (calls_of run q.hdlrs q.cache w).0)
    unfolding handle_cache_ele
    handle_cache-Pushed q w = handle_rounds-Pushed run q.hdlrs q.cache q w refl

    -- `handleAllEle` in the main thread, for any handlers and whatever they push: with the lock, it
    -- calls the handlers for the cache, then for the queue and what was pushed meanwhile, in order;
    -- what is pushed during the second part waits. Without the lock it calls them for the cache
    -- only, the queue waits with what was pushed, and the main thread is pinged again. The answer is
    -- the number of elements handled.
    pub handle_all_ele_lem :
        (q : MtInQueue E H) (w : W) (first second : W × List (EleTid E))
        → calls_of run q.hdlrs q.cache w ≡ first
        → calls_of run q.hdlrs (q.queue ++ first.1) first.0 ≡ second
        → ((handle_all_ele run q w true true).0.cache ≡ [])
          × ((handle_all_ele run q w true true).0.queue ≡ second.1)
          × ((handle_all_ele run q w true true).1.0 ≡ second.0)
          × ((handle_all_ele run q w true true).1.1 ≡ length q.cache + length (q.queue ++ first.1))
          × ((handle_all_ele run q w true false).0.cache ≡ [])
          × ((handle_all_ele run q w true false).0.queue ≡ q.queue ++ first.1)
          × ((handle_all_ele run q w true false).1.0 ≡ first.0)
          × ((handle_all_ele run q w true false).1.1 ≡ length q.cache)
          × (q.pings < (handle_all_ele run q w true false).0.pings)
    unfolding handle_all_ele handle_cache_ele
    handle_all_ele_lem q w first second is_first is_second =
        let (one, world) = handle_cache-Pushed q w in
        let q₁ = (handle_cache_ele run q w).0 in
        let w₁ = (handle_cache_ele run q w).1.0 in
        let q₂ = record q₁ { queue = q₁.cache; cache = q₁.queue } in
        let (two, world') = handle_cache-Pushed q₂ w₁ in
        let worlds = world ∙ ap (λ x. x.0) is_first in
        let left = one.longer ∙ ap (λ x. q.queue ++ x.1) is_first in
        let later =
          ap (λ h. calls_of run h q₁.queue w₁) one.same_hdlrs
          ∙ ap (λ c. calls_of run q.hdlrs c w₁) left
          ∙ ap (calls_of run q.hdlrs (q.queue ++ first.1)) worlds
          ∙ is_second in
        (
          two.same_cache,
          two.longer
              ∙ ap (λ c. c ++ (calls_of run q₁.hdlrs q₁.queue w₁).1) one.same_cache
              ∙ ap (λ x. x.1) later,
          world' ∙ ap (λ x. x.0) later,
          ap (λ x. length q.cache + length x) left,
          one.same_cache,
          left,
          worlds,
          refl,
          omega (arith, one.pinged),
        )
