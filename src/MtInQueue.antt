-- ===== src/MtInQueue.antt =====
-- thread/MtInQueue.hpp and thread/MtInQueue.cpp: elements from other threads to the main thread.
-- Each call is one step; what the other threads do between is the calls between. `main` is the
-- answer of `mt_reqMainTH`, `owns_lock` that of the try-lock of `mt_mutex_`.
pub mod Fifo
pub mod Handle
use domino_library.Prelude.{
  ℕ, ◌+◌, Bool, true, false, List, [], ◌∷◌, ◌++◌, Option, none, some, if◌then◌else◌, ◌==◌, ltb,
  length, lookup, nat_eq, ◌>>=◌,
}

-- ELE_TID: an element and the number of its type
abbrev pub EleTid {ℓ} : Type ℓ → Type ℓ
EleTid E = E × ℕ

-- `mt_queue_` is `queue`, `tid_hdlr_S_` is `hdlrs`; `pings` counts the calls of `mt_pingMainTH()`.
pub record MtInQueue {ℓ κ} (E : Type ℓ) (H : Type κ) : Type (ℓ ⊔ κ) where
  pub queue : List (EleTid E)
  pub cache : List (EleTid E)
  pub hdlrs : List (ℕ × H)
  pub pings : ℕ

-- What a callback pushes: arguments of `mt_pushOK`
abbrev pub Push {ℓ} : Type ℓ → Type ℓ
Push E = Option E × (ℕ × ℕ)

module _ {ℓ κ} {E : Type ℓ} {H : Type κ} where
  abbrev pub empty_queue : MtInQueue E H
  empty_queue = record { queue = []; cache = []; hdlrs = []; pings = 0 }

  -- `none` is a null pointer; an element that another pointer shares is refused.
  unfoldable pub mt_push_ok : MtInQueue E H → Option E → ℕ → ℕ → MtInQueue E H × Bool
  mt_push_ok q none use_count tid = (q, false)
  mt_push_ok q (some ele) use_count tid =
      if ltb 1 use_count
      then (q, false)
      else (record q { queue = q.queue ++ (ele, tid) ∷ []; pings = q.pings + 1 }, true)

  -- `begin_`: the queue is swapped into an empty cache, unless its lock is taken. Then `cache`
  -- begins with the element; it is empty for `cache_.end()`.
  unfoldable pub begin : MtInQueue E H → Bool → MtInQueue E H
  begin q owns_lock = elim q.cache [
    | ele ∷ eles ↦ q
    | [] ↦
        if owns_lock
        then record q { queue = []; cache = q.queue }
        else record q { pings = q.pings + 1 }
  ]

  unfoldable pub pop : MtInQueue E H → Bool → MtInQueue E H × Option (EleTid E)
  unfolding begin
  pop q owns_lock =
      let q' = begin q owns_lock in
      elim q'.cache [ [] ↦ (q', none) | ele ∷ eles ↦ (record q' { cache = eles }, some ele) ]

  -- `pop<aEleType>`: an element of another type stays. The cast back from void is to the type that
  -- was pushed, so it gives the element.
  unfoldable pub pop_type : MtInQueue E H → Bool → ℕ → MtInQueue E H × Option E
  unfolding begin
  pop_type q owns_lock tid =
      let q' = begin q owns_lock in
      elim q'.cache [
        | [] ↦ (q', none)
        | ele ∷ eles ↦ if ele.1 == tid then (record q' { cache = eles }, some ele.0) else (q', none)
      ]

  unfoldable pub size : MtInQueue E H → (main can_block owns_lock : Bool) → ℕ
  size q main can_block owns_lock =
      if main
      then if can_block
        then length q.queue + length q.cache
        else if owns_lock
        then length q.queue + length q.cache
        else length q.cache
      else 0

  -- `setHdlrOK`: no null handler, and one handler for a type
  unfoldable pub set_hdlr_ok : MtInQueue E H → (main : Bool) → ℕ → Option H → MtInQueue E H × Bool
  unfolding lookup
  set_hdlr_ok q main tid none = (q, false)
  set_hdlr_ok q main tid (some hdlr) = elim (lookup tid q.hdlrs) [
    | some old ↦ (q, false)
    | none ↦ if main then (record q { hdlrs = q.hdlrs ++ (tid, hdlr) ∷ [] }, true) else (q, false)
  ]

  abbrev pub n_hdlr : MtInQueue E H → ℕ
  n_hdlr q = length q.hdlrs

  unfoldable pub clear_hdlr_pool : MtInQueue E H → MtInQueue E H
  clear_hdlr_pool q = record q { hdlrs = [] }

  unfoldable pub clear_all : MtInQueue E H → (main : Bool) → MtInQueue E H
  clear_all q main = if main then record q { queue = []; cache = []; hdlrs = [] } else q

  unfoldable pub push_each : MtInQueue E H → List (Push E) → MtInQueue E H
  unfolding mt_push_ok
  push_each q [] = q
  push_each q ((ele, (use_count, tid)) ∷ ps) = push_each (mt_push_ok q ele use_count tid).0 ps

  -- `run` is a handler: it changes the world; what it pushes, and what other threads push
  -- meanwhile, is the list.
  module _ {ι} {W : Type ι} (run : H → E → W → W × List (Push E)) where
    -- One round of the loop of `handleCacheEle_`, after `pop_front`
    unfoldable pub handle_ele : MtInQueue E H → W → EleTid E → MtInQueue E H × W
    unfolding lookup push_each
    handle_ele q w ele = elim (lookup ele.1 q.hdlrs) [
      | none ↦ (q, w)
      | some hdlr ↦ let (w', pushed) = run hdlr ele.0 w in (push_each q pushed, w')
    ]

    unfoldable pub handle_rounds : List (EleTid E) → MtInQueue E H → W → MtInQueue E H × W
    unfolding handle_ele
    handle_rounds [] q w = (record q { cache = [] }, w)
    handle_rounds (ele ∷ eles) q w =
        let (q', w') = handle_ele (record q { cache = eles }) w ele in handle_rounds eles q' w'

    -- `handleCacheEle_`; handlers and other threads leave the cache.
    unfoldable pub handle_cache_ele : MtInQueue E H → W → MtInQueue E H × (W × ℕ)
    unfolding handle_rounds
    handle_cache_ele q w = let (q', w') = handle_rounds q.cache q w in (q', (w', length q.cache))

    unfoldable pub handle_all_ele :
        MtInQueue E H → W → (main owns_lock : Bool) → MtInQueue E H × (W × ℕ)
    unfolding handle_cache_ele
    handle_all_ele q w main owns_lock =
        let (q', (w', n)) = handle_cache_ele q w in
        let (q'', (w'', n')) =
          handle_cache_ele (record q' { queue = q'.cache; cache = q'.queue }) w' in
        if main
        then if owns_lock
          then (q'', (w'', n + n'))
          else (record q' { pings = q'.pings + 1 }, (w', n))
        else (q, (w, 0))
