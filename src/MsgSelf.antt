-- ===== src/MsgSelf.antt =====
-- msg_self/MsgSelf.hpp and msg_self/MsgSelf.cpp: messages in queues by priority.
pub mod Count
pub mod Order
use domino_library.Prelude.{
  ℕ, zero, suc, ◌+◌, ◌-◌, Bool, true, false, List, [], ◌∷◌, ◌++◌, Option, none, some, if◌then◌else◌,
  ltb, ◌==◌, length, get_or, set,
}

-- EMsgPriority: low, normal, high; EMsgPri_MAX is the number of them.
abbrev pub norm : ℕ
norm = 1

abbrev pub max_pri : ℕ
max_pri = 3

abbrev pub is_valid_pri : ℕ → Bool
is_valid_pri pri = ltb pri max_pri

abbrev pub is_low_pri : ℕ → Bool
is_low_pri pri = ltb pri norm

-- `msgQueues_[priority][FIFO]` and `nMsg_`; `pings` counts the calls of `mt_pingMainTH()`.
pub record MsgSelf {ℓ} (M : Type ℓ) : Type ℓ where
  pub queues : List (List M)
  pub n_msg : ℕ
  pub pings : ℕ

module _ {ℓ} {M : Type ℓ} where
  abbrev pub empty_msg_self : MsgSelf M
  empty_msg_self = record { queues = [] ∷ [] ∷ [] ∷ []; n_msg = 0; pings = 0 }

  -- `none` is a null callback.
  unfoldable pub new_msg_ok : MsgSelf M → Option M → ℕ → MsgSelf M × Bool
  new_msg_ok s none pri = (s, false)
  new_msg_ok s (some m) pri =
      if is_valid_pri pri
      then (
        record {
          queues = set s.queues pri (get_or s.queues pri [] ++ m ∷ []);
          n_msg = s.n_msg + 1;
          pings = s.pings + 1;
        },
        true,
      )
      else (s, false)

  -- The first message of the first queue below `pri` that has one, from the top, with the priority
  -- of that queue and what is left
  unfoldable pub take_msg : ℕ → List (List M) → Option (M × (ℕ × List (List M)))
  take_msg zero queues = none
  take_msg (suc pri) queues =
      let rest = take_msg pri queues in
      elim (get_or queues pri []) [ [] ↦ rest | m ∷ ms ↦ some (m, (pri, set queues pri ms)) ]

  -- The messages that a callback sends, in order
  unfoldable pub send_all : List (M × ℕ) → MsgSelf M → MsgSelf M
  unfolding new_msg_ok
  send_all [] s = s
  send_all ((m, pri) ∷ ms) s = send_all ms (new_msg_ok s (some m) pri).0

-- `run` is the callback: it changes the world and sends messages.
module _ {ℓ κ} {M : Type ℓ} {W : Type κ} (run : M → W → W × List (M × ℕ)) where
  -- The last part is the answer of `handleOneMsg_`: whether to go on.
  unfoldable pub handle_one_msg : MsgSelf M → W → MsgSelf M × (W × Bool)
  unfolding take_msg send_all
  handle_one_msg s w = elim (take_msg max_pri s.queues) [
    | none ↦ (s, (w, false))
    | some (m, (pri, left)) ↦
        let (w', sent) = run m w in
        let s' = send_all sent (record { queues = left; n_msg = s.n_msg - 1; pings = s.pings }) in
        if s'.n_msg == 0
        then (s', (w', false))
        else if is_low_pri pri
        then (record s' { pings = s'.pings + 1 }, (w', false))
        else (s', (w', true))
  ]

  unfoldable pub handle_all_msg : ℕ → MsgSelf M → W → Option (MsgSelf M × W)
  unfolding handle_one_msg
  handle_all_msg zero s w = none
  handle_all_msg (suc fuel) s w =
      let r = handle_one_msg s w in
      let rest = handle_all_msg fuel r.0 r.1.0 in if r.1.1 then rest else some (r.0, r.1.0)
