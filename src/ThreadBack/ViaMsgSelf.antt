-- ===== src/ThreadBack/ViaMsgSelf.antt =====
-- thread/ThreadBackViaMsgSelf.hpp: back functions that are called by messages of MsgSelf.
use domino_library.Prelude.{
  ℕ, zero, suc, ◌+◌, ◌≡◌, ◌<◌, refl, ◌∙◌, ap, Bool, true, false, List, [], ◌∷◌, ◌++◌, Option, none,
  some, if◌then◌else◌, ◌==◌, ltb, arith, length, length-append, append_assoc, append-nil,
}
use domino_library.MsgSelf.{MsgSelf, max_pri, new_msg_ok, handle_all_msg}
use domino_library.MsgSelf.Order.{queued, expected, handle_all_msg_lem}
use domino_library.ThreadBack.{FutBackFn}

-- What the function that `viaMsgSelf` gives has captured
pub record Via {ℓ} (B : Type ℓ) : Type ℓ where
  pub fn : B
  pub pri : ℕ

-- `has_msg_self` is whether MSG_SELF is not null; `none` is an empty function.
unfoldable pub via_msg_self {ℓ} :
    {B : Type ℓ} → Option B → (pri : ℕ) → (has_msg_self : Bool) → Option (Via B)
via_msg_self none pri has_msg_self = none
via_msg_self (some fn) pri has_msg_self =
    if has_msg_self then some (record { fn = fn; pri = pri }) else none

add-zero : (n : ℕ) → n + 0 ≡ n
add-zero n = omega arith

module _ {ℓ κ} {B : Type ℓ} {R : Type κ} where
  -- `cb_backFN`: the message is the call of the back function with what the task gave.
  unfoldable pub cb_back_fn :
      B → MsgSelf (B × Option R) → (pri : ℕ) → Option R → MsgSelf (B × Option R)
  unfolding new_msg_ok
  cb_back_fn fn msg_self pri ret = (new_msg_ok msg_self (some (fn, ret)) pri).0

  -- The calls that `hdlDoneFut` makes, for the tasks that it handles
  unfoldable pub call_backs :
      MsgSelf (B × Option R) → List (FutBackFn (Via B) R) → MsgSelf (B × Option R)
  unfolding cb_back_fn
  call_backs msg_self [] = msg_self
  call_backs msg_self (task ∷ tasks) =
      call_backs (cb_back_fn task.back_fn.fn msg_self task.back_fn.pri task.ret) tasks

  -- The messages of one priority
  unfoldable pub messages : ℕ → List (FutBackFn (Via B) R) → List (B × Option R)
  messages pri [] = []
  messages pri (task ∷ tasks) =
      if task.back_fn.pri == pri
      then (task.back_fn.fn, task.ret) ∷ messages pri tasks
      else messages pri tasks

  -- A back function gets a priority below EMsgPri_MAX.
  unfoldable pub all_valid : List (FutBackFn (Via B) R) → Bool
  all_valid [] = true
  all_valid (task ∷ tasks) = if ltb task.back_fn.pri max_pri then all_valid tasks else false

  abbrev here : B × Option R → Bool → List (B × Option R)
  here x b = if b then x ∷ [] else []

  here_append :
      (xs : List (B × Option R)) (x : B × Option R) (b : Bool) (ms : List (B × Option R))
      → (xs ++ here x b) ++ ms ≡ xs ++ (if b then x ∷ ms else ms)
  here_append xs x true ms = append_assoc xs (x ∷ []) ms
  here_append xs x false ms = ap (λ ys. ys ++ ms) (append-nil xs)

  cb_back_fn_lem :
      (low normal high : List (B × Option R)) (n pings : ℕ) (fn : B) (pri : ℕ) (ret : Option R)
      → ltb pri max_pri ≡ true
      → cb_back_fn fn (queued low normal high n pings) pri ret
        ≡ queued
            (low ++ here (fn, ret) (pri == 0))
            (normal ++ here (fn, ret) (pri == 1))
            (high ++ here (fn, ret) (pri == 2))
            (n + 1)
            (pings + 1)
  unfolding cb_back_fn
  cb_back_fn_lem low normal high n pings fn zero ret valid =
      rw (append-nil normal, append-nil high) refl
  cb_back_fn_lem low normal high n pings fn (suc zero) ret valid =
      rw (append-nil low, append-nil high) refl
  cb_back_fn_lem low normal high n pings fn (suc (suc zero)) ret valid =
      rw (append-nil low, append-nil normal) refl
  cb_back_fn_lem low normal high n pings fn (suc (suc (suc pri))) ret valid = ground arith

  length-messages :
      (tasks : List (FutBackFn (Via B) R))
      → all_valid tasks ≡ true
      → length (messages 0 tasks) + (length (messages 1 tasks) + length (messages 2 tasks))
        ≡ length tasks
  unfolding messages all_valid
  length-messages [] valid = refl
  length-messages (task ∷ tasks) valid = ground (arith, length-messages tasks)

  call_backs_lem :
      (low normal high : List (B × Option R)) (n pings : ℕ) (tasks : List (FutBackFn (Via B) R))
      → all_valid tasks ≡ true
      → call_backs (queued low normal high n pings) tasks
        ≡ queued
            (low ++ messages 0 tasks)
            (normal ++ messages 1 tasks)
            (high ++ messages 2 tasks)
            (n + length tasks)
            (pings + length tasks)
  unfolding call_backs messages all_valid
  call_backs_lem low normal high n pings [] valid =
      rw (append-nil low, append-nil normal, append-nil high, add-zero n, add-zero pings) refl
  call_backs_lem low normal high n pings (task ∷ tasks) valid =
      let fn = task.back_fn.fn in
      let pri = task.back_fn.pri in
      let one = cb_back_fn_lem low normal high n pings fn pri task.ret (ground arith) in
      let x : B × Option R = (fn, task.ret) in
      let rest =
        call_backs_lem (low ++ here x (pri == 0)) (normal ++ here x (pri == 1))
          (high ++ here x (pri == 2)) (n + 1) (pings + 1) tasks (ground arith) in
      let n_sum : n + 1 + length tasks ≡ n + suc (length tasks) = omega arith in
      let pings_sum : pings + 1 + length tasks ≡ pings + suc (length tasks) = omega arith in
      ap (λ m. call_backs m tasks) one
      ∙ rest
      ∙ rw
          (
            here_append low x (pri == 0) (messages 0 tasks),
            here_append normal x (pri == 1) (messages 1 tasks),
            here_append high x (pri == 2) (messages 2 tasks),
            n_sum,
            pings_sum,
          )
          refl

  module _ {μ} {W : Type μ} (run : B × Option R → W → W × List ((B × Option R) × ℕ))
      (quiet : (m : B × Option R) (w : W) → (run m w).1 ≡ []) where
    -- When `hdlDoneFut` calls back functions of `viaMsgSelf`, with valid priorities, and these send
    -- nothing themselves, `handleAllMsg` then calls all high messages, those from before and then
    -- the handled tasks of high priority, each with what it gave, in the order in which they were
    -- handled; then the normal ones so; then one low message; more rounds than messages are enough.
    pub call_backs-handle_all_msg :
        (fuel : ℕ) (low normal high : List (B × Option R)) (n pings : ℕ) (w : W)
        (tasks : List (FutBackFn (Via B) R))
        → all_valid tasks ≡ true
        → n ≡ length low + (length normal + length high)
        → n + length tasks < fuel
        → handle_all_msg run fuel (call_backs (queued low normal high n pings) tasks) w
          ≡ some (
              expected run
                (low ++ messages 0 tasks)
                (normal ++ messages 1 tasks)
                (high ++ messages 2 tasks)
                (pings + length tasks)
                w)
    call_backs-handle_all_msg fuel low normal high n pings w tasks valid counted enough =
        ap (λ m. handle_all_msg run fuel m w) (call_backs_lem low normal high n pings tasks valid)
        ∙ handle_all_msg_lem run quiet fuel (low ++ messages 0 tasks) (normal ++ messages 1 tasks)
            (high ++ messages 2 tasks) (n + length tasks) (pings + length tasks) w
            (omega (
              arith,
              counted,
              length-append low (messages 0 tasks),
              length-append normal (messages 1 tasks),
              length-append high (messages 2 tasks),
              length-messages tasks valid,
            ))
            enough
