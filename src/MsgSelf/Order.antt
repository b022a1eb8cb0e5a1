-- ===== src/MsgSelf/Order.antt =====
-- The order in which `handleAllMsg` of msg_self/MsgSelf.cpp calls the messages.
use domino_library.Prelude.{
  ℕ, zero, suc, ◌+◌, ◌-◌, subst, ◌≡◌, ◌<◌, refl, sym, ◌∙◌, ap, inl, inr, false, not, List, [], ◌∷◌,
  some, arith, length, get_or, set, Bool-cases, ◌==◌,
}
use domino_library.MsgSelf.{
  MsgSelf, max_pri, is_low_pri, take_msg, send_all, handle_one_msg, handle_all_msg,
}

module _ {ℓ} {M : Type ℓ} where
  unfoldable pub first_one : List M → List M
  first_one [] = []
  first_one (m ∷ ms) = m ∷ []

  unfoldable pub but_first : List M → List M
  but_first [] = []
  but_first (m ∷ ms) = ms

  -- A call of `mt_pingMainTH()` when low messages wait
  unfoldable pub pinged : List M → ℕ → ℕ
  pinged [] pings = pings
  pinged (m ∷ ms) pings = pings + 1

  abbrev pub queued : List M → List M → List M → ℕ → ℕ → MsgSelf M
  queued low normal high n_msg pings = record {
    queues = low ∷ normal ∷ high ∷ [];
    n_msg = n_msg;
    pings = pings;
  }

module _ {ℓ κ} {M : Type ℓ} {W : Type κ} (run : M → W → W × List (M × ℕ)) where
  take_msg-top :
      (n : ℕ) (queues : List (List M)) (m : M) (ms : List M) (pri : ℕ)
      → pri < n
      → get_or queues pri [] ≡ m ∷ ms
      → ((p : ℕ) → pri < p → p < n → get_or queues p [] ≡ [])
      → take_msg n queues ≡ some (m, (pri, set queues pri ms))
  unfolding take_msg
  take_msg-top zero queues m ms pri h front higher = absurd (omega arith)
  take_msg-top (suc n) queues m ms pri h front higher = elim (Bool-cases (pri == n)) [
    | inl top ↦
        let here : pri ≡ n = ground arith in
        let front' : get_or queues n [] ≡ m ∷ ms =
          ap (λ x. get_or queues x []) (sym here) ∙ front in
        subst (λ x. take_msg (suc n) queues ≡ some (m, (x, set queues x ms))) (sym here)
          (rw (take_msg, front') refl)
    | inr other ↦
        rw (take_msg, higher n (ground arith) (omega arith))
          (take_msg-top n queues m ms pri (ground arith) front
            (λ p lo hi. higher p lo (omega arith)))
  ]

  -- `handleOneMsg_` calls the first message of the highest queue that has one.
  handle_one_msg-top :
      (s : MsgSelf M) (w : W) (m : M) (ms : List M) (pri : ℕ)
      → pri < max_pri
      → get_or s.queues pri [] ≡ m ∷ ms
      → ((p : ℕ) → pri < p → p < max_pri → get_or s.queues p [] ≡ [])
      → (handle_one_msg run s w).1.0 ≡ (run m w).0
  unfolding handle_one_msg
  handle_one_msg-top s w m ms pri h front higher =
      let first = take_msg-top max_pri s.queues m ms pri h front higher in
      let taken : MsgSelf M = record {
        queues = set s.queues pri ms;
        n_msg = s.n_msg - 1;
        pings = s.pings;
      } in
      elim (Bool-cases ((send_all (run m w).1 taken).n_msg == 0)) [
        | inl last ↦ rw (handle_one_msg, first, last) refl
        | inr more ↦ elim (Bool-cases (is_low_pri pri)) [
          | inl low ↦ rw (handle_one_msg, first, more, low) refl
          | inr not_low ↦ rw (handle_one_msg, first, more, not_low) refl
        ]
      ]

  -- The callbacks of the messages, one after another
  unfoldable pub run_all : List M → W → W
  run_all [] w = w
  run_all (m ∷ ms) w = run_all ms (run m w).0

  -- What `handleAllMsg` should do: all high, all normal, and one low message.
  unfoldable pub expected : List M → List M → List M → ℕ → W → MsgSelf M × W
  unfolding run_all first_one but_first pinged
  expected low normal high pings w = (
    queued (but_first low) [] [] (length (but_first low)) (pinged (but_first low) pings),
    run_all (first_one low) (run_all normal (run_all high w)),
  )

  expected-empty :
      (low normal high : List M) (pings : ℕ) (w : W)
      → 0 ≡ length low + (length normal + length high)
      → expected low normal high pings w ≡ (queued low normal high 0 pings, w)
  unfolding expected
  expected-empty [] [] [] pings w h = refl
  expected-empty (x ∷ low) normal high pings w h = absurd (omega arith)
  expected-empty [] (x ∷ normal) high pings w h = absurd (omega arith)
  expected-empty [] [] (x ∷ high) pings w h = absurd (omega arith)

  module _ (quiet : (m : M) (w : W) → (run m w).1 ≡ []) where
    one_less : (n : ℕ) → suc n - 1 ≡ n
    one_less n = omega arith

    handle-high :
        (low normal high : List M) (m : M) (n pings : ℕ) (w : W)
        → handle_one_msg run (queued low normal (m ∷ high) (suc n) pings) w
          ≡ (queued low normal high n pings, ((run m w).0, not (n == 0)))
    unfolding handle_one_msg
    handle-high low normal high m n pings w =
        rw (handle_one_msg, quiet m w, one_less n)
          (elim (Bool-cases (n == 0)) [ inl e ↦ rw e refl | inr e ↦ rw e refl ])

    handle-normal :
        (low normal : List M) (m : M) (n pings : ℕ) (w : W)
        → handle_one_msg run (queued low (m ∷ normal) [] (suc n) pings) w
          ≡ (queued low normal [] n pings, ((run m w).0, not (n == 0)))
    unfolding handle_one_msg
    handle-normal low normal m n pings w =
        rw (handle_one_msg, quiet m w, one_less n)
          (elim (Bool-cases (n == 0)) [ inl e ↦ rw e refl | inr e ↦ rw e refl ])

    handle-low :
        (low : List M) (m : M) (n pings : ℕ) (w : W)
        → n ≡ length low
        → handle_one_msg run (queued (m ∷ low) [] [] (suc n) pings) w
          ≡ (queued low [] [] n (pinged low pings), ((run m w).0, false))
    unfolding handle_one_msg pinged
    handle-low [] m n pings w e = rw (handle_one_msg, quiet m w, one_less n, e) refl
    handle-low (x ∷ low) m n pings w e =
        let more : (suc (length low) == 0) ≡ false = ground arith in
        rw (handle_one_msg, quiet m w, one_less n, e) (rw more refl)

    -- One round that says whether to go on, and the rest
    round :
        (fuel : ℕ) (s s' : MsgSelf M) (w w' : W) (n : ℕ) (r : MsgSelf M × W)
        → handle_one_msg run s w ≡ (s', (w', not (n == 0)))
        → (n ≡ 0 → r ≡ (s', w'))
        → handle_all_msg run fuel s' w' ≡ some r
        → handle_all_msg run (suc fuel) s w ≡ some r
    unfolding handle_all_msg
    round fuel s s' w w' n r one last later = elim (Bool-cases (n == 0)) [
      | inl e ↦ rw (handle_all_msg, one, e) (ap some (sym (last (ground arith))))
      | inr e ↦ rw (handle_all_msg, one, e) later
    ]

    -- When the callbacks send nothing, `handleAllMsg` calls all high messages, then all normal ones,
    -- then one low message, each queue in order, and leaves the other low messages, with a ping of
    -- the main thread if there are any; more rounds than messages are enough.
    pub handle_all_msg_lem :
        (fuel : ℕ) (low normal high : List M) (n pings : ℕ) (w : W)
        → n ≡ length low + (length normal + length high)
        → n < fuel
        → handle_all_msg run fuel (queued low normal high n pings) w
          ≡ some (expected low normal high pings w)
    unfolding handle_all_msg expected
    handle_all_msg_lem zero low normal high n pings w e h = absurd (omega arith)
    handle_all_msg_lem (suc fuel) low normal (m ∷ high) zero pings w e h = absurd (omega arith)
    handle_all_msg_lem (suc fuel) low normal (m ∷ high) (suc n) pings w e h =
        round fuel (queued low normal (m ∷ high) (suc n) pings) (queued low normal high n pings) w
          (run m w).0 n (expected low normal high pings (run m w).0)
          (handle-high low normal high m n pings w)
          (λ z. rw z (expected-empty low normal high pings (run m w).0 (omega arith)))
          (handle_all_msg_lem fuel low normal high n pings (run m w).0 (omega arith) (omega arith))
    handle_all_msg_lem (suc fuel) low (m ∷ normal) [] zero pings w e h = absurd (omega arith)
    handle_all_msg_lem (suc fuel) low (m ∷ normal) [] (suc n) pings w e h =
        round fuel (queued low (m ∷ normal) [] (suc n) pings) (queued low normal [] n pings) w
          (run m w).0 n (expected low normal [] pings (run m w).0)
          (handle-normal low normal m n pings w)
          (λ z. rw z (expected-empty low normal [] pings (run m w).0 (omega arith)))
          (handle_all_msg_lem fuel low normal [] n pings (run m w).0 (omega arith) (omega arith))
    handle_all_msg_lem (suc fuel) (m ∷ low) [] [] zero pings w e h = absurd (omega arith)
    handle_all_msg_lem (suc fuel) (m ∷ low) [] [] (suc n) pings w e h =
        let count : n ≡ length low = omega arith in
        rw (handle_all_msg, handle-low low m n pings w count) (rw count refl)
    handle_all_msg_lem (suc fuel) [] [] [] n pings w e h =
        let none' : n ≡ 0 = omega arith in rw none' refl
