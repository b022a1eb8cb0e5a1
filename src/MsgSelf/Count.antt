-- ===== src/MsgSelf/Count.antt =====
-- The count `nMsg_` of msg_self/MsgSelf.cpp, and which message `handleOneMsg_` takes.
use domino_library.Prelude.{
  ◌&&◌, ℕ, zero, suc, ◌+◌, ◌-◌, ◌≡◌, refl, ◌<◌, ◌≤◌, sym, ◌∙◌, ap, inl, inr, true, List, [], ◌∷◌,
  ◌++◌, Option, none, some, some-injective, if◌then◌else◌, ltb, arith, length, length-set,
  length-concat, get_or, set, get_or-set_self, get_or-set_ne, Bool-cases, subst, Option-cases,
  List-cases, ◌==◌,
}
use domino_library.MsgSelf.{
  MsgSelf, max_pri, is_low_pri, new_msg_ok, take_msg, send_all, handle_one_msg, handle_all_msg,
}

module _ {ℓ} {M : Type ℓ} where
  -- The messages of all queues
  abbrev pub total : List (List M) → ℕ
  total [] = 0
  total (q ∷ queues) = length q + total queues

  -- A queue for each priority, and as many messages as `nMsg_` says
  abbrev pub IsCounted : MsgSelf M → Type 0
  IsCounted s = (length s.queues ≡ max_pri) × (s.n_msg ≡ total s.queues)

  total-set :
      (queues : List (List M)) (i : ℕ) (q : List M)
      → i < length queues
      → total (set queues i q) + length (get_or queues i []) ≡ total queues + length q
  total-set [] i q h = absurd (omega arith)
  total-set (p ∷ queues) zero q h = omega arith
  total-set (p ∷ queues) (suc i) q h = omega (arith, total-set queues i q (omega arith))

  new_msg_ok-IsCounted :
      (s : MsgSelf M) (m : Option M) (pri : ℕ) → IsCounted s → IsCounted (new_msg_ok s m pri).0
  unfolding new_msg_ok
  new_msg_ok-IsCounted s none pri c = c
  new_msg_ok-IsCounted s (some m) pri c = elim (Bool-cases (ltb pri max_pri)) [
    | inl valid ↦
        let q = get_or s.queues pri [] ++ m ∷ [] in
        rw valid (
          length-set s.queues pri q ∙ c.0,
          omega (
            arith,
            c.1,
            total-set s.queues pri q (ground arith),
            length-concat (get_or s.queues pri []) m,
          ),
        )
    | inr refused ↦ rw refused c
  ]

  valid_queues :
      (s : MsgSelf M) (m : M) (pri p : ℕ)
      → IsCounted s
      → pri < max_pri
      → get_or (new_msg_ok s (some m) pri).0.queues p []
        ≡ (if pri == p then get_or s.queues p [] ++ m ∷ [] else get_or s.queues p [])
  unfolding new_msg_ok
  valid_queues s m pri p c valid =
      let q = get_or s.queues pri [] ++ m ∷ [] in
      let ok : ltb pri max_pri ≡ true = ground arith in
      elim (Bool-cases (pri == p)) [
        | inl same ↦
            let here : pri ≡ p = ground arith in
            rw (new_msg_ok, ok, same)
              (ap (λ x. get_or (set s.queues pri q) x []) (sym here)
                ∙ get_or-set_self s.queues pri q [] (omega (arith, c.0))
                ∙ ap (λ x. get_or s.queues x [] ++ m ∷ []) here)
        | inr other ↦ rw (new_msg_ok, ok, other) (get_or-set_ne s.queues pri p q [] (ground arith))
      ]

  -- When there is a queue for each priority and `nMsg_` is the number of messages, both hold after
  -- `newMsgOK` of a message that is not null; if it answers true the message stands at the end of the
  -- queue of its priority, and every other queue, or every queue if it answers false, stays.
  new_msg_ok_lem :
      (s : MsgSelf M) (m : M) (pri p : ℕ)
      → IsCounted s
      → IsCounted (new_msg_ok s (some m) pri).0
        × (get_or (new_msg_ok s (some m) pri).0.queues p [] ≡ (
            if (new_msg_ok s (some m) pri).1 && (pri == p)
            then get_or s.queues p [] ++ m ∷ []
            else get_or s.queues p []))
  unfolding new_msg_ok
  new_msg_ok_lem s m pri p c = elim (Bool-cases (ltb pri max_pri)) [
    | inl valid ↦ (
      new_msg_ok-IsCounted s (some m) pri c,
      valid_queues s m pri p c (ground arith) ∙ rw (new_msg_ok, valid) refl,
    )
    | inr refused ↦ (new_msg_ok-IsCounted s (some m) pri c, rw (new_msg_ok, refused) refl)
  ]

  send_all-IsCounted : (ms : List (M × ℕ)) (s : MsgSelf M) → IsCounted s → IsCounted (send_all ms s)
  unfolding send_all
  send_all-IsCounted [] s c = c
  send_all-IsCounted ((m, pri) ∷ ms) s c =
      send_all-IsCounted ms (new_msg_ok s (some m) pri).0 (new_msg_ok-IsCounted s (some m) pri c)

  -- What `take_msg` takes, and what it leaves
  pub record Taken (n : ℕ) (queues : List (List M)) (m : M) (pri : ℕ) (left : List (List M))
      : Type ℓ where
    pub below : pri < n
    pub front : get_or queues pri [] ≡ m ∷ get_or left pri []
    pub rest : left ≡ set queues pri (get_or left pri [])
    pub higher : (p : ℕ) → pri < p → p < n → get_or queues p [] ≡ []

  take_msg-Taken :
      (n : ℕ) (queues : List (List M)) (m : M) (pri : ℕ) (left : List (List M))
      → n ≤ length queues
      → take_msg n queues ≡ some (m, (pri, left))
      → Taken n queues m pri left
  unfolding take_msg
  take_msg-Taken zero queues m pri left h e = ground arith
  take_msg-Taken (suc n) queues m pri left h e = elim (List-cases (get_or queues n [])) [
    | inl empty ↦
        let t = take_msg-Taken n queues m pri left (omega arith) (rw (take_msg, empty) at e) in
        record {
          below = omega (arith, t.below);
          front = t.front;
          rest = t.rest;
          higher = λ p lo hi. elim (Bool-cases (p == n)) [
            | inl top ↦ let here : p ≡ n = ground arith in rw here empty
            | inr other ↦ t.higher p lo (ground arith)
          ];
        }
    | inr (x, xs, full) ↦
        let first : Taken (suc n) queues x n (set queues n xs) = record {
          below = omega arith;
          front = full ∙ ap (λ y. x ∷ y) (sym (get_or-set_self queues n xs [] (omega arith)));
          rest = ap (set queues n) (sym (get_or-set_self queues n xs [] (omega arith)));
          higher = λ p lo hi. absurd (omega (arith, lo, hi));
        } in
        let same : some (x, (n, set queues n xs)) ≡ some (m, (pri, left)) =
          rw (take_msg, full) at e in
        subst (λ t. Taken (suc n) queues t.0 t.1.0 t.1.1) (some-injective _ _ same) first
  ]

  take-IsCounted :
      (s : MsgSelf M) (m : M) (pri : ℕ) (left : List (List M)) (pings : ℕ)
      → IsCounted s
      → take_msg max_pri s.queues ≡ some (m, (pri, left))
      → IsCounted (record { queues = left; n_msg = s.n_msg - 1; pings = pings })
  take-IsCounted s m pri left pings c e =
      let t = take_msg-Taken max_pri s.queues m pri left (omega (arith, c.0)) e in
      let kept = get_or left pri [] in
      (
        ap length t.rest ∙ length-set s.queues pri kept ∙ c.0,
        omega (
          arith,
          c.1,
          ap total t.rest,
          ap length t.front,
          total-set s.queues pri kept (omega (arith, t.below, c.0)),
        ),
      )

module _ {ℓ κ} {M : Type ℓ} {W : Type κ} (run : M → W → W × List (M × ℕ)) where
  -- `handleOneMsg_` keeps the count, whatever the callback sends.
  handle_one_msg-IsCounted :
      (s : MsgSelf M) (w : W) → IsCounted s → IsCounted (handle_one_msg run s w).0
  unfolding handle_one_msg
  handle_one_msg-IsCounted s w c = elim (Option-cases (take_msg max_pri s.queues)) [
    | inl none' ↦ rw (handle_one_msg, none') c
    | inr ((m, (pri, left)), e) ↦
        let (w', sent) = run m w in
        let taken : MsgSelf M = record { queues = left; n_msg = s.n_msg - 1; pings = s.pings } in
        let c' = send_all-IsCounted sent taken (take-IsCounted s m pri left s.pings c e) in
        elim (Bool-cases ((send_all sent taken).n_msg == 0)) [
          | inl last ↦ rw (handle_one_msg, e, last) c'
          | inr more ↦ elim (Bool-cases (is_low_pri pri)) [
            | inl low ↦ rw (handle_one_msg, e, more, low) c'
            | inr high ↦ rw (handle_one_msg, e, more, high) c'
          ]
        ]
  ]

  -- When `handleAllMsg` returns, `nMsg_` is the number of messages in the queues, if it was before,
  -- whatever the callbacks send.
  pub handle_all_msg-IsCounted :
      (fuel : ℕ) (s : MsgSelf M) (w : W) (r : MsgSelf M × W)
      → IsCounted s
      → handle_all_msg run fuel s w ≡ some r
      → IsCounted r.0
  unfolding handle_all_msg
  handle_all_msg-IsCounted zero s w r c e = ground arith
  handle_all_msg-IsCounted (suc fuel) s w r c e =
      let q = handle_one_msg run s w in
      let c' = handle_one_msg-IsCounted s w c in
      elim (Bool-cases q.1.1) [
        | inl again ↦ handle_all_msg-IsCounted fuel q.0 q.1.0 r c' (rw (again) at e)
        | inr done ↦
            let same : some (q.0, q.1.0) ≡ some r = rw (done) at e in
            subst (λ x. IsCounted x.0) (some-injective _ _ same) c'
      ]
