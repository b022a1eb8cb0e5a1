-- ===== src/MtInQueue/Fifo.antt =====
-- The order of the elements in thread/MtInQueue.cpp, whatever threads push and whenever a lock is
-- taken.
use domino_library.Prelude.{
  ℕ, zero, suc, ◌≡◌, ◌≤◌, length-append, refl, sym, ◌∙◌, ap, inl, inr, Bool, true, List, [], ◌∷◌,
  ◌++◌, append_assoc, append-nil, Option, none, some, if◌then◌else◌, ◌==◌, ltb, length, arith,
  Bool-cases, List-cases, Option-cases, lookup, nat_eq,
}
use domino_library.MtInQueue.{EleTid, MtInQueue, mt_push_ok, begin, pop, pop_type, set_hdlr_ok}

-- The calls of any thread, with the outcomes of the locks
pub data Call {ℓ κ} (E : Type ℓ) (H : Type κ) : Type (ℓ ⊔ κ) where
  push_call : Option E → ℕ → ℕ → Call E H
  pop_call : Bool → Call E H
  pop_type_call : Bool → ℕ → Call E H
  set_hdlr_call : Bool → ℕ → Option H → Call E H

length-zero {ℓ} : {A : Type ℓ} (xs : List A) → length xs ≡ 0 → xs ≡ []
length-zero [] h = refl
length-zero (x ∷ xs) h = absurd (omega (arith, h))

module _ {ℓ κ} {E : Type ℓ} {H : Type κ} where
  unfoldable pub do_call : MtInQueue E H → Call E H → MtInQueue E H
  unfolding mt_push_ok pop pop_type set_hdlr_ok
  do_call q (push_call ele use_count tid) = (mt_push_ok q ele use_count tid).0
  do_call q (pop_call owns_lock) = (pop q owns_lock).0
  do_call q (pop_type_call owns_lock tid) = (pop_type q owns_lock tid).0
  do_call q (set_hdlr_call main tid hdlr) = (set_hdlr_ok q main tid hdlr).0

  -- The elements that a call gives to its caller, and those that it takes over from its caller
  unfoldable pub given : MtInQueue E H → Call E H → List (EleTid E)
  unfolding pop pop_type
  given q (push_call ele use_count tid) = []
  given q (pop_call owns_lock) = elim (pop q owns_lock).1 [ none ↦ [] | some ele ↦ ele ∷ [] ]
  given q (pop_type_call owns_lock tid) = elim (pop_type q owns_lock tid).1 [
    | none ↦ []
    | some ele ↦ (ele, tid) ∷ []
  ]
  given q (set_hdlr_call main tid hdlr) = []

  unfoldable pub accepted : MtInQueue E H → Call E H → List (EleTid E)
  unfolding mt_push_ok
  accepted q (push_call none use_count tid) = []
  accepted q (push_call (some ele) use_count tid) =
      if (mt_push_ok q (some ele) use_count tid).1 then (ele, tid) ∷ [] else []
  accepted q (pop_call owns_lock) = []
  accepted q (pop_type_call owns_lock tid) = []
  accepted q (set_hdlr_call main tid hdlr) = []

  unfoldable pub do_calls : MtInQueue E H → List (Call E H) → MtInQueue E H
  unfolding do_call
  do_calls q [] = q
  do_calls q (c ∷ cs) = do_calls (do_call q c) cs

  unfoldable pub all_given : MtInQueue E H → List (Call E H) → List (EleTid E)
  unfolding given do_call
  all_given q [] = []
  all_given q (c ∷ cs) = given q c ++ all_given (do_call q c) cs

  unfoldable pub all_accepted : MtInQueue E H → List (Call E H) → List (EleTid E)
  unfolding accepted do_call
  all_accepted q [] = []
  all_accepted q (c ∷ cs) = accepted q c ++ all_accepted (do_call q c) cs

  -- The elements in the order in which they are to be given
  abbrev pub waiting : MtInQueue E H → List (EleTid E)
  waiting q = q.cache ++ q.queue

  begin-waiting : (q : MtInQueue E H) (owns_lock : Bool) → waiting (begin q owns_lock) ≡ waiting q
  unfolding begin
  begin-waiting q owns_lock = elim (List-cases q.cache) [
    | inr (ele, eles, full) ↦ rw (begin, full) (ap (λ c. c ++ q.queue) full)
    | inl empty ↦ elim (Bool-cases owns_lock) [
      | inl owns ↦ rw (begin, empty, owns) (append-nil q.queue)
      | inr taken ↦ rw (begin, empty, taken) (ap (λ c. c ++ q.queue) empty)
    ]
  ]

  pop-waiting :
      (q : MtInQueue E H) (owns_lock : Bool)
      → given q (pop_call owns_lock) ++ waiting (pop q owns_lock).0 ≡ waiting q
  unfolding given pop
  pop-waiting q owns_lock = elim (List-cases (begin q owns_lock).cache) [
    | inl empty ↦ rw (pop, given, empty) (begin-waiting q owns_lock)
    | inr (ele, eles, full) ↦
        rw (pop, given, full)
          (sym (ap (λ c. c ++ (begin q owns_lock).queue) full) ∙ begin-waiting q owns_lock)
  ]

  pop_type-waiting :
      (q : MtInQueue E H) (owns_lock : Bool) (tid : ℕ)
      → given q (pop_type_call owns_lock tid) ++ waiting (pop_type q owns_lock tid).0 ≡ waiting q
  unfolding given pop_type
  pop_type-waiting q owns_lock tid = elim (List-cases (begin q owns_lock).cache) [
    | inl empty ↦ rw (pop_type, given, empty) (begin-waiting q owns_lock)
    | inr ((ele, t), eles, full) ↦ elim (Bool-cases (t == tid)) [
      | inr other ↦ rw (pop_type, given, full) (rw other (begin-waiting q owns_lock))
      | inl same ↦
          let is : t ≡ tid = ground arith in
          rw (pop_type, given, full)
            (rw same (
              ap (λ x. (ele, x) ∷ (eles ++ (begin q owns_lock).queue)) (sym is)
              ∙ (sym (ap (λ c. c ++ (begin q owns_lock).queue) full) ∙ begin-waiting q owns_lock)))
    ]
  ]

  set_hdlr_ok-waiting :
      (q : MtInQueue E H) (main : Bool) (tid : ℕ) (hdlr : Option H)
      → waiting (set_hdlr_ok q main tid hdlr).0 ≡ waiting q
  unfolding set_hdlr_ok
  set_hdlr_ok-waiting q main tid none = refl
  set_hdlr_ok-waiting q main tid (some hdlr) = elim (Option-cases (lookup tid q.hdlrs)) [
    | inr (old, there) ↦ rw (set_hdlr_ok, there) refl
    | inl free ↦ elim (Bool-cases main) [
      | inl on_main ↦ rw (set_hdlr_ok, free, on_main) refl
      | inr off_main ↦ rw (set_hdlr_ok, free, off_main) refl
    ]
  ]

  do_call-waiting :
      (q : MtInQueue E H) (c : Call E H)
      → given q c ++ waiting (do_call q c) ≡ waiting q ++ accepted q c
  unfolding do_call given accepted mt_push_ok
  do_call-waiting q (push_call none use_count tid) = sym (append-nil (waiting q))
  do_call-waiting q (push_call (some ele) use_count tid) = elim (Bool-cases (ltb 1 use_count)) [
    | inl shared ↦ rw (do_call, mt_push_ok, shared) (sym (append-nil (waiting q)))
    | inr own ↦ rw (do_call, mt_push_ok, own) (sym (append_assoc q.cache q.queue ((ele, tid) ∷ [])))
  ]
  do_call-waiting q (pop_call owns_lock) = pop-waiting q owns_lock ∙ sym (append-nil (waiting q))
  do_call-waiting q (pop_type_call owns_lock tid) =
      pop_type-waiting q owns_lock tid ∙ sym (append-nil (waiting q))
  do_call-waiting q (set_hdlr_call main tid hdlr) =
      set_hdlr_ok-waiting q main tid hdlr ∙ sym (append-nil (waiting q))

  -- First in, first out, and no element is lost or given twice: through any calls of `mt_pushOK`,
  -- `pop`, `pop<aEleType>` and `setHdlrOK`, with any outcomes of the locks, the elements that the
  -- pops give and those that then wait are those that waited before and those accepted, in order.
  pub do_calls-fifo :
      (q : MtInQueue E H) (cs : List (Call E H))
      → all_given q cs ++ waiting (do_calls q cs) ≡ waiting q ++ all_accepted q cs
  unfolding do_calls all_given all_accepted
  do_calls-fifo q [] = sym (append-nil (waiting q))
  do_calls-fifo q (c ∷ cs) =
      let q' = do_call q c in
      append_assoc (given q c) (all_given q' cs) (waiting (do_calls q' cs))
      ∙ ap (λ x. given q c ++ x) (do_calls-fifo q' cs)
      ∙ sym (append_assoc (given q c) (waiting q') (all_accepted q' cs))
      ∙ ap (λ x. x ++ all_accepted q' cs) (do_call-waiting q c)
      ∙ append_assoc (waiting q) (accepted q c) (all_accepted q' cs)

  unfoldable pub pops : ℕ → List (Call E H)
  pops zero = []
  pops (suc n) = pop_call true ∷ pops n

  pops-accepted : (n : ℕ) (q : MtInQueue E H) → all_accepted q (pops n) ≡ []
  unfolding all_accepted accepted pops
  pops-accepted zero q = refl
  pops-accepted (suc n) q = pops-accepted n (do_call q (pop_call true))

  begin-nothing : (q : MtInQueue E H) → (begin q true).cache ≡ [] → length (waiting q) ≡ 0
  unfolding begin
  begin-nothing q none_there = elim (List-cases q.cache) [
    | inr (ele, eles, full) ↦ absurd (ground (arith, ap length (rw (begin, full) at none_there)))
    | inl empty ↦
        let queue_empty : q.queue ≡ [] = rw (begin, empty) at none_there in
        omega (arith, length-append q.cache q.queue, ap length empty, ap length queue_empty)
  ]

  pop-shrinks :
      (n : ℕ) (q : MtInQueue E H) → length (waiting q) ≤ suc n → length (waiting (pop q true).0) ≤ n
  unfolding given
  pop-shrinks n q h =
      let kept = pop-waiting q true in
      elim (List-cases (begin q true).cache) [
        | inl empty ↦
            let all = rw (given, pop, empty) at kept in
            rw (pop, empty) (omega (arith, ap length all, begin-nothing q empty))
        | inr (ele, eles, full) ↦
            let all = rw (given, pop, full) at kept in
            rw (pop, full) (omega (arith, ap length all, h))
      ]

  pops-empty :
      (n : ℕ) (q : MtInQueue E H)
      → length (waiting q) ≤ n
      → length (waiting (do_calls q (pops n))) ≡ 0
  unfolding do_calls pops
  pops-empty zero q h = omega (arith, h)
  pops-empty (suc n) q h = pops-empty n (pop q true).0 (pop-shrinks n q h)

  -- Each element is given in the end: when as many `pop`s as elements wait, or more, find the lock
  -- free and nothing is pushed between them, they give all elements in order and leave none.
  pops-drain :
      (n : ℕ) (q : MtInQueue E H)
      → length (waiting q) ≤ n
      → (all_given q (pops n) ≡ waiting q) × (waiting (do_calls q (pops n)) ≡ [])
  pops-drain n q h =
      let left = length-zero (waiting (do_calls q (pops n))) (pops-empty n q h) in
      (
        sym (append-nil (all_given q (pops n)))
            ∙ ap (λ x. all_given q (pops n) ++ x) (sym left)
            ∙ do_calls-fifo q (pops n)
            ∙ ap (λ x. waiting q ++ x) (pops-accepted n q)
            ∙ append-nil (waiting q),
        left,
      )
