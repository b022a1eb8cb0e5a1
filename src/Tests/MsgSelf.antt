-- ===== src/Tests/MsgSelf.antt =====
-- msg_self/MsgSelf.cpp at small queues, as in ut/msg_self/MsgSelfTest.cpp.
use domino_library.Prelude.{ℕ, ◌≡◌, refl, List, [], ◌∷◌, some, arith}
use domino_library.MsgSelf.{MsgSelf, handle_all_msg}
use domino_library.MsgSelf.Count.{IsCounted, handle_all_msg-IsCounted}
use domino_library.MsgSelf.Order.{expected, queued, handle_all_msg_lem}

-- Each callback notes its number; `note_and_send` sends message 7 with high priority as well.
abbrev note : ℕ → List ℕ → List ℕ × List (ℕ × ℕ)
note m w = (m ∷ w, [])

abbrev note_and_send : ℕ → List ℕ → List ℕ × List (ℕ × ℕ)
note_and_send m w = (m ∷ w, (7, 2) ∷ [])

abbrev waiting : MsgSelf ℕ
waiting = queued (1 ∷ 2 ∷ []) (3 ∷ []) (4 ∷ 5 ∷ []) 5 0

waiting-IsCounted : IsCounted waiting
waiting-IsCounted = (refl, refl)

handle_all_msg_lem_example :
    handle_all_msg note 6 waiting [] ≡ some (queued (2 ∷ []) [] [] 1 1, 1 ∷ 3 ∷ 5 ∷ 4 ∷ [])
unfolding expected
handle_all_msg_lem_example =
    handle_all_msg_lem note (λ m w. refl) 6 (1 ∷ 2 ∷ []) (3 ∷ []) (4 ∷ 5 ∷ []) 5 0 [] refl
      (omega arith)

-- After a low message the handling stops, though its callback sent a high one.
abbrev one_low : MsgSelf ℕ
one_low = queued (1 ∷ []) [] [] 1 0

one_low_runs : handle_all_msg note_and_send 3 one_low [] ≡ some (queued [] [] (7 ∷ []) 1 2, 1 ∷ [])
unfolding handle_all_msg
one_low_runs = refl

handle_all_msg-IsCounted_example : IsCounted {M = ℕ} (queued [] [] (7 ∷ []) 1 2)
handle_all_msg-IsCounted_example =
    handle_all_msg-IsCounted note_and_send 3 one_low [] (queued [] [] (7 ∷ []) 1 2, 1 ∷ [])
      (refl, refl) one_low_runs
