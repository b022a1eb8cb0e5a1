-- ===== src/Tests/Notifier.antt =====
-- thread/MT_Notifier.cpp with a counter as the semaphore, as in ut/thread/MT_NotifierTest.cpp.
use domino_library.Prelude.{
  ℕ, zero, suc, ◌+◌, ◌*◌, ◌≡◌, ◌<◌, refl, true, false, List, [], ◌∷◌, Option, none, some,
  if◌then◌else◌, ◌==◌, arith, min,
}
use domino_library.MtNotifier.{
  Semaphore, SemaphoreLaws, WaitEvent, posted, taken, interrupted, Timespec, giga, deadline,
  timedwait, mt_req_main_th,
}
use domino_library.MtNotifier.Deadline.{deadline_lem}
use domino_library.MtNotifier.Wait.{
  timedwait_lem, n_posted, n_taken, ends, mt_req_main_ths, mt_req_main_ths_lem,
}

abbrev pred? : ℕ → Option ℕ
pred? zero = none
pred? (suc n) = some n

abbrev counter : Semaphore ℕ
counter = record {
  init = 0;
  post = λ n. if n == 1000 then n else suc n;
  take = pred?;
  value = λ n. n;
  max = 1000;
}

counter-take : (s n : ℕ) → s ≡ suc n → (s' : ℕ) × (pred? s ≡ some s') × (s' ≡ n)
counter-take zero n e = absurd (omega arith)
counter-take (suc s) n e = (s, refl, omega arith)

counter-take_none : (s : ℕ) → s ≡ 0 → pred? s ≡ none
counter-take_none zero e = refl
counter-take_none (suc s) e = absurd (omega arith)

counter_laws : SemaphoreLaws counter
counter_laws = record {
  value-init = refl;
  value-post = λ s. refl;
  take-none = counter-take_none;
  take-some = counter-take;
}

-- Two notifications during the wait, which fails once: the wait takes one, the loop the other two.
abbrev events : List WaitEvent
events = posted ∷ interrupted ∷ posted ∷ taken ∷ []

abbrev now : Timespec
now = record { tv_sec = 7; tv_nsec = 950000000 }

timedwait_lem_example :
    (timedwait counter false now 1 0 (λ until. events) 1 ≡ some 1)
    × (s' : ℕ) × (timedwait counter true now 1 0 (λ until. events) 1 ≡ some s')
    × (s' ≡ 0)
unfolding n_posted n_taken ends
timedwait_lem_example =
    timedwait_lem counter counter_laws now 1 0 (λ until. events) 1 events refl (omega arith) refl
      (omega arith)

deadline_lem_example :
    ((deadline now 1 100000000).tv_nsec < giga)
    × ((deadline now 1 100000000).tv_sec * giga + (deadline now 1 100000000).tv_nsec
        ≡ now.tv_sec * giga + now.tv_nsec + 1 * giga + min 100000000 999999999)
deadline_lem_example = deadline_lem now 1 100000000 (omega arith) (omega arith)

deadline_runs : deadline now 1 100000000 ≡ record { tv_sec = 9; tv_nsec = 50000000 }
unfolding deadline
deadline_runs = refl

mt_req_runs : (mt_req_main_th (mt_req_main_ths none (5 ∷ 6 ∷ [])) 6).1 ≡ false
mt_req_runs = mt_req_main_ths_lem 5 (6 ∷ []) 6
