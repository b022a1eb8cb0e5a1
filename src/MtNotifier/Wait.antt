-- ===== src/MtNotifier/Wait.antt =====
-- What `timedwait` of thread/MT_Notifier.cpp leaves of the notifications.
use domino_library.Prelude.{
  ℕ, zero, suc, ◌+◌, ◌-◌, ◌≡◌, ◌∙◌, ◌≤◌, refl, ap, Bool, true, false, List, [], ◌∷◌, Option, none,
  some, ◌==◌, arith,
}
use domino_library.MtNotifier.{
  Timespec, deadline, Semaphore, SemaphoreLaws, WaitEvent, posted, taken, timed_out, interrupted,
  mt_notify, drain, wait_loop, timedwait, mt_get_main_th, mt_req_main_th,
}

-- The notifications before the wait ends, and whether it takes one
unfoldable pub n_posted : List WaitEvent → ℕ
n_posted [] = 0
n_posted (posted ∷ events) = suc (n_posted events)
n_posted (taken ∷ events) = 0
n_posted (timed_out ∷ events) = 0
n_posted (interrupted ∷ events) = n_posted events

unfoldable pub n_taken : List WaitEvent → ℕ
n_taken [] = 0
n_taken (posted ∷ events) = n_taken events
n_taken (taken ∷ events) = 1
n_taken (timed_out ∷ events) = 0
n_taken (interrupted ∷ events) = n_taken events

-- sem_clockwait gives 0 or ETIMEDOUT at last.
unfoldable pub ends : List WaitEvent → Bool
ends [] = false
ends (posted ∷ events) = ends events
ends (taken ∷ events) = true
ends (timed_out ∷ events) = true
ends (interrupted ∷ events) = ends events

module _ {ℓ} {S : Type ℓ} (sem : Semaphore S) (laws : SemaphoreLaws sem) where
  drain-value :
      (rounds n : ℕ) (s : S) → sem.value s ≡ n → sem.value (drain sem rounds s) ≡ n - rounds
  unfolding drain
  drain-value zero n s e = omega (arith, e)
  drain-value (suc rounds) zero s e = rw (drain, laws.take-none s e) (omega (arith, e))
  drain-value (suc rounds) (suc n) s e =
      let (s', took, left) = laws.take-some s n e in
      rw (drain, took) (omega (arith, drain-value rounds n s' left))

  wait_loop_lem :
      (events : List WaitEvent) (s : S)
      → sem.value s + n_posted events ≤ sem.max
      → ends events ≡ true
      → n_taken events ≤ sem.value s + n_posted events
      → (s' : S) × (wait_loop sem events s ≡ some s')
        × (sem.value s' ≡ sem.value s + n_posted events - n_taken events - 100)
  unfolding wait_loop n_posted n_taken ends mt_notify
  wait_loop_lem [] s room e covered = cc
  wait_loop_lem (posted ∷ events) s room e covered =
      let up : sem.value (sem.post s) ≡ suc (sem.value s) = ground (arith, laws.value-post s) in
      let (s', ended, left) =
        wait_loop_lem events (sem.post s) (omega (arith, up)) e (omega (arith, up)) in
      (s', ended, omega (arith, left, up))
  wait_loop_lem (taken ∷ events) s room e covered =
      let n = sem.value s - 1 in
      let (s', took, left) = laws.take-some s n (omega arith) in
      (drain sem 100 s', rw (wait_loop, took) refl, omega (arith, drain-value 100 n s' left))
  wait_loop_lem (timed_out ∷ events) s room e covered =
      (drain sem 100 s, refl, omega (arith, drain-value 100 (sem.value s) s refl))
  wait_loop_lem (interrupted ∷ events) s room e covered = wait_loop_lem events s room e covered

  -- `timedwait` in the main thread returns when sem_clockwait gives 0 or ETIMEDOUT, whatever failed
  -- calls and notifications there are before; of the notifications, which do not exceed
  -- SEM_VALUE_MAX, those that the wait and the at most 100 calls of sem_trywait did not take are
  -- left, if the semaphore behaves as documented. In another thread it changes nothing.
  pub timedwait_lem :
      (now : Timespec) (sec rest_nsec : ℕ) (all_events : Timespec → List WaitEvent) (s : S)
      (events : List WaitEvent)
      → all_events (deadline now sec rest_nsec) ≡ events
      → sem.value s + n_posted events ≤ sem.max
      → ends events ≡ true
      → n_taken events ≤ sem.value s + n_posted events
      → (timedwait sem false now sec rest_nsec all_events s ≡ some s)
        × (s' : S) × (timedwait sem true now sec rest_nsec all_events s ≡ some s')
        × (sem.value s' ≡ sem.value s + n_posted events - n_taken events - 100)
  unfolding timedwait
  timedwait_lem now sec rest_nsec all_events s events here room e covered =
      let (s', ended, left) = wait_loop_lem events s room e covered in
      (refl, s', ap (λ es. wait_loop sem es s) here ∙ ended, left)

-- The calls of `mt_reqMainTH`, by thread
unfoldable pub mt_req_main_ths : Option ℕ → List ℕ → Option ℕ
unfolding mt_req_main_th
mt_req_main_ths main_th [] = main_th
mt_req_main_ths main_th (this_thread ∷ threads) =
    mt_req_main_ths (mt_req_main_th main_th this_thread).0 threads

-- The first thread that calls `mt_reqMainTH` is the main thread from then on: after any calls
-- `mt_reqMainTH` answers true to it, and false to every other.
pub mt_req_main_ths_lem :
    (first : ℕ) (threads : List ℕ) (this_thread : ℕ)
    → (mt_req_main_th (mt_req_main_ths none (first ∷ threads)) this_thread).1
      ≡ (first == this_thread)
unfolding mt_req_main_ths mt_req_main_th mt_get_main_th
mt_req_main_ths_lem first threads this_thread =
    ap (λ x. (mt_req_main_th x this_thread).1) (stays threads)
  where
    stays : (threads : List ℕ) → mt_req_main_ths (some first) threads ≡ some first
    stays [] = refl
    stays (x ∷ xs) = stays xs
