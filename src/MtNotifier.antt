-- ===== src/MtNotifier.antt =====
-- thread/MT_Notifier.hpp, thread/MT_Notifier.cpp, thread/MT_PingMainTH.hpp and
-- thread/MT_PingMainTH.cpp: other threads wake the main thread from a timed wait.
pub mod Deadline
pub mod Wait
use domino_library.Prelude.{
  ℕ, zero, suc, ◌+◌, ◌-◌, ◌/◌, ◌%◌, ◌^◌, ◌≡◌, ◌<◌, min, Bool, true, false, List, [], ◌∷◌, Option,
  none, some, if◌then◌else◌, ◌==◌,
}

-- The semaphore of libc: `value` is its counter, `max` is SEM_VALUE_MAX, `take` a successful
-- decrement of sem_trywait or sem_clockwait, `none` where the counter is 0.
pub record Semaphore {ℓ} (S : Type ℓ) : Type ℓ where
  pub init : S
  pub post : S → S
  pub take : S → Option S
  pub value : S → ℕ
  pub max : ℕ

-- What sem_init, sem_post (EOVERFLOW included), sem_trywait and sem_clockwait document
pub record SemaphoreLaws {ℓ} {S : Type ℓ} (sem : Semaphore S) : Type ℓ where
  pub value-init : sem.value sem.init ≡ 0
  pub value-post :
      (s : S)
      → sem.value (sem.post s) ≡ (if sem.value s == sem.max then sem.value s else suc (sem.value s))
  pub take-none : (s : S) → sem.value s ≡ 0 → sem.take s ≡ none
  pub take-some :
      (s : S) (n : ℕ) → sem.value s ≡ suc n → (s' : S) × (sem.take s ≡ some s') × (sem.value s' ≡ n)

-- What happens while `timedwait` waits: another thread notifies; sem_clockwait gives 0, fails with
-- ETIMEDOUT, or fails otherwise
pub data WaitEvent : Type 0 where
  posted : WaitEvent
  taken : WaitEvent
  timed_out : WaitEvent
  interrupted : WaitEvent

pub record Timespec : Type 0 where
  pub tv_sec : ℕ
  pub tv_nsec : ℕ

abbrev pub giga : ℕ
giga = 1000000000

-- size_t and time_t have 64 bits.
unfoldable pub deadline : Timespec → (sec rest_nsec : ℕ) → Timespec
deadline now sec rest_nsec =
    let ns = (now.tv_nsec + min rest_nsec 999999999) % 2 ^ 64 in
    record { tv_sec = (now.tv_sec + (sec + ns / giga) % 2 ^ 64) % 2 ^ 64; tv_nsec = ns % giga }

module _ {ℓ} {S : Type ℓ} (sem : Semaphore S) where
  unfoldable pub mt_notify : S → S
  mt_notify s = sem.post s

  -- `for (int i = 0; i < 100 && sem_trywait(&mt_sem_) == 0; ++i);`
  unfoldable pub drain : ℕ → S → S
  drain zero s = s
  drain (suc rounds) s = elim (sem.take s) [ none ↦ s | some s' ↦ drain rounds s' ]

  -- The loop of `timedwait`; `none` is a wait that has not ended, and a 0 of sem_clockwait at a
  -- counter of 0, which it does not give.
  unfoldable pub wait_loop : List WaitEvent → S → Option S
  unfolding mt_notify drain
  wait_loop [] s = none
  wait_loop (posted ∷ events) s = wait_loop events (mt_notify s)
  wait_loop (taken ∷ events) s = elim (sem.take s) [ none ↦ none | some s' ↦ some (drain 100 s') ]
  wait_loop (timed_out ∷ events) s = some (drain 100 s)
  wait_loop (interrupted ∷ events) s = wait_loop events s

  -- `events` is what happens while sem_clockwait is called with a deadline.
  unfoldable pub timedwait :
      (main : Bool) (now : Timespec) (sec rest_nsec : ℕ)
      → (Timespec → List WaitEvent)
      → S
      → Option S
  unfolding wait_loop deadline
  timedwait main now sec rest_nsec events s =
      if main then wait_loop (events (deadline now sec rest_nsec)) s else some s

-- `s_mainTH` of `mt_getMainTH`: none before the first call, then the thread of that call
unfoldable pub mt_get_main_th : Option ℕ → (this_thread : ℕ) → Option ℕ × ℕ
mt_get_main_th none this_thread = (some this_thread, this_thread)
mt_get_main_th (some main) this_thread = (some main, main)

unfoldable pub mt_req_main_th : Option ℕ → (this_thread : ℕ) → Option ℕ × Bool
unfolding mt_get_main_th
mt_req_main_th main_th this_thread =
    let (main_th', main) = mt_get_main_th main_th this_thread in (main_th', main == this_thread)
