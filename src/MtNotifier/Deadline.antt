-- ===== src/MtNotifier/Deadline.antt =====
-- The deadline that `timedwait` of thread/MT_Notifier.cpp computes.
use domino_library.Prelude.{ℕ, ◌+◌, ◌*◌, ◌^◌, ◌≡◌, ◌<◌, min, arith}
use domino_library.MtNotifier.{Timespec, giga, deadline}

-- The deadline is the time now and the seconds and nanoseconds asked for, of the latter at most
-- 999,999,999, in seconds and a rest below one second, if the seconds fit in 63 bits.
pub deadline_lem :
    (now : Timespec) (sec rest_nsec : ℕ)
    → now.tv_nsec < giga
    → now.tv_sec + sec + 1 < 2 ^ 63
    → ((deadline now sec rest_nsec).tv_nsec < giga)
      × ((deadline now sec rest_nsec).tv_sec * giga + (deadline now sec rest_nsec).tv_nsec
          ≡ now.tv_sec * giga + now.tv_nsec + sec * giga + min rest_nsec 999999999)
unfolding deadline
deadline_lem now sec rest_nsec h fits = (omega arith, omega arith)
