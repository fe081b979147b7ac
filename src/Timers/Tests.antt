-- ===== src/Timers/Tests.antt =====
-- The theorems on two timers, the first of which has been cancelled.
use zmq_cn_comment.Base.{◌+◌, ◌≡◌, refl, [], ◌∷◌, some, length, arith}
use zmq_cn_comment.Timers.{Timer, Timers, timeout, execute}
use zmq_cn_comment.Timers.Live.{live, until_first, timeout-live}
use zmq_cn_comment.Timers.Execute.{due, execute-due}

abbrev cancelled : Timer
cancelled = record { timer_id = 1; interval = 10; handler = 0; arg = 0 }

abbrev waiting : Timer
waiting = record { timer_id = 2; interval = 25; handler = 1; arg = 7 }

abbrev two_timers : Timers
two_timers = record {
  next_timer_id = 2;
  timers = (10, cancelled) ∷ (25, waiting) ∷ [];
  cancelled_timers = 1 ∷ [];
}

timeout-live_example :
    ((timeout 20 two_timers).0 ≡ until_first 20 (live two_timers))
    × (live (timeout 20 two_timers).1 ≡ live two_timers)
timeout-live_example = timeout-live 20 two_timers refl (omega arith) refl

execute-due_example :
    (s' : Timers) × (execute (length (two_timers.timers) + 1) 30 two_timers
      ≡ some (due 30 (live two_timers), s'))
execute-due_example = execute-due 30 two_timers refl refl refl
