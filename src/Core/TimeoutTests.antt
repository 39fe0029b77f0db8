-- ===== src/Core/TimeoutTests.antt =====
-- Runs of the deadlines (core/policy.rs).
use core_shift.Base.{
  ℕ, ◌+◌, ◌-◌, ◌≤◌, ◌<◌, ◌^◌, ◌≡◌, refl, true, false, none, some, List, [], ◌∷◌, ◌⊎◌, inl, inr,
  arith,
}
use mathlib.Core.List.{Perm}
use mathlib.Core.List.Perm
use core_shift.Core.Timeout.Order.{deadlines_any_order}
use core_shift.Base.Int.{pos, negsuc}
use core_shift.Core.Types.{Action, Event, ExecPolicy, CancelPolicy}
use core_shift.Core.Timeout
use core_shift.Core.Timeout.{
  TimeoutEntry, TimeoutPolicyModule, waiting_for_deadline, waiting_for_kill_grace,
  compute_timeout_ms, handle_event, as_millis, from_millis,
}
use core_shift.Core.Timeout.Deadlines.{
  Below, Attains, compute_timeout_ms_least, compute_timeout_ms_wraps,
}
use core_shift.Core.Timeout.Firing.{reached, expired, handle_event_fires_once}
use core_shift.Core.Tests.{spec}

-- Job 1 waits for its deadline at 500 ms, job 2 for the end of its grace at 300 ms.
abbrev two_deadlines : TimeoutPolicyModule
two_deadlines = record {
  tracking =
      (
        1,
        record {
          id = 1;
          state = waiting_for_deadline;
          deadline = 500_000_000;
          kill_grace_ms = 1000;
        },
      )
      ∷ (
        2,
        record {
          id = 2;
          state = waiting_for_kill_grace 300_000_000;
          deadline = 100_000_000;
          kill_grace_ms = 200;
        },
      )
      ∷ [];
}

compute_timeout_ms_least_example :
    ((two_deadlines.tracking ≡ []) × (compute_timeout_ms 0 two_deadlines ≡ negsuc 0))
    ⊎ ((n : ℕ) × (compute_timeout_ms 0 two_deadlines ≡ pos n)
        × Below n 0 two_deadlines.tracking
        × Attains n 0 two_deadlines.tracking)
compute_timeout_ms_least_example =
    compute_timeout_ms_least 0 two_deadlines (omega arith, (omega arith, tt))

abbrev in_other_order : TimeoutPolicyModule
in_other_order = record {
  tracking =
      (
        2,
        record {
          id = 2;
          state = waiting_for_kill_grace 300_000_000;
          deadline = 100_000_000;
          kill_grace_ms = 200;
        },
      )
      ∷ (
        1,
        record {
          id = 1;
          state = waiting_for_deadline;
          deadline = 500_000_000;
          kill_grace_ms = 1000;
        },
      )
      ∷ [];
}

deadlines_any_order_example :
    (compute_timeout_ms 0 two_deadlines ≡ compute_timeout_ms 0 in_other_order)
    × Perm
        (handle_event 0 two_deadlines (Event.process_exited 1 none)).0.tracking
        (handle_event 0 in_other_order (Event.process_exited 1 none)).0.tracking
    × Perm
        (handle_event 0 two_deadlines (Event.process_exited 1 none)).1
        (handle_event 0 in_other_order (Event.process_exited 1 none)).1
deadlines_any_order_example =
    deadlines_any_order 0 two_deadlines in_other_order (Event.process_exited 1 none)
      (Perm.swap _ _ []) (omega arith, (omega arith, tt))

-- The poll waits for the grace of job 2.
two_deadlines_300 : compute_timeout_ms 0 two_deadlines ≡ pos 300
unfolding compute_timeout_ms Timeout.scan Timeout.remaining_ms core_shift.Base.Int.as_i32
two_deadlines_300 = refl

abbrev long_policy : ExecPolicy
long_policy = record {
  timeout_ms = some 3_000_000_000;
  kill_grace_ms = 0;
  cancel = CancelPolicy.graceful;
}

-- The poll reads the clock half a millisecond after the admission.
compute_timeout_ms_wraps_example :
    compute_timeout_ms 1_500_000
      (Timeout.handle 1_000_000 Timeout.new (Action.admitted 7 0 spec long_policy)).0
    ≡ negsuc (2 ^ 32 - as_millis (1_000_000 + from_millis 3_000_000_000 - 1_500_000) - 1)
compute_timeout_ms_wraps_example =
    compute_timeout_ms_wraps 1_000_000 1_500_000 7 0 3_000_000_000 spec long_policy refl
      (omega arith) (omega arith) (omega arith)

-- That is -1294967297, which epoll_wait takes for no timeout.
wrapped_timeout :
    2 ^ 32 - as_millis (1_000_000 + from_millis 3_000_000_000 - 1_500_000) - 1 ≡ 1_294_967_296
wrapped_timeout = refl

handle_event_fires_once_example :
    let e = Event.process_exited 1 none in
    let first = handle_event 400_000_000 two_deadlines e in
    let second = handle_event 600_000_000 first.0 e in
    reached first.1 + reached second.1 ≡ expired 600_000_000 two_deadlines.tracking
handle_event_fires_once_example =
    handle_event_fires_once 400_000_000 600_000_000 two_deadlines (Event.process_exited 1 none)
      (Event.process_exited 1 none) (omega arith)
