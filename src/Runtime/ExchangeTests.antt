-- ===== src/Runtime/ExchangeTests.antt =====
-- Runs of one exchange in bytes (lib.rs, mid_level/ipc.rs) over the executor of runtime.rs.
use core_shift.Base.{
  ℕ, false, Option, ◌==◌, if◌then◌else◌, ◌≡◌, refl, none, some, List, [], ◌∷◌, ok,
}
use core_shift.Base.HashMap.{get}
use core_shift.HighLevel.Api.{Command}
use core_shift.LowLevel.Libc.{linux}
use core_shift.LowLevel.Fd.{Answer, Sink, transfer, failed}
use core_shift.LowLevel.LaunchTests.{exits_only}
use core_shift.MidLevel.Router.{get_result, cancel}
use core_shift.MidLevel.Ipc
use core_shift.MidLevel.Ipc.{Connection}
use core_shift.Daemon.{Daemon, start}
use core_shift.Daemon.Rank
use core_shift.Daemon.Queries.{stored}
use core_shift.Core.Types.{JobState, JobLifecycle}
use core_shift.MidLevel.Wire
use core_shift.MidLevel.Wire.{Json}
use core_shift.Runtime.{EffectExecutor}
use core_shift.Runtime.Executes.{executor}
use core_shift.Runtime.Tests.{idle, first}

-- A decoder that knows one command, of one byte.
abbrev by_byte : List ℕ → Option Command
by_byte (b ∷ []) = if b == 7 then some (Command.dumpsys "battery" []) else none
by_byte _ = none

abbrev one_byte : Json
one_byte = record { from_slice = by_byte; to_vec = λ res. 0 ∷ [] }

abbrev two_each : List Answer
two_each =
    transfer 2
    ∷ transfer 2
    ∷ transfer 2
    ∷ transfer 2
    ∷ transfer 2
    ∷ transfer 2
    ∷ transfer 2
    ∷ transfer 2
    ∷ transfer 2
    ∷ []

abbrev empty_sink : Sink
empty_sink = record { written = []; answers = transfer 4 ∷ two_each }

-- A client that asks for the result of job 1, and there is none.
abbrev asker : Connection
asker = record { client_fd = 21; credentials = ok 0; decoded = λ uid. ok (some (get_result uid 1)) }

first_stored : stored first.state 1 ≡ none
unfolding start get
first_stored = refl

-- Job 7 runs, and a client asks for its stop.
abbrev job_7 : JobState
job_7 = record {
  id = 7;
  owner = 0;
  process = some 1;
  io = some 2;
  timed_out = false;
  pgroup = none;
  isolated = false;
}

abbrev busy : Daemon (executor linux exits_only (λ n. idle))
busy = record first {
  state = record {
    jobs = (7, job_7) ∷ [];
    lifecycle = (7, JobLifecycle.running) ∷ [];
    results = [];
  };
}

abbrev stopper : Connection
stopper = record { client_fd = 22; credentials = ok 0; decoded = λ uid. ok (some (cancel uid 7)) }
