-- ===== src/Runtime/Tests.antt =====
-- Runs of the daemon over the executor of runtime.rs.
use core_shift.Base.{
  ℕ, ◌≤◌, ◌≡◌, refl, true, false, none, some, List, [], ◌∷◌, Result, ok, arith, inl,
}
use core_shift.Base.HashMap.{get}
use core_shift.Core.Types.{Effect, ControlSignal}
use core_shift.Base.Int.{pos}
use core_shift.HighLevel.Api.{Command}
use core_shift.LowLevel.Libc.{SysError, linux}
use core_shift.LowLevel.Fd.{failed}
use core_shift.LowLevel.LaunchTests.{system, exits_only}
use core_shift.LowLevel.Reactor
use core_shift.LowLevel.Spawn.{unchanged, changed}
use core_shift.MidLevel.Router.{exec}
use core_shift.MidLevel.Ipc.{Act, Connection}
use core_shift.Daemon.{Daemon, start, run_daemon}
use core_shift.Daemon.Clients.{one}
use core_shift.Daemon.Starved.{daemon_starves}
use core_shift.Daemon.Sound.{daemon_invariant}
use core_shift.Core.Dispatcher.WellFormed.{WellFormed, new_state-WellFormed}
use core_shift.Runtime.{EffectExecutor, Answers, new}
use core_shift.Runtime.Executes.{executor}
use core_shift.Runtime.Answered.{SettlesAll, daemon_runs}
use core_shift.Runtime.Tables.{execute_all, processes_kept}

-- Every stream would block, and every child is still running.
abbrev pub idle : Answers
idle = record {
  system = system;
  epoll = none;
  waited = unchanged ∷ [];
  stdout = record { pending = []; answers = failed 11 ∷ [] };
  stderr = record { pending = []; answers = failed 11 ∷ [] };
  stdin = record { written = []; answers = failed 11 ∷ [] };
}

pub idle-SettlesAll : (n : ℕ) → SettlesAll linux idle
idle-SettlesAll n = record {
  stdout = inl (λ e. absurd (omega arith));
  stderr = inl (λ e. absurd (omega arith));
  stdin = inl (λ e. absurd (omega arith));
  waited = tt;
}

abbrev pub clock : ℕ → ℕ × ℕ
clock n = (n, n)

abbrev pub first : Daemon (executor linux exits_only (λ n. idle))
first = start (executor linux exits_only (λ n. idle)) (new, 0)

-- The server's descriptor is ready, and a client asks for a dump.
abbrev pub knock : Reactor.Event
knock = record { token = 1; readable = true; writable = false; error = false }

abbrev pub client : Connection
client = record {
  client_fd = 20;
  credentials = ok 0;
  decoded = λ uid. ok (some (exec uid (Command.dumpsys "battery" [])));
}

abbrev visits : List (Result (List (Reactor.Event × List Connection)) SysError)
visits = ok (one knock client) ∷ ok [] ∷ []

daemon_runs_example :
    (out : Daemon (executor linux exits_only (λ n. idle)) × List Act) × (run_daemon
        (executor linux exits_only (λ n. idle))
        clock
        first
        visits
      ≡ some out)
daemon_runs_example = daemon_runs linux exits_only (λ n. idle) clock first visits idle-SettlesAll

after_visits :
    (out : Daemon (executor linux exits_only (λ n. idle)) × List Act) × (run_daemon
        (executor linux exits_only (λ n. idle))
        clock
        first
        visits
      ≡ some out)
after_visits = daemon_runs linux exits_only (λ n. idle) clock first visits idle-SettlesAll

nothing_stored : first.state.results ≡ []
unfolding start
nothing_stored = refl

daemon_starves_example :
    (after_visits.0.0.state.results ≡ [])
    × (first.core.admission.active_jobs ≤ after_visits.0.0.core.admission.active_jobs)
daemon_starves_example =
    daemon_starves (executor linux exits_only (λ n. idle)) clock first visits after_visits.0
      nothing_stored after_visits.1

first-WellFormed : WellFormed first.state
unfolding start
first-WellFormed = new_state-WellFormed

none_active : first.core.admission.active_jobs ≤ first.core.admission.max_jobs
unfolding start core_shift.Core.Admission.default
none_active = omega arith

daemon_invariant_example :
    WellFormed after_visits.0.0.state
    × (after_visits.0.0.core.admission.active_jobs ≤ after_visits.0.0.core.admission.max_jobs)
daemon_invariant_example =
    daemon_invariant (executor linux exits_only (λ n. idle)) clock first visits after_visits.0
      first-WellFormed none_active after_visits.1

-- Process 500 stands under handle 1, and is polled after it has exited with 0.
abbrev one_process : EffectExecutor
one_process = record {
  fd_map = [];
  processes = (1, 500) ∷ [];
  drains = [];
  sink = [];
  sent = [];
  next_handle = 3;
}

abbrev gone : Answers
gone = record idle { waited = changed (pos 0) ∷ [] }

abbrev poll_and_stop : List (Answers × Effect)
poll_and_stop =
    (gone, Effect.poll_process 7 1)
    ∷ (idle, Effect.kill_process 7 ControlSignal.graceful_stop 1 false)
    ∷ []

abbrev after_stop : EffectExecutor
after_stop = record one_process {
  sent = record { signal = ControlSignal.graceful_stop; pid = 500; is_group = false } ∷ [];
}

stopped : execute_all linux exits_only one_process poll_and_stop ≡ some after_stop
unfolding execute_all get core_shift.LowLevel.Spawn.decode_status
stopped = refl

processes_kept_example :
    ((h pid : ℕ) → get h one_process.processes ≡ some pid → get h after_stop.processes ≡ some pid)
    × (get after_stop.next_handle after_stop.processes ≡ none)
processes_kept_example =
    processes_kept linux exits_only one_process after_stop poll_and_stop (omega arith, tt)
      (omega arith) stopped
