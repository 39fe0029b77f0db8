-- ===== src/Core/Tests.antt =====
-- Runs of the core (core/mod.rs) on one job.
use core_shift.Base.{◌+◌, ◌≤◌, ◌≡◌, refl, true, false, none, some, List, [], ◌∷◌, ok, All, arith}
use core_shift.Base.HashMap.{get, insert}
use core_shift.Core.Types.{
  Action, Event, ExecSpec, ExecPolicy, CancelPolicy, ControlSignal, ExecutionState, JobState,
  JobLifecycle, new_state,
}
use core_shift.Core.Admission
use core_shift.Core.Timeout
use core_shift.Core.Lifecycle
use core_shift.Core.Process
use core_shift.Core.Io
use core_shift.Core.Dispatcher
use core_shift.Core.Dispatcher.{dispatch, dispatch_event}
use core_shift.Core.Dispatcher.WellFormed.{
  WellFormed, new_state-WellFormed, dispatch-WellFormed, dispatch_event-WellFormed,
}
use core_shift.Core.Effects.{resolve_effects}
use core_shift.Core.Effects.Targets.{Aimed, resolve_effects-Aimed}
use core_shift.Core.Machine
use core_shift.Core.Machine.{Machine, Input, act, observe, run, step}
use core_shift.Core.Machine.Accounting.{IsBounded, admissions, completions, run-IsBounded}
use core_shift.Core.Machine.Muted.{graceful_stop_never_escalates}
use core_shift.Core.Machine.Stages.{Life, project}
use core_shift.Core.Machine.Stages.Followed.{run-Life}
use core_shift.Core.Machine.Stages.Ends.{Unfinished, run-Unfinished}
use core_shift.Base.Int.{pos}
use core_shift.Core.Machine.Tracking.{Tracked, run-Tracked, initial-Tracked}

abbrev pub spec : ExecSpec
spec = record {
  argv = "/system/bin/dumpsys" ∷ "battery" ∷ [];
  stdin = none;
  capture_stdout = true;
  capture_stderr = true;
  max_output = 4096;
}

abbrev pub policy : ExecPolicy
policy = record { timeout_ms = some 500; kill_grace_ms = 1000; cancel = CancelPolicy.graceful }

-- Job 7 is submitted, admitted and started; then its deadline passes.
abbrev inputs : List Input
inputs =
    act 0 0 (Action.submit 7 0 spec policy)
    ∷ act 0 0 (Action.admitted 7 0 spec policy)
    ∷ observe (Event.process_started 7 70 71)
    ∷ act 600_000_000 600_000_000 (Action.timeout_reached 7)
    ∷ []

abbrev started : Machine
started = (run Machine.initial inputs).0

abbrev pub job_7 : JobState
job_7 = record {
  id = 7;
  owner = 0;
  process = some 70;
  io = some 71;
  timed_out = false;
  pgroup = none;
  isolated = false;
}

-- The timeout of the running job asks for SIGTERM.
timed_out_job :
    (step started (act 0 0 (Action.timeout_reached 7))).1
    ≡ Action.signal_process 7 ControlSignal.graceful_stop ∷ []
unfolding Machine.initial Machine.run Machine.step Dispatcher.new dispatch dispatch_event
    Admission.default Admission.handle Timeout.new Timeout.handle Lifecycle.handle
    Lifecycle.handle_event Io.handle_event Process.handle get insert
timed_out_job = refl

initial-IsBounded : IsBounded Machine.initial
unfolding Machine.initial Dispatcher.new Admission.default
initial-IsBounded = omega arith

run-IsBounded_example :
    IsBounded (run Machine.initial inputs).0
    × (Machine.initial.dispatcher.admission.active_jobs + admissions (run Machine.initial inputs).1
        ≤ Machine.initial.dispatcher.admission.max_jobs + completions inputs)
run-IsBounded_example = run-IsBounded Machine.initial inputs initial-IsBounded

-- One job is admitted.
admissions_one : admissions (run Machine.initial inputs).1 ≡ 1
unfolding Machine.initial Machine.run Machine.step Dispatcher.new dispatch dispatch_event
    Admission.default Admission.handle Timeout.new Timeout.handle Lifecycle.handle
    Lifecycle.handle_event Io.handle_event Process.handle get insert
admissions_one = refl

run-Tracked_example : Tracked (run Machine.initial inputs).0
run-Tracked_example = run-Tracked Machine.initial inputs initial-Tracked

graceful_stop_never_escalates_example :
    let stopped =
      (step started (act 1 1 (Action.signal_process 7 ControlSignal.graceful_stop))).0 in
    let last = (run stopped (observe (Event.job_fd_ready 7 true false false) ∷ [])).0 in
    ((dispatch 9 9 last.dispatcher last.state (Action.kill_deadline_reached 7)).actions ≡ [])
    × ((dispatch 9 9 last.dispatcher last.state (Action.timeout_reached 7)).actions ≡ [])
    × ((dispatch 9 9 last.dispatcher last.state (Action.control 7 ControlSignal.force_kill)).actions
        ≡ [])
graceful_stop_never_escalates_example =
    graceful_stop_never_escalates 7 started (observe (Event.job_fd_ready 7 true false false) ∷ []) 1
      1 9 9 ControlSignal.force_kill (tt, tt)

dispatch-WellFormed_example :
    WellFormed (dispatch 0 0 Dispatcher.new new_state (Action.admitted 7 0 spec policy)).state
dispatch-WellFormed_example =
    dispatch-WellFormed new_state new_state-WellFormed 0 0 Dispatcher.new
      (Action.admitted 7 0 spec policy)

-- The state in which job 7 runs.
abbrev pub running : ExecutionState
running = record new_state { jobs = (7, job_7) ∷ []; lifecycle = (7, JobLifecycle.running) ∷ [] }

running-WellFormed : WellFormed running
unfolding dispatch dispatch_event Lifecycle.handle Lifecycle.handle_event get insert
running-WellFormed =
    dispatch_event-WellFormed
      (dispatch 0 0 Dispatcher.new new_state (Action.admitted 7 0 spec policy)).state
      dispatch-WellFormed_example (Event.process_started 7 70 71)

resolve_effects-Aimed_example :
    All
      (Aimed running)
      (resolve_effects running (Action.signal_process 7 ControlSignal.graceful_stop ∷ [])).1
resolve_effects-Aimed_example =
    resolve_effects-Aimed running (Action.signal_process 7 ControlSignal.graceful_stop ∷ [])
      running-WellFormed

run-Life_example :
    Life 7 inputs (project 7 Machine.initial.state) (project 7 (run Machine.initial inputs).0.state)
run-Life_example = run-Life 7 Machine.initial inputs

-- Job 7 is asked to stop, and has ended.
abbrev last_inputs : List Input
last_inputs =
    act 7 7 (Action.signal_process 7 ControlSignal.graceful_stop)
    ∷ act 8 8 (
        Action.finished 7
          (ok (record { status = some (pos 0); stdout = []; stderr = []; timed_out = true })))
    ∷ []

started-Unfinished : Unfinished (get 7 started.state.lifecycle)
unfolding Machine.initial Machine.run Machine.step Dispatcher.new dispatch dispatch_event
    Admission.default Admission.handle Timeout.new Timeout.handle Lifecycle.handle
    Lifecycle.handle_event Io.handle_event Process.handle get insert
started-Unfinished = tt

run-Unfinished_example : Unfinished (get 7 (run started last_inputs).0.state.lifecycle)
run-Unfinished_example = run-Unfinished 7 started last_inputs (tt, (tt, tt)) started-Unfinished
