-- ===== src/Core/Lifecycle.antt =====
-- core/lifecycle.rs: LifecycleModule, which records jobs and their lifecycle.
use core_shift.Base.{ℕ, true, false, none, some, List, [], ◌∷◌}
use core_shift.Base.HashMap.{get, insert}
use core_shift.Core.Types.{
  Action, Event, ExecutionState, JobState, JobLifecycle, ControlSignal, LogLevel, LogEvent,
}

-- What `SignalProcess` notes on a job that is in the table.
unfoldable pub note_signal : ℕ → JobState → ControlSignal → ExecutionState → ExecutionState
note_signal id job ControlSignal.graceful_stop s = record s {
  jobs = insert id (record job { timed_out = true }) s.jobs;
  lifecycle = insert id JobLifecycle.terminating s.lifecycle;
}
note_signal id job ControlSignal.force_kill s = record s {
  lifecycle = insert id JobLifecycle.killed s.lifecycle;
}

unfoldable pub handle : ExecutionState → Action → ExecutionState × List Action
unfolding note_signal
handle s (Action.admitted id owner exec policy) = (
  record s {
    jobs =
        insert id
          (record {
            id = id;
            owner = owner;
            process = none;
            io = none;
            timed_out = false;
            pgroup = none;
            isolated = false;
          })
          s.jobs;
    lifecycle = insert id JobLifecycle.admitted s.lifecycle;
  },
  Action.start_process id exec policy ∷ [],
)
handle s (Action.signal_process id signal) = elim (get id s.jobs) [
  | none ↦ (s, [])
  | some job ↦ (note_signal id job signal s, [])
]
handle s _ = (s, [])

unfoldable pub handle_event : ExecutionState → Event → ExecutionState × List Action
handle_event s (Event.process_started id process_handle io_handle) = elim (get id s.jobs) [
  | none ↦ (s, [])
  | some job ↦ (
    record s {
      jobs = insert id (record job { process = some process_handle; io = some io_handle }) s.jobs;
      lifecycle = insert id JobLifecycle.running s.lifecycle;
    },
    Action.started id ∷ [],
  )
]
handle_event s (Event.process_spawn_failed id message) = (
  record s { lifecycle = insert id JobLifecycle.finished s.lifecycle },
  Action.rejected id ∷ Action.emit_log LogLevel.error (LogEvent.error id message) ∷ [],
)
handle_event s _ = (s, [])
