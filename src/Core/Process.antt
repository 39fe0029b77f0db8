-- ===== src/Core/Process.antt =====
-- core/process.rs: ProcessModule, which turns control requests and deadlines into signals.
use core_shift.Base.{Bool, not, ◌&&◌, none, some, List, [], ◌∷◌, is_some, if◌then◌else◌}
use core_shift.Base.HashMap.{get}
use core_shift.Core.Types.{Action, Event, ExecutionState, JobState, ControlSignal}

-- The guard of all three arms: `job.process.is_some() && !job.timed_out`.
abbrev pub can_signal : JobState → Bool
can_signal job = is_some job.process && not job.timed_out

unfoldable pub handle : ExecutionState → Action → List Action
handle s (Action.control id signal) = elim (get id s.jobs) [
  | none ↦ []
  | some job ↦
      if can_signal job then Action.signal_process id signal ∷ Action.controlled id ∷ [] else []
]
handle s (Action.timeout_reached id) = elim (get id s.jobs) [
  | none ↦ []
  | some job ↦
      if can_signal job then Action.signal_process id ControlSignal.graceful_stop ∷ [] else []
]
handle s (Action.kill_deadline_reached id) = elim (get id s.jobs) [
  | none ↦ []
  | some job ↦ if can_signal job then Action.signal_process id ControlSignal.force_kill ∷ [] else []
]
handle s _ = []

unfoldable pub handle_event : ExecutionState → Event → List Action
handle_event s event = []
