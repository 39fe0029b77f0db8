-- ===== src/Core/Dispatcher.antt =====
-- core/mod.rs: Dispatcher and Core::resolve_effects. The modules without fields (Lifecycle,
-- Process, Io, Result) have no entry in the record.
pub mod WellFormed
pub mod Isolation
use core_shift.Base.{ℕ, none, some, List, [], ◌∷◌, ◌++◌, Bool, ◌||◌, is_some}
use core_shift.Base.Int.{ℤ}
use core_shift.Base.HashMap.{get}
use core_shift.Core.Types.{Action, Event, Effect, ExecutionState}
use core_shift.Core.Admission
use core_shift.Core.Admission.{AdmissionControlModule}
use core_shift.Core.Timeout
use core_shift.Core.Timeout.{TimeoutPolicyModule}
use core_shift.Core.Lifecycle
use core_shift.Core.Process
use core_shift.Core.Io
use core_shift.Core.ResultStore

pub record Dispatcher : Type 0 where
  pub admission : AdmissionControlModule
  pub timeout : TimeoutPolicyModule

unfoldable pub new : Dispatcher
unfolding Admission.default Timeout.new
new = record { admission = Admission.default; timeout = Timeout.new }

-- What a call leaves: both mutated objects, and the actions that it returns.
pub record Dispatched : Type 0 where
  pub dispatcher : Dispatcher
  pub state : ExecutionState
  pub actions : List Action

-- `now` and `later` are the readings of the clock that the modules take, in their order.
unfoldable pub dispatch : ℕ → ℕ → Dispatcher → ExecutionState → Action → Dispatched
dispatch now later d s (Action.submit id owner exec policy) =
    let (admission, actions) = Admission.handle d.admission (Action.submit id owner exec policy) in
    record { dispatcher = record d { admission = admission }; state = s; actions = actions }
dispatch now later d s (Action.admitted id owner exec policy) =
    let action = Action.admitted id owner exec policy in
    let (s', started) = Lifecycle.handle s action in
    let (timeout, logged) = Timeout.handle now d.timeout action in
    record { dispatcher = record d { timeout = timeout }; state = s'; actions = started ++ logged }
dispatch now later d s (Action.start_process id exec policy) =
    let action = Action.start_process id exec policy in
    record { dispatcher = d; state = s; actions = Process.handle s action ++ Io.handle s action }
dispatch now later d s (Action.signal_process id signal) =
    let action = Action.signal_process id signal in
    let (s', noted) = Lifecycle.handle s action in
    record { dispatcher = d; state = s'; actions = noted ++ Process.handle s' action }
dispatch now later d s (Action.poll_process id) = record {
  dispatcher = d;
  state = s;
  actions = Process.handle s (Action.poll_process id);
}
dispatch now later d s (Action.finished id result) =
    let action = Action.finished id result in
    let (admission, freed) = Admission.handle d.admission action in
    let (timeout, untracked) = Timeout.handle now d.timeout action in
    let (s', stored) = ResultStore.handle now later s action in
    record {
      dispatcher = record { admission = admission; timeout = timeout };
      state = s';
      actions = freed ++ untracked ++ stored;
    }
dispatch now later d s (Action.control id signal) = record {
  dispatcher = d;
  state = s;
  actions = Process.handle s (Action.control id signal);
}
dispatch now later d s (Action.timeout_reached id) = record {
  dispatcher = d;
  state = s;
  actions = Process.handle s (Action.timeout_reached id);
}
dispatch now later d s (Action.kill_deadline_reached id) = record {
  dispatcher = d;
  state = s;
  actions = Process.handle s (Action.kill_deadline_reached id);
}
dispatch now later d s (Action.query id) =
    let (s', answered) = ResultStore.handle now later s (Action.query id) in
    record { dispatcher = d; state = s'; actions = answered }
dispatch now later d s _ = record { dispatcher = d; state = s; actions = [] }

-- No module that handles an event here keeps state of its own, so the dispatcher stays as it is.
unfoldable pub dispatch_event : ExecutionState → Event → ExecutionState × List Action
dispatch_event s (Event.process_started id process io) =
    let event = Event.process_started id process io in
    let (s', started) = Lifecycle.handle_event s event in (s', started ++ Io.handle_event s' event)
dispatch_event s (Event.process_spawn_failed id message) =
    Lifecycle.handle_event s (Event.process_spawn_failed id message)
dispatch_event s (Event.process_exited id status) =
    (s, ResultStore.handle_event s (Event.process_exited id status))
dispatch_event s (Event.job_fd_ready id readable writable error) =
    (s, Io.handle_event s (Event.job_fd_ready id readable writable error))

unfoldable pub compute_timeout_ms : ℕ → Dispatcher → ℤ
compute_timeout_ms now d = Timeout.compute_timeout_ms now d.timeout
