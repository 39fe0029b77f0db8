-- ===== src/Core/Machine/Exits.antt =====
-- Who asks for exits and deadlines (core/mod.rs): no module of the core does of itself.
use core_shift.Base.{ℕ, String, Bool, ◌+◌, ◌≡◌, refl, List, [], ◌∷◌, ◌++◌, arith}
use core_shift.Core.Types.{Action, Event, ExecutionState, ControlSignal}
use core_shift.Core.Admission
use core_shift.Core.Timeout
use core_shift.Core.Lifecycle
use core_shift.Core.Process
use core_shift.Core.Io
use core_shift.Core.ResultStore
use core_shift.Core.Dispatcher.{dispatch, dispatch_event}
use core_shift.Core.Machine.{Machine, Input, act, observe, step, run}

-- The actions that look for an exit, report one, or report that a deadline has come.
abbrev pub settles : Action → ℕ
settles (Action.poll_process id) = 1
settles (Action.finished id result) = 1
settles (Action.timeout_reached id) = 1
settles (Action.kill_deadline_reached id) = 1
settles _ = 0

abbrev pub settling : List Action → ℕ
settling [] = 0
settling (a ∷ actions) = settles a + settling actions

-- No event among the inputs reports an exit.
abbrev pub Unexited : List Input → Type 0
Unexited [] = Unit
Unexited (observe (Event.process_exited id status) ∷ inputs) = ⊥
Unexited (i ∷ inputs) = Unexited inputs

pub settling-append : (xs ys : List Action) → settling (xs ++ ys) ≡ settling xs + settling ys
settling-append [] ys = omega arith
settling-append (x ∷ xs) ys = omega (arith, settling-append xs ys)

process-settling : (s : ExecutionState) (a : Action) → settling (Process.handle s a) ≡ 0
unfolding Process.handle
process-settling s (Action.control id signal) = ground arith
process-settling s (Action.timeout_reached id) = ground arith
process-settling s (Action.kill_deadline_reached id) = ground arith
process-settling s _ = refl

stored-settling :
    (now later : ℕ) (s : ExecutionState) (a : Action)
    → settling (ResultStore.handle now later s a).1 ≡ 0
unfolding ResultStore.handle
stored-settling now later s (Action.query id) = ground arith
stored-settling now later s (Action.finished id result) = ground arith
stored-settling now later s _ = refl

signal-settling :
    (s : ExecutionState) (id : ℕ) (signal : ControlSignal)
    → settling (Lifecycle.handle s (Action.signal_process id signal)).1 ≡ 0
unfolding Lifecycle.handle
signal-settling s id signal = ground arith

pub act-settling :
    (m : Machine) (now later : ℕ) (a : Action) → settling (step m (act now later a)).1 ≡ 0
unfolding step dispatch Admission.handle Timeout.handle
act-settling m now later (Action.submit id owner exec policy) = ground arith
act-settling m now later (Action.admitted id owner exec policy) =
    unfold Lifecycle.handle in ground arith
act-settling m now later (Action.start_process id exec policy) =
    unfold Process.handle Io.handle in ground arith
act-settling m now later (Action.signal_process id signal) = ground (
  arith,
  signal-settling m.state id signal,
  process-settling (Lifecycle.handle m.state (Action.signal_process id signal)).0
      (Action.signal_process id signal),
  settling-append (Lifecycle.handle m.state (Action.signal_process id signal)).1 (
      Process.handle (Lifecycle.handle m.state (Action.signal_process id signal)).0
        (Action.signal_process id signal)),
)
act-settling m now later (Action.finished id result) =
    ground (arith, stored-settling now later m.state (Action.finished id result))
act-settling m now later (Action.query id) =
    ground (arith, stored-settling now later m.state (Action.query id))
act-settling m now later (Action.control id signal) =
    ground (arith, process-settling m.state (Action.control id signal))
act-settling m now later (Action.timeout_reached id) =
    ground (arith, process-settling m.state (Action.timeout_reached id))
act-settling m now later (Action.kill_deadline_reached id) =
    ground (arith, process-settling m.state (Action.kill_deadline_reached id))
act-settling m now later (Action.poll_process id) =
    ground (arith, process-settling m.state (Action.poll_process id))
act-settling m now later _ = ground arith

pub started-settling :
    (s : ExecutionState) (id process io : ℕ)
    → settling (dispatch_event s (Event.process_started id process io)).1 ≡ 0
unfolding dispatch_event Lifecycle.handle_event Io.handle_event
started-settling s id process io = ground arith

pub ready-settling :
    (s : ExecutionState) (id : ℕ) (r w x : Bool)
    → settling (dispatch_event s (Event.job_fd_ready id r w x)).1 ≡ 0
unfolding dispatch_event Io.handle_event
ready-settling s id r w x = ground arith

pub failed-settling :
    (s : ExecutionState) (id : ℕ) (message : String)
    → settling (dispatch_event s (Event.process_spawn_failed id message)).1 ≡ 0
unfolding dispatch_event Lifecycle.handle_event
failed-settling s id message = refl

observed :
    (m : Machine) (e : Event)
    → settling (dispatch_event m.state e).1 ≡ 0
    → settling (step m (observe e)).1 ≡ 0
unfolding step
observed m e h = h

run-settling :
    (m : Machine) (i : Input) (inputs : List Input)
    → settling (step m i).1 ≡ 0
    → settling (run (step m i).0 inputs).1 ≡ 0
    → settling (run m (i ∷ inputs)).1 ≡ 0
unfolding run
run-settling m i inputs one more =
    omega (arith, settling-append (step m i).1 (run (step m i).0 inputs).1, one, more)

-- Whatever is dispatched and observed, as long as no event reports an exit: the machine emits no
-- action that polls a process or reports a job finished, and none that reports that a timeout or a
-- kill deadline has come.
pub run_unsettled :
    (m : Machine) (inputs : List Input) → Unexited inputs → settling (run m inputs).1 ≡ 0
unfolding run
run_unsettled m [] h = refl
run_unsettled m (act now later a ∷ inputs) h =
    let i = act now later a in
    run-settling m i inputs (act-settling m now later a) (run_unsettled (step m i).0 inputs h)
run_unsettled m (observe (Event.process_started id process io) ∷ inputs) h =
    let e = Event.process_started id process io in
    run-settling m (observe e) inputs (observed m e (started-settling m.state id process io))
      (run_unsettled (step m (observe e)).0 inputs h)
run_unsettled m (observe (Event.process_spawn_failed id message) ∷ inputs) h =
    let e = Event.process_spawn_failed id message in
    run-settling m (observe e) inputs (observed m e (failed-settling m.state id message))
      (run_unsettled (step m (observe e)).0 inputs h)
run_unsettled m (observe (Event.job_fd_ready id r w x) ∷ inputs) h =
    let e = Event.job_fd_ready id r w x in
    run-settling m (observe e) inputs (observed m e (ready-settling m.state id r w x))
      (run_unsettled (step m (observe e)).0 inputs h)
run_unsettled m (observe (Event.process_exited id status) ∷ inputs) h = absurd h
