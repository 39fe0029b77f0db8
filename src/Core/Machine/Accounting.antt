-- ===== src/Core/Machine/Accounting.antt =====
-- The job count of core/policy.rs against what is admitted and finished.
use core_shift.Base.{ℕ, ◌+◌, ◌≤◌, ◌≡◌, refl, ◌∙◌, List, [], ◌∷◌, ◌++◌, arith}
use core_shift.Core.Types.{Action, Event, ExecutionState, ControlSignal}
use core_shift.Core.Admission
use core_shift.Core.Admission.{AdmissionControlModule}
use core_shift.Core.Timeout
use core_shift.Core.Lifecycle
use core_shift.Core.Process
use core_shift.Core.Io
use core_shift.Core.ResultStore
use core_shift.Core.Dispatcher.{dispatch, dispatch_event}
use core_shift.Core.Machine.{Machine, Input, act, observe, step, run}

abbrev admits : Action → ℕ
admits (Action.admitted id owner exec policy) = 1
admits _ = 0

-- The jobs admitted by a list of emitted actions.
abbrev pub admissions : List Action → ℕ
admissions [] = 0
admissions (a ∷ actions) = admits a + admissions actions

abbrev finishes : Input → ℕ
finishes (act now later (Action.finished id result)) = 1
finishes _ = 0

-- The inputs that report a finished job.
abbrev pub completions : List Input → ℕ
completions [] = 0
completions (i ∷ inputs) = finishes i + completions inputs

admissions-append : (xs ys : List Action) → admissions (xs ++ ys) ≡ admissions xs + admissions ys
admissions-append [] ys = omega arith
admissions-append (x ∷ xs) ys = omega (arith, admissions-append xs ys)

abbrev pub IsBounded : Machine → Type 0
IsBounded m = m.dispatcher.admission.active_jobs ≤ m.dispatcher.admission.max_jobs

-- One step from `m` to `m'` that emits `out` keeps the account.
record Accounts (m m' : Machine) (out : List Action) (done : ℕ) : Type 0 where
  bounded : m'.dispatcher.admission.active_jobs ≤ m'.dispatcher.admission.max_jobs
  limit : m'.dispatcher.admission.max_jobs ≡ m.dispatcher.admission.max_jobs
  balance :
      m.dispatcher.admission.active_jobs + admissions out
      ≤ m'.dispatcher.admission.active_jobs + done

process-admissions : (s : ExecutionState) (a : Action) → admissions (Process.handle s a) ≡ 0
unfolding Process.handle
process-admissions s (Action.control id signal) = ground arith
process-admissions s (Action.timeout_reached id) = ground arith
process-admissions s (Action.kill_deadline_reached id) = ground arith
process-admissions s _ = refl

stored-admissions :
    (now later : ℕ) (s : ExecutionState) (a : Action)
    → admissions (ResultStore.handle now later s a).1 ≡ 0
unfolding ResultStore.handle
stored-admissions now later s (Action.query id) = ground arith
stored-admissions now later s (Action.finished id result) = ground arith
stored-admissions now later s _ = refl

event-admissions : (s : ExecutionState) (e : Event) → admissions (dispatch_event s e).1 ≡ 0
unfolding dispatch_event Lifecycle.handle_event Io.handle_event ResultStore.handle_event
event-admissions s (Event.process_started id process io) = ground arith
event-admissions s (Event.process_spawn_failed id message) = refl
event-admissions s (Event.process_exited id status) = ground arith
event-admissions s (Event.job_fd_ready id r w x) = ground arith

signal-admissions :
    (s : ExecutionState) (id : ℕ) (signal : ControlSignal)
    → admissions (Lifecycle.handle s (Action.signal_process id signal)).1 ≡ 0
unfolding Lifecycle.handle
signal-admissions s id signal = ground arith

act-Accounts :
    (m : Machine) (now later : ℕ) (a : Action)
    → IsBounded m
    → Accounts m
        (step m (act now later a)).0
        (step m (act now later a)).1
        (finishes (act now later a))
unfolding step dispatch Admission.handle Timeout.handle
act-Accounts m now later (Action.submit id owner exec policy) b = ground arith
act-Accounts m now later (Action.admitted id owner exec policy) b =
    unfold Lifecycle.handle in ground arith
act-Accounts m now later (Action.start_process id exec policy) b =
    unfold Process.handle Io.handle in ground arith
act-Accounts m now later (Action.signal_process id signal) b = ground (
  arith,
  signal-admissions m.state id signal,
  process-admissions (Lifecycle.handle m.state (Action.signal_process id signal)).0
      (Action.signal_process id signal),
  admissions-append (Lifecycle.handle m.state (Action.signal_process id signal)).1 (
      Process.handle (Lifecycle.handle m.state (Action.signal_process id signal)).0
        (Action.signal_process id signal)),
)
act-Accounts m now later (Action.finished id result) b =
    ground (arith, stored-admissions now later m.state (Action.finished id result))
act-Accounts m now later (Action.query id) b =
    ground (arith, stored-admissions now later m.state (Action.query id))
act-Accounts m now later (Action.control id signal) b =
    ground (arith, process-admissions m.state (Action.control id signal))
act-Accounts m now later (Action.timeout_reached id) b =
    ground (arith, process-admissions m.state (Action.timeout_reached id))
act-Accounts m now later (Action.kill_deadline_reached id) b =
    ground (arith, process-admissions m.state (Action.kill_deadline_reached id))
act-Accounts m now later (Action.poll_process id) b =
    ground (arith, process-admissions m.state (Action.poll_process id))
act-Accounts m now later _ b = ground arith

observe-Accounts :
    (m : Machine) (e : Event)
    → IsBounded m
    → Accounts m (step m (observe e)).0 (step m (observe e)).1 0
unfolding step
observe-Accounts m e b = ground (arith, event-admissions m.state e)

-- Two stretches of a run add up.
join-Accounts :
    (m m' m'' : Machine) (out more : List Action) (done rest : ℕ)
    → Accounts m m' out done
    → Accounts m' m'' more rest
    → Accounts m m'' (out ++ more) (done + rest)
join-Accounts m m' m'' out more done rest a b = record {
  bounded = b.bounded;
  limit = b.limit ∙ a.limit;
  balance = omega (arith, a.balance, b.balance, admissions-append out more);
}

run-Accounts :
    (m : Machine) (inputs : List Input)
    → IsBounded m
    → Accounts m (run m inputs).0 (run m inputs).1 (completions inputs)
unfolding run
run-Accounts m [] b = ground arith
run-Accounts m (act now later a ∷ inputs) b =
    let one = act-Accounts m now later a b in
    join-Accounts m (step m (act now later a)).0 _ _ _ _ _ one
      (run-Accounts (step m (act now later a)).0 inputs one.bounded)
run-Accounts m (observe e ∷ inputs) b =
    let one = observe-Accounts m e b in
    join-Accounts m (step m (observe e)).0 _ _ _ _ _ one
      (run-Accounts (step m (observe e)).0 inputs one.bounded)

-- From a machine whose count of active jobs is within `max_jobs`: whatever is dispatched and
-- observed, the count stays within it, and the jobs that the machine admits are at most `max_jobs`
-- more than those reported finished, less those that were active at the start.
pub run-IsBounded :
    (m : Machine) (inputs : List Input)
    → IsBounded m
    → IsBounded (run m inputs).0
      × (m.dispatcher.admission.active_jobs + admissions (run m inputs).1
          ≤ m.dispatcher.admission.max_jobs + completions inputs)
run-IsBounded m inputs b =
    let r = run-Accounts m inputs b in (r.bounded, omega (arith, r.bounded, r.limit, r.balance))
