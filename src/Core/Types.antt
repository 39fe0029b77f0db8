-- ===== src/Core/Types.antt =====
-- The data of core/mod.rs: specifications, results, logs, events, actions, effects and the state.
-- `usize`, `u64` and `u32` are numbers, `i32` is ℤ, `Instant` is nanoseconds, bytes are numbers.
use core_shift.Base.{ℕ, String, Bool, Option, List, [], Result}
use core_shift.Base.Int.{ℤ}
use core_shift.Base.HashMap.{HashMap}

pub data CancelPolicy : Type 0 where
  none graceful kill : CancelPolicy

abbrev pub ProcessHandle : Type 0
ProcessHandle = ℕ

abbrev pub IoHandle : Type 0
IoHandle = ℕ

pub record ExecSpec : Type 0 where
  pub argv : List String
  pub stdin : Option (List ℕ)
  pub capture_stdout : Bool
  pub capture_stderr : Bool
  pub max_output : ℕ

pub record ExecPolicy : Type 0 where
  pub timeout_ms : Option ℕ
  pub kill_grace_ms : ℕ
  pub cancel : CancelPolicy

pub record ExecResult : Type 0 where
  pub status : Option ℤ
  pub stdout : List ℕ
  pub stderr : List ℕ
  pub timed_out : Bool

pub data ExecError : Type 0 where
  spawn_failed runtime_error : ExecError
  internal : String → ExecError

pub record ExecOutcome : Type 0 where
  pub id : ℕ
  pub result : Result ExecResult ExecError

pub data LogLevel : Type 0 where
  info warn error : LogLevel

pub data LogEvent : Type 0 where
  submit : ℕ → LogEvent
  spawn : ℕ → ℤ → LogEvent
  cancel force_kill : ℕ → LogEvent
  exit : ℕ → Option ℤ → LogEvent
  timeout : ℕ → LogEvent
  error : ℕ → String → LogEvent

pub data ControlSignal : Type 0 where
  graceful_stop force_kill : ControlSignal

pub data IoStream : Type 0 where
  stdout stderr stdin : IoStream

-- The fields stand in the order of the source.
pub data Event : Type 0 where
  process_started : ℕ → ProcessHandle → IoHandle → Event
  process_spawn_failed : ℕ → String → Event
  process_exited : ℕ → Option ℤ → Event
  job_fd_ready : ℕ → Bool → Bool → Bool → Event

pub data Action : Type 0 where
  submit : ℕ → ℕ → ExecSpec → ExecPolicy → Action
  admitted : ℕ → ℕ → ExecSpec → ExecPolicy → Action
  rejected started controlled : ℕ → Action
  finished : ℕ → Result ExecResult ExecError → Action
  query_result : ℕ → Option ExecOutcome → Action
  start_process : ℕ → ExecSpec → ExecPolicy → Action
  signal_process : ℕ → ControlSignal → Action
  poll_process perform_io : ℕ → Action
  register_interest remove_interest : ℕ → IoStream → Action
  emit_log : LogLevel → LogEvent → Action
  control : ℕ → ControlSignal → Action
  query timeout_reached kill_deadline_reached : ℕ → Action

pub data Effect : Type 0 where
  log : LogLevel → LogEvent → Effect
  watch_stream unwatch_stream : ℕ → IoHandle → IoStream → Effect
  start_process : ℕ → ExecSpec → ExecPolicy → Effect
  kill_process : ℕ → ControlSignal → ProcessHandle → Bool → Effect
  poll_process : ℕ → ProcessHandle → Effect
  perform_io : ℕ → IoHandle → Effect

pub data JobLifecycle : Type 0 where
  submitted admitted running terminating killed finished : JobLifecycle

pub record JobState : Type 0 where
  pub id : ℕ
  pub owner : ℕ
  pub process : Option ProcessHandle
  pub io : Option IoHandle
  pub timed_out : Bool
  pub pgroup : Option ℤ
  pub isolated : Bool

pub record StoredResult : Type 0 where
  pub result : Result ExecResult ExecError
  pub owner : ℕ
  pub created : ℕ

pub record ExecutionState : Type 0 where
  pub jobs : HashMap JobState
  pub lifecycle : HashMap JobLifecycle
  pub results : HashMap StoredResult

abbrev pub new_state : ExecutionState
new_state = record { jobs = []; lifecycle = []; results = [] }
