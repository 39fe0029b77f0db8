-- ===== src/Runtime.antt =====
-- runtime.rs: the executor of effects, over the drains, the spawning and the reactor. What the system
-- answers to the calls of one effect is an argument. A process is the number that the system gave it.
pub mod Messages
pub mod Kept
pub mod Tables
pub mod Tests
pub mod ExchangeTests
pub mod Executes
pub mod Answered
use Prim.Native.String.{◌++◌ as append}
use core_shift.Base.{
  ℕ, zero, suc, ◌+◌, ◌-◌, ◌%◌, ◌^◌, String, Bool, true, false, Option, none, some, List, [], ◌∷◌,
  ◌++◌, Result, ok, err, is_some, if◌then◌else◌,
}
use core_shift.Base.Int.{ℤ, pos, negsuc, neg}
use core_shift.Base.HashMap.{HashMap, get, insert, remove}
use core_shift.Base.Text.{to_string}
use core_shift.Core.Types.{
  Effect, Event, LogLevel, LogEvent, ControlSignal, IoStream, ExecSpec, ExecPolicy, CancelPolicy,
}
use core_shift.LowLevel.Libc.{Errno, SysError, syscall}
use core_shift.LowLevel.Sys
use core_shift.LowLevel.Exec
use core_shift.LowLevel.Fd.{Source, Sink}
use core_shift.LowLevel.Io.Drain.{FdSlot, DrainState, slot_of, read_fd, write_stdin}
use core_shift.LowLevel.Launch.{System, SpawnOptions, SpawnBackend, Running, spawn_start}
use core_shift.LowLevel.Spawn.{StatusMacros, ExitStatus, Waited, wait_step}
use core_shift.Runtime.Messages.{message, display}
use core_shift.LowLevel.Reactor
use core_shift.LowLevel.Reactor.{add_with_token}

-- A signal that has been sent: to which process, and whether to its group.
pub record Sent : Type 0 where
  pub signal : ControlSignal
  pub pid : ℕ
  pub is_group : Bool

-- The sink is what has been written to it; `sent` are the signals that have been sent.
pub record EffectExecutor : Type 0 where
  pub fd_map : HashMap ℕ
  pub processes : HashMap ℕ
  pub drains : HashMap DrainState
  pub sink : List (LogLevel × String)
  pub sent : List Sent
  pub next_handle : ℕ

unfoldable pub new : EffectExecutor
new = record { fd_map = []; processes = []; drains = []; sink = []; sent = []; next_handle = 1 }

-- The answers to the calls of one effect: of the start of a process, of `epoll_ctl`, of `waitpid`,
-- and the kernel's side of the three streams.
pub record Answers : Type 0 where
  pub system : System
  pub epoll : Option ℕ
  pub waited : List Waited
  pub stdout : Source
  pub stderr : Source
  pub stdin : Sink

unfoldable pub gen_handle : EffectExecutor → ℕ × EffectExecutor
gen_handle ex = (ex.next_handle, record ex { next_handle = (ex.next_handle + 1) % 2 ^ 64 })

abbrev pub ready_event : HashMap ℕ → Reactor.Event → List Event
ready_event fd_map ev = elim (get ev.token fd_map) [
  | none ↦ []
  | some job_id ↦ Event.job_fd_ready job_id ev.readable ev.writable ev.error ∷ []
]

-- `process_reactor_events`, on what the reactor's wait gives.
unfoldable pub process_reactor_events : EffectExecutor → List Reactor.Event → List Event
process_reactor_events ex [] = []
process_reactor_events ex (ev ∷ events) =
    let rest = process_reactor_events ex events in ready_event ex.fd_map ev ++ rest

abbrev raw_fd : Option FdSlot → Option ℕ
raw_fd none = none
raw_fd (some s) = some s.fd

unfoldable pub fd_of : IoStream → DrainState → Option ℕ
fd_of IoStream.stdout drain = raw_fd drain.stdout_slot
fd_of IoStream.stderr drain = raw_fd drain.stderr_slot
fd_of IoStream.stdin drain = raw_fd drain.stdin_slot

-- The token of a descriptor is its number.
unfoldable pub watch_stream : Answers → EffectExecutor → ℕ → ℕ → IoStream → EffectExecutor
unfolding fd_of add_with_token
watch_stream a ex id io stream = elim (get io ex.drains) [
  | none ↦ ex
  | some drain ↦ elim (fd_of stream drain) [
    | none ↦ ex
    | some fd ↦ elim (add_with_token a.epoll) [
      | err e ↦ ex
      | ok _ ↦ record ex { fd_map = insert fd id ex.fd_map }
    ]
  ]
]

unfoldable pub unwatch_stream : EffectExecutor → ℕ → IoStream → EffectExecutor
unfolding fd_of
unwatch_stream ex io stream = elim (get io ex.drains) [
  | none ↦ ex
  | some drain ↦ elim (fd_of stream drain) [
    | none ↦ ex
    | some fd ↦ record ex { fd_map = remove fd ex.fd_map }
  ]
]

unfoldable pub low_cancel : CancelPolicy → Sys.CancelPolicy
low_cancel CancelPolicy.none = Sys.CancelPolicy.none
low_cancel CancelPolicy.graceful = Sys.CancelPolicy.graceful
low_cancel CancelPolicy.kill = Sys.CancelPolicy.kill

unfoldable pub spawn_options : ExecSpec → ExecPolicy → SpawnOptions
unfolding low_cancel Exec.new
spawn_options exec policy = record {
  ctx = Exec.new exec.argv none none;
  stdin = exec.stdin;
  capture_stdout = exec.capture_stdout;
  capture_stderr = exec.capture_stderr;
  wait = false;
  pgroup = Sys.default_group;
  max_output = exec.max_output;
  timeout_ms = none;
  kill_grace_ms = policy.kill_grace_ms;
  cancel = low_cancel policy.cancel;
  backend = SpawnBackend.auto;
  early_exit = none;
}

-- The two handles, and the process and the drain under them.
unfoldable pub started :
    EffectExecutor → ℕ → Result Running SysError → EffectExecutor × Option Event
unfolding gen_handle display
started ex id (err e) =
    (ex, some (Event.process_spawn_failed id (append "spawn_failed: " (display e))))
started ex id (ok (pid, drain)) =
    let (proc_h, ex1) = gen_handle ex in
    let (io_h, ex2) = gen_handle ex1 in
    (
      record ex2 {
        processes = insert proc_h pid ex2.processes;
        drains = insert io_h drain ex2.drains;
      },
      some (Event.process_started id proc_h io_h),
    )

-- What sending the signal gives is passed over.
unfoldable pub kill_process : EffectExecutor → ControlSignal → ℕ → Bool → EffectExecutor
kill_process ex signal process is_group = elim (get process ex.processes) [
  | none ↦ ex
  | some pid ↦ record ex {
    sent = ex.sent ++ (record { signal = signal; pid = pid; is_group = is_group } ∷ []);
  }
]

abbrev as_status : ExitStatus → ℤ
as_status (ExitStatus.exited c) = c
as_status (ExitStatus.signaled sig) = neg sig

abbrev pub polled : ℕ → Result (Option ExitStatus) SysError → Option Event
polled id (ok none) = none
polled id (ok (some status)) = some (Event.process_exited id (some (as_status status)))
polled id (err e) = some (Event.process_exited id none)

-- `none`: the answers to `waitpid` are described no further.
unfoldable pub poll_process :
    Errno → StatusMacros → Answers → EffectExecutor → ℕ → ℕ → Option (Option Event)
unfolding wait_step
poll_process c w a ex id process = elim (get process ex.processes) [
  | none ↦ some none
  | some pid ↦ elim (wait_step c w a.waited) [
    | none ↦ none
    | some (status, rest) ↦ some (polled id status)
  ]
]

-- The drain after a call, whose result is passed over, so that the descriptor it gives is closed.
abbrev pub drain_after :
    {K : Type 0} → Option ((Result (Option FdSlot) SysError × DrainState) × K) → Option DrainState
drain_after none = none
drain_after (some ((r, drain), k)) = some drain

-- `if drain.stdout_slot.is_some() { let _ = drain.read_fd(true); }`, and so with the error stream.
unfoldable pub read_if : Errno → Bool → Source → DrainState → Option DrainState
unfolding read_fd
read_if c is_stdout source drain =
    if is_some (slot_of is_stdout drain)
    then drain_after (read_fd c drain is_stdout source)
    else some drain

unfoldable pub write_if : Errno → Sink → DrainState → Option DrainState
unfolding write_stdin
write_if c sink drain =
    if is_some drain.stdin_slot then drain_after (write_stdin c drain sink) else some drain

-- `none`: what the kernel answers is described no further.
unfoldable pub perform_streams : Errno → Answers → DrainState → Option DrainState
unfolding read_if write_if
perform_streams c a drain = elim (read_if c true a.stdout drain) [
  | none ↦ none
  | some drain1 ↦ elim (read_if c false a.stderr drain1) [
    | none ↦ none
    | some drain2 ↦ write_if c a.stdin drain2
  ]
]

unfoldable pub perform_io : Errno → Answers → EffectExecutor → ℕ → Option EffectExecutor
unfolding perform_streams
perform_io c a ex io = elim (get io ex.drains) [
  | none ↦ some ex
  | some drain ↦ elim (perform_streams c a drain) [
    | none ↦ none
    | some after ↦ some (record ex { drains = insert io after ex.drains })
  ]
]

unfoldable pub apply :
    Errno
    → StatusMacros
    → Answers
    → EffectExecutor
    → Effect
    → Option (EffectExecutor × Option Event)
unfolding message watch_stream unwatch_stream spawn_options spawn_start started kill_process
    poll_process perform_io
apply c w a ex (Effect.log level event) =
    some (record ex { sink = ex.sink ++ ((level, message event) ∷ []) }, none)
apply c w a ex (Effect.watch_stream id io stream) = some (watch_stream a ex id io stream, none)
apply c w a ex (Effect.unwatch_stream id io stream) = some (unwatch_stream ex io stream, none)
apply c w a ex (Effect.start_process id exec policy) =
    some (started ex id (spawn_start a.system id (spawn_options exec policy)).result)
apply c w a ex (Effect.kill_process id signal process is_group) =
    some (kill_process ex signal process is_group, none)
apply c w a ex (Effect.poll_process id process) = elim (poll_process c w a ex id process) [
  | none ↦ none
  | some event ↦ some (ex, event)
]
apply c w a ex (Effect.perform_io id io) = elim (perform_io c a ex io) [
  | none ↦ none
  | some after ↦ some (after, none)
]
