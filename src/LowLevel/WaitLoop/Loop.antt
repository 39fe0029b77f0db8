-- ===== src/LowLevel/WaitLoop/Loop.antt =====
-- wait_loop of low_level/spawn/mod.rs as a whole. What the clock and the system answer in a round is
-- an argument; `reactor.del` is passed over, and an event comes with the kernel's side of the streams.
use core_shift.Base.{
  ℕ, ◌+◌, ◌*◌, Bool, true, false, Option, none, some, List, [], ◌∷◌, ◌++◌, Result, ok, err, ◌&&◌,
  ◌==◌, is_some, if◌then◌else◌,
}
use core_shift.LowLevel.Libc.{Errno, SysError}
use core_shift.LowLevel.Sys.{CancelPolicy, ProcessGroup}
use core_shift.Base.Int.{ℤ}
use core_shift.LowLevel.Fd.{Source, Sink}
use core_shift.LowLevel.Io.Drain.{
  FdSlot, DrainState, Taken, is_done, read_fd, write_stdin, take_all_slots, into_parts, without,
}
use core_shift.LowLevel.Reactor
use core_shift.LowLevel.Spawn.{StatusMacros, ExitStatus, Waited, wait_step, wait_blocking}
use core_shift.LowLevel.WaitLoop.{KillState, Signal, Options, Watch, round, wait_timeout}

pub record Output : Type 0 where
  pub pid : ℕ
  pub status : Option ExitStatus
  pub stdout : List ℕ
  pub stderr : List ℕ
  pub timed_out : Bool

-- An event of the poll, with what the kernel does at a read or a write of its stream.
pub record Ready : Type 0 where
  pub event : Reactor.Event
  pub source : Source
  pub sink : Sink

-- What one round is answered: by the clock, by `kill`, by `waitpid` without and with blocking, and by
-- the poll, which is given its timeout.
pub record Tick : Type 0 where
  pub now : ℕ
  pub killed : Result (Unit {0}) SysError
  pub waited : List Waited
  pub blocking : List Waited
  pub polled : ℤ → Result (List Ready) SysError

-- `slot.as_ref().map_or(false, |s| s.token == fd_token)`.
unfoldable pub has_token : Option FdSlot → ℕ → Bool
has_token none token = false
has_token (some s) token = s.token == token

-- `if ev.error`: the slot is given up.
unfoldable pub give_up : DrainState → ℕ → DrainState
unfolding has_token without
give_up d token =
    if has_token d.stdout_slot token
    then without true d
    else if has_token d.stderr_slot token
    then without false d
    else if has_token d.stdin_slot token
    then record d { stdin_slot = none; writer = record d.writer { buf = none } }
    else d

-- `let _ = …?`. `none`: the kernel's answers are described no further.
abbrev pub passed : {K : Type 0} → Option (Taken × K) → Option (Result DrainState SysError)
passed none = none
passed (some ((ok slot, d), k)) = some (ok d)
passed (some ((err e, d), k)) = some (err e)

unfoldable pub handle_ready : Errno → DrainState → Ready → Option (Result DrainState SysError)
unfolding give_up has_token read_fd write_stdin
handle_ready c d r =
    let token = r.event.token in
    if r.event.error
    then some (ok (give_up d token))
    else if has_token d.stdout_slot token && r.event.readable
    then passed (read_fd c d true r.source)
    else if has_token d.stderr_slot token && r.event.readable
    then passed (read_fd c d false r.source)
    else if has_token d.stdin_slot token && r.event.writable
    then passed (write_stdin c d r.sink)
    else some (ok d)

unfoldable pub handle_all : Errno → DrainState → List Ready → Option (Result DrainState SysError)
unfolding handle_ready
handle_all c d [] = some (ok d)
handle_all c d (r ∷ events) = elim (handle_ready c d r) [
  | none ↦ none
  | some (err e) ↦ some (err e)
  | some (ok d') ↦ handle_all c d' events
]

-- `if status_raw.is_none()`.
unfoldable pub poll_status :
    Errno
    → StatusMacros
    → Option ExitStatus
    → List Waited
    → Option (Result (Option ExitStatus) SysError)
unfolding wait_step
poll_status c w (some status) answers = some (ok (some status))
poll_status c w none answers = elim (wait_step c w answers) [
  | none ↦ none
  | some (status, rest) ↦ some status
]

unfoldable pub final_status :
    Errno → StatusMacros → Option ExitStatus → List Waited → Option (Result ExitStatus SysError)
unfolding wait_blocking
final_status c w (some status) answers = some (ok status)
final_status c w none answers = elim (wait_blocking c w answers) [
  | none ↦ none
  | some (status, rest) ↦ some status
]

abbrev pub Finished : Type 0
Finished = Result Output SysError × List Signal

-- What is returned once the drain is done.
abbrev pub output : ℕ → DrainState → Bool → ExitStatus → Output
output pid d timed_out status =
    let (stdout, stderr) = into_parts (take_all_slots d).1 in
    record {
      pid = pid;
      status = some status;
      stdout = stdout;
      stderr = stderr;
      timed_out = timed_out;
    }

-- `?`: an error ends the loop.
abbrev pub or_end :
    {A : Type 0}
    → List Signal
    → Option (Result A SysError)
    → (A → Option Finished)
    → Option Finished
or_end signals none go_on = none
or_end signals (some (err e)) go_on = some (err e, signals)
or_end signals (some (ok a)) go_on = go_on a

abbrev pub after_signals : List Signal → Option Finished → Option Finished
after_signals signals none = none
after_signals signals (some (r, more)) = some (r, signals ++ more)

-- The loop, with the signals that it sends. `none`: what it is answered is described no further.
unfoldable pub loop :
    Errno
    → StatusMacros
    → Options
    → ℕ
    → DrainState
    → Option ExitStatus
    → Watch
    → List Tick
    → Option Finished
unfolding round poll_status final_status is_done handle_all wait_timeout take_all_slots into_parts
loop c w o pid d status_raw watch [] = none
loop c w o pid d status_raw watch (t ∷ ticks) =
    let r = round o t.now t.killed watch in
    or_end r.signals (poll_status c w status_raw t.waited) (λ status.
      if is_done d
      then or_end r.signals (final_status c w status t.blocking)
          (λ s. some (ok (output pid d r.watch.timed_out s), r.signals))
      else or_end r.signals (some (t.polled (wait_timeout (is_some status) r.poll_timeout)))
          (λ events.
            or_end r.signals (handle_all c d events)
              (λ d'. after_signals r.signals (loop c w o pid d' status r.watch ticks))))

-- What the loop keeps to; `start` is the clock when it is entered.
unfoldable pub options : ℕ → Option ℕ → ℕ → CancelPolicy → ProcessGroup → Options
options start none kill_grace_ms cancel g = record {
  deadline = none;
  kill_grace_ms = kill_grace_ms;
  cancel = cancel;
  isolated = g.isolated;
  leader = g.leader;
}
options start (some t) kill_grace_ms cancel g = record {
  deadline = some (start + t * 1_000_000);
  kill_grace_ms = kill_grace_ms;
  cancel = cancel;
  isolated = g.isolated;
  leader = g.leader;
}

abbrev pub watching : Watch
watching = record { state = KillState.not_sent; timed_out = false }

unfoldable pub wait_loop :
    Errno → StatusMacros → Options → ℕ → DrainState → List Waited → List Tick → Option Finished
unfolding loop wait_step
wait_loop c w o pid d first ticks = elim (wait_step c w first) [
  | none ↦ none
  | some (err e, rest) ↦ some (err e, [])
  | some (ok status, rest) ↦ loop c w o pid d status watching ticks
]
