-- ===== src/Runtime/Answered.antt =====
-- The answers of the executor of runtime.rs to effects, and the daemon over it.
use core_shift.Base.{
  ℕ, ◌+◌, ◌≡◌, refl, sym, subst, Bool, true, false, Option, none, some, List, Result, ok, err,
  arith, Option-cases, inl, inr, is_some, Bool-cases,
}
use core_shift.Base.HashMap.{get, insert}
use core_shift.Core.Types.{Effect}
use core_shift.LowLevel.Libc.{Errno, SysError}
use core_shift.LowLevel.Fd.{Source, Sink}
use core_shift.LowLevel.Fd.Transfers.{Settles}
use core_shift.LowLevel.Io.Buffer.{read_from_fd}
use core_shift.LowLevel.Io.Buffer.Returns.{read_from_fd-returns}
use core_shift.LowLevel.Io.Writer.{WriterState, write_to_fd}
use core_shift.LowLevel.Io.Writer.Returns.{write_to_fd-returns}
use core_shift.LowLevel.Io.Drain.{FdSlot, DrainState, Taken, slot_of, without, read_fd, write_stdin}
use core_shift.LowLevel.Spawn.{StatusMacros}
use core_shift.LowLevel.Spawn.Waiting
use core_shift.LowLevel.Spawn.Waiting.{wait_step-returns}
use core_shift.LowLevel.Reactor
use core_shift.MidLevel.Ipc.{Act, Connection}
use core_shift.Daemon.{Daemon, run_daemon}
use core_shift.Daemon.Rank
use core_shift.Daemon.Rank.{run_daemon-returns}
use core_shift.Runtime.{
  EffectExecutor, Answers, poll_process, polled, read_if, write_if, perform_streams, perform_io,
  apply,
}
use core_shift.Runtime.Executes.{counted, apply_next, executor}

abbrev Has {ℓ} : {A : Type ℓ} → Option A → Type ℓ
Has {A = A} o = (a : A) × (o ≡ some a)

read_fd-returns :
    (c : Errno) (d : DrainState) (is_stdout : Bool) (source : Source)
    → Settles c source.answers
    → Has (read_fd c d is_stdout source)
unfolding read_fd
read_fd-returns c d is_stdout source h = elim (Option-cases (slot_of is_stdout d)) [
  | inl e ↦ (((ok none, d), source), rw (e, read_fd) refl)
  | inr (s, e) ↦
      let (out, f) = read_from_fd-returns c d.buffer source is_stdout d.early_exit h in
      taken s out e f
]
  where
    taken :
        (s : FdSlot) (out : Result Bool SysError × _ × Source)
        → slot_of is_stdout d ≡ some s
        → read_from_fd c d.buffer source is_stdout d.early_exit ≡ some out
        → Has (read_fd c d is_stdout source)
    taken s (err x, buffer, rest) e f =
        (((err x, record d { buffer = buffer }), rest), rw (e, f, read_fd) refl)
    taken s (ok false, buffer, rest) e f =
        (((ok none, record d { buffer = buffer }), rest), rw (e, f, read_fd) refl)
    taken s (ok true, buffer, rest) e f = (
      ((ok (some s), without is_stdout (record d { buffer = buffer })), rest),
      rw (e, f, read_fd) refl,
    )

-- What `write_stdin` makes of the writer's answer.
abbrev taken :
    DrainState → FdSlot → Option (Result Bool SysError × WriterState × Sink) → Option (Taken × Sink)
taken d s none = none
taken d s (some (err e, writer, sink)) = some ((err e, record d { writer = writer }), sink)
taken d s (some (ok false, writer, sink)) = some ((ok none, record d { writer = writer }), sink)
taken d s (some (ok true, writer, sink)) =
    some ((ok (some s), record d { writer = writer; stdin_slot = none }), sink)

taken-Has :
    (d : DrainState) (s : FdSlot) (out : Result Bool SysError × WriterState × Sink)
    → Has (taken d s (some out))
taken-Has d s (err e, writer, sink) = (_, refl)
taken-Has d s (ok false, writer, sink) = (_, refl)
taken-Has d s (ok true, writer, sink) = (_, refl)

write_slot : Errno → DrainState → Sink → Option FdSlot → Option (Taken × Sink)
write_slot c d sink none = some ((ok none, d), sink)
write_slot c d sink (some s) = taken d s (write_to_fd c d.writer sink)

write_slot-Has :
    (c : Errno) (d : DrainState) (sink : Sink) (o : Option FdSlot)
    → Settles c sink.answers
    → Has (write_slot c d sink o)
unfolding write_slot
write_slot-Has c d sink none h = (_, refl)
write_slot-Has c d sink (some s) h =
    let (out, f) = write_to_fd-returns c d.writer sink h in
    subst (λ r. Has (taken d s r)) (sym f) (taken-Has d s out)

write_stdin-slot :
    (c : Errno) (d : DrainState) (sink : Sink)
    → write_stdin c d sink ≡ write_slot c d sink d.stdin_slot
unfolding write_stdin write_slot
write_stdin-slot c d sink = ground arith

write_stdin-returns :
    (c : Errno) (d : DrainState) (sink : Sink) → Settles c sink.answers → Has (write_stdin c d sink)
write_stdin-returns c d sink h =
    subst Has (sym (write_stdin-slot c d sink)) (write_slot-Has c d sink d.stdin_slot h)

-- What the system answers settles each call: a stream's answers have an error other than
-- EINTR, and those to waitpid one other than EINTR.
pub record SettlesAll (c : Errno) (a : Answers) : Type 0 where
  pub stdout : Settles c a.stdout.answers
  pub stderr : Settles c a.stderr.answers
  pub stdin : Settles c a.stdin.answers
  pub waited : Waiting.Answers c a.waited

module _ (c : Errno) (w : StatusMacros) (a : Answers) (h : SettlesAll c a) where
  read_if-returns :
      (is_stdout : Bool) (source : Source) (d : DrainState)
      → Settles c source.answers
      → Has (read_if c is_stdout source d)
  unfolding read_if
  read_if-returns is_stdout source d s = elim (Bool-cases (is_some (slot_of is_stdout d))) [
    | inl is_open ↦
        let (((r, after), rest), e) = read_fd-returns c d is_stdout source s in
        (after, rw (is_open, e, read_if) refl)
    | inr shut ↦ (d, rw (shut, read_if) refl)
  ]

  write_if-returns : (d : DrainState) → Has (write_if c a.stdin d)
  unfolding write_if
  write_if-returns d = elim (Bool-cases (is_some d.stdin_slot)) [
    | inl is_open ↦
        let (((r, after), rest), e) = write_stdin-returns c d a.stdin h.stdin in
        (after, rw (is_open, e, write_if) refl)
    | inr shut ↦ (d, rw (shut, write_if) refl)
  ]

  perform_streams-returns : (d : DrainState) → Has (perform_streams c a d)
  unfolding perform_streams
  perform_streams-returns d =
      let (d1, e1) = read_if-returns true a.stdout d h.stdout in
      let (d2, e2) = read_if-returns false a.stderr d1 h.stderr in
      let (d3, e3) = write_if-returns d2 in (d3, rw (e1, e2, perform_streams) e3)

  perform_io-returns : (ex : EffectExecutor) (io : ℕ) → Has (perform_io c a ex io)
  unfolding perform_io
  perform_io-returns ex io = elim (Option-cases (get io ex.drains)) [
    | inl e ↦ (ex, rw (e, perform_io) refl)
    | inr (d, e) ↦
        let (after, f) = perform_streams-returns d in
        (record ex { drains = insert io after ex.drains }, rw (e, f, perform_io) refl)
  ]

  poll_process-returns :
      (ex : EffectExecutor) (id process : ℕ) → Has (poll_process c w a ex id process)
  unfolding poll_process
  poll_process-returns ex id process = elim (Option-cases (get process ex.processes)) [
    | inl e ↦ (none, rw (e, poll_process) refl)
    | inr (pid, e) ↦
        let ((status, rest), f) = wait_step-returns c w a.waited h.waited in
        (polled id status, rw (e, f, poll_process) refl)
  ]

  apply-returns : (ex : EffectExecutor) (effect : Effect) → Has (apply c w a ex effect)
  unfolding apply
  apply-returns ex (Effect.log level event) = (_, refl)
  apply-returns ex (Effect.watch_stream id io stream) = (_, refl)
  apply-returns ex (Effect.unwatch_stream id io stream) = (_, refl)
  apply-returns ex (Effect.start_process id exec policy) = (_, refl)
  apply-returns ex (Effect.kill_process id signal process is_group) = (_, refl)
  apply-returns ex (Effect.poll_process id process) =
      let (event, e) = poll_process-returns ex id process in ((ex, event), rw (e, apply) refl)
  apply-returns ex (Effect.perform_io id io) =
      let (after, e) = perform_io-returns ex io in ((after, none), rw (e, apply) refl)

-- If the system's answers settle each call that they are to, the executor answers every effect.
pub executor-Answers :
    (c : Errno) (w : StatusMacros) (answers : ℕ → Answers)
    → ((n : ℕ) → SettlesAll c (answers n))
    → Rank.Answers (executor c w answers)
unfolding apply_next
executor-Answers c w answers h (ex, n) effect =
    let ((after, event), e) = apply-returns c w (answers n) (h n) ex effect in
    (((after, n + 1), event), rw (e, apply_next, counted) refl)

-- The daemon over this executor goes through any sequence of what the reactor gives, an iteration
-- for each, if the system's answers settle each call: no iteration waits for ever, and the fuel of
-- the queue's loop is enough.
pub daemon_runs :
    (c : Errno) (w : StatusMacros) (answers : ℕ → Answers) (clock : ℕ → ℕ × ℕ)
    (d : Daemon (executor c w answers))
    (polled : List (Result (List (Reactor.Event × List Connection)) SysError))
    → ((n : ℕ) → SettlesAll c (answers n))
    → (out : Daemon (executor c w answers) × List Act) × (run_daemon
          (executor c w answers)
          clock
          d
          polled
        ≡ some out)
daemon_runs c w answers clock d polled h =
    run_daemon-returns (executor c w answers) (executor-Answers c w answers h) clock d polled
