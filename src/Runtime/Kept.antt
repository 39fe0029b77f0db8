-- ===== src/Runtime/Kept.antt =====
-- The effects of the executor (runtime.rs) that start no process, and its table of processes.
use core_shift.Base.{ℕ, ◌≡◌, refl, Result, ok, err, Option-cases, inl, inr, Ensures}
use core_shift.Base.HashMap.{get, insert}
use core_shift.Core.Types.{IoStream, ControlSignal}
use core_shift.LowLevel.Libc.{Errno, SysError}
use core_shift.LowLevel.Reactor.{add_with_token}
use core_shift.Runtime.{
  EffectExecutor, Answers, fd_of, watch_stream, unwatch_stream, kill_process, perform_streams,
  perform_io,
}

-- The effects that leave the table as it is.
unfoldable pub Keeps : EffectExecutor → EffectExecutor → Type 0
Keeps ex after = (after.processes ≡ ex.processes) × (after.next_handle ≡ ex.next_handle)

pub watch_stream-Keeps :
    (a : Answers) (ex : EffectExecutor) (id io : ℕ) (stream : IoStream)
    → Keeps ex (watch_stream a ex id io stream)
unfolding Keeps watch_stream
watch_stream-Keeps a ex id io stream = elim (Option-cases (get io ex.drains)) [
  | inl e ↦ rw (e, watch_stream) (refl, refl)
  | inr (drain, e) ↦ elim (Option-cases (fd_of stream drain)) [
    | inl f ↦ rw (e, f, watch_stream) (refl, refl)
    | inr (fd, f) ↦ rw (e, f, watch_stream) (added (add_with_token a.epoll) fd)
  ]
]
  where
    added :
        (r : Result (Unit {0}) SysError) (fd : ℕ)
        → Keeps ex (elim r [ err e ↦ ex | ok _ ↦ record ex { fd_map = insert fd id ex.fd_map } ])
    added (err e) fd = (refl, refl)
    added (ok u) fd = (refl, refl)

pub unwatch_stream-Keeps :
    (ex : EffectExecutor) (io : ℕ) (stream : IoStream) → Keeps ex (unwatch_stream ex io stream)
unfolding Keeps unwatch_stream
unwatch_stream-Keeps ex io stream = elim (Option-cases (get io ex.drains)) [
  | inl e ↦ rw (e, unwatch_stream) (refl, refl)
  | inr (drain, e) ↦ elim (Option-cases (fd_of stream drain)) [
    | inl f ↦ rw (e, f, unwatch_stream) (refl, refl)
    | inr (fd, f) ↦ rw (e, f, unwatch_stream) (refl, refl)
  ]
]

pub kill_process-Keeps :
    (ex : EffectExecutor) (signal : ControlSignal) (process : ℕ) (is_group : _)
    → Keeps ex (kill_process ex signal process is_group)
unfolding Keeps kill_process
kill_process-Keeps ex signal process is_group = elim (Option-cases (get process ex.processes)) [
  | inl e ↦ rw (e, kill_process) (refl, refl)
  | inr (pid, e) ↦ rw (e, kill_process) (refl, refl)
]

pub perform_io-Keeps :
    (c : Errno) (a : Answers) (ex : EffectExecutor) (io : ℕ)
    → Ensures (Keeps ex) (perform_io c a ex io)
unfolding Keeps perform_io
perform_io-Keeps c a ex io = elim (Option-cases (get io ex.drains)) [
  | inl e ↦ rw (e, perform_io, Ensures) (refl, refl)
  | inr (drain, e) ↦ elim (Option-cases (perform_streams c a drain)) [
    | inl f ↦ rw (e, f, perform_io, Ensures) tt
    | inr (after, f) ↦ rw (e, f, perform_io, Ensures) (refl, refl)
  ]
]
