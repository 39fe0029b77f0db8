-- ===== src/Runtime/Executes.antt =====
-- The executor of runtime.rs as the loop of run_daemon (lib.rs) uses it.
use core_shift.Base.{
  ℕ, ◌+◌, ◌≡◌, refl, subst, Option, none, some, List, [], ◌∷◌, Result, ok, err, All, All-append,
  arith, Option-cases, inl, inr, Ensures, Ensures-some,
}
use core_shift.Base.HashMap.{HashMap, get}
use core_shift.Core.Types.{Effect, Event, ExecSpec, ExecPolicy}
use core_shift.LowLevel.Libc.{Errno, SysError}
use core_shift.LowLevel.Reactor
use core_shift.LowLevel.Launch.{Running, spawn_start}
use core_shift.LowLevel.Spawn.{StatusMacros, ExitStatus, wait_step}
use core_shift.Daemon.Interface.{Executor, Fits, IsReady}
use core_shift.Runtime.{
  EffectExecutor, Answers, process_reactor_events, ready_event, started, poll_process, polled,
  perform_io, spawn_options, apply,
}

-- An effect's event, of its outcome.
abbrev FitsIn : Effect → EffectExecutor × Option Event → Type 0
FitsIn effect (ex, event) = Fits effect event

started-Fits :
    (ex : EffectExecutor) (id : ℕ) (exec : ExecSpec) (policy : ExecPolicy)
    (r : Result Running SysError)
    → FitsIn (Effect.start_process id exec policy) (started ex id r)
unfolding started
started-Fits ex id exec policy (err e) = refl
started-Fits ex id exec policy (ok (pid, drain)) = refl

polled-Fits :
    (id process : ℕ) (r : Result (Option ExitStatus) SysError)
    → Fits (Effect.poll_process id process) (polled id r)
polled-Fits id process (ok none) = tt
polled-Fits id process (ok (some status)) = refl
polled-Fits id process (err e) = refl

-- The answer to a poll that is made.
poll_process-Fits :
    (c : Errno) (w : StatusMacros) (a : Answers) (ex : EffectExecutor) (id process : ℕ)
    → Ensures (Fits (Effect.poll_process id process)) (poll_process c w a ex id process)
unfolding poll_process
poll_process-Fits c w a ex id process = elim (Option-cases (get process ex.processes)) [
  | inl e ↦ rw (e, poll_process, Ensures) tt
  | inr (pid, e) ↦ elim (Option-cases (wait_step c w a.waited)) [
    | inl f ↦ rw (e, f, poll_process, Ensures) tt
    | inr ((status, rest), f) ↦ rw (e, f, poll_process, Ensures) (polled-Fits id process status)
  ]
]

apply-Fits :
    (c : Errno) (w : StatusMacros) (a : Answers) (ex : EffectExecutor) (effect : Effect)
    → Ensures (FitsIn effect) (apply c w a ex effect)
unfolding apply
apply-Fits c w a ex (Effect.log level event) = tt
apply-Fits c w a ex (Effect.watch_stream id io stream) = tt
apply-Fits c w a ex (Effect.unwatch_stream id io stream) = tt
apply-Fits c w a ex (Effect.start_process id exec policy) =
    started-Fits ex id exec policy (spawn_start a.system id (spawn_options exec policy)).result
apply-Fits c w a ex (Effect.kill_process id signal process is_group) = tt
apply-Fits c w a ex (Effect.poll_process id process) =
    elim (Option-cases (poll_process c w a ex id process)) [
      | inl e ↦ rw (e, apply, Ensures) tt
      | inr (event, e) ↦
          rw (e, apply, Ensures)
            (Ensures-some (Fits (Effect.poll_process id process)) (poll_process c w a ex id process)
              event e (poll_process-Fits c w a ex id process))
    ]
apply-Fits c w a ex (Effect.perform_io id io) = elim (Option-cases (perform_io c a ex io)) [
  | inl e ↦ rw (e, apply, Ensures) tt
  | inr (after, e) ↦ rw (e, apply, Ensures) tt
]

ready_event-IsReady :
    (fd_map : HashMap ℕ) (ev : Reactor.Event) → All IsReady (ready_event fd_map ev)
ready_event-IsReady fd_map ev = elim (Option-cases (get ev.token fd_map)) [
  | inl e ↦ rw (e, ready_event) tt
  | inr (id, e) ↦ rw (e, ready_event) (tt, tt)
]

pub process_reactor_events-IsReady :
    (ex : EffectExecutor) (events : List Reactor.Event)
    → All IsReady (process_reactor_events ex events)
unfolding process_reactor_events
process_reactor_events-IsReady ex [] = tt
process_reactor_events-IsReady ex (ev ∷ events) =
    All-append IsReady (ready_event ex.fd_map ev) (process_reactor_events ex events)
      (ready_event-IsReady ex.fd_map ev) (process_reactor_events-IsReady ex events)

-- The number of the effects, behind the outcome of one.
abbrev pub counted :
    ℕ → Option (EffectExecutor × Option Event) → Option ((EffectExecutor × ℕ) × Option Event)
counted n none = none
counted n (some (ex, event)) = some ((ex, n), event)

counted-Fits :
    (effect : Effect) (n : ℕ) (r : Option (EffectExecutor × Option Event)) (s : EffectExecutor × ℕ)
    (event : Option Event)
    → Ensures (FitsIn effect) r
    → counted n r ≡ some (s, event)
    → Fits effect event
counted-Fits effect n none s event f h = absurd (ground arith)
counted-Fits effect n (some (ex, given)) s event f h =
    subst (λ r. Ensures (λ t. Fits effect t.1) r) h f

module _ (c : Errno) (w : StatusMacros) (answers : ℕ → Answers) where
  -- The executor, with the number of the effects so far, by which the system's answers are read.
  unfoldable pub apply_next :
      EffectExecutor × ℕ → Effect → Option ((EffectExecutor × ℕ) × Option Event)
  unfolding apply
  apply_next (ex, n) effect = counted (n + 1) (apply c w (answers n) ex effect)

  pub apply_next-Fits :
      (s : EffectExecutor × ℕ) (effect : Effect) (s' : EffectExecutor × ℕ) (event : Option Event)
      → apply_next s effect ≡ some (s', event)
      → Fits effect event
  unfolding apply_next
  apply_next-Fits (ex, n) effect s' event h =
      counted-Fits effect (n + 1) (apply c w (answers n) ex effect) s' event
        (apply-Fits c w (answers n) ex effect) h

  -- What the loop asks of an executor.
  abbrev pub executor : Executor
  executor = record {
    State = EffectExecutor × ℕ;
    apply = apply_next;
    ready = λ s events. process_reactor_events s.0 events;
    apply-Fits = apply_next-Fits;
    ready-IsReady = λ s events. process_reactor_events-IsReady s.0 events;
  }
