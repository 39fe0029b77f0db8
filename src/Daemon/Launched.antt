-- ===== src/Daemon/Launched.antt =====
-- The round of the queue of run_daemon (lib.rs) that starts the process of a job.
use core_shift.Base.{
  String, ℕ, ◌+◌, ◌≡◌, refl, Option, none, some, List, [], ◌∷◌, ◌++◌, inl, inr, ◌⊎◌,
}
use core_shift.Base.HashMap.{get}
use core_shift.Core.Types.{
  Action, Effect, Event, ExecSpec, ExecPolicy, JobState, IoStream, LogLevel, LogEvent,
}
use core_shift.Core.Lifecycle
use core_shift.Core.Io
use core_shift.Core.Process
use core_shift.Core.Dispatcher.{dispatch, dispatch_event}
use core_shift.Core.Effects.{resolve, resolve_effects}
use core_shift.Daemon.Interface.{Executor, Fits}
use core_shift.Daemon.Rank.{Answers}
use core_shift.Daemon.{Daemon, observed, apply_all, turn, intercept_all}

module _ (x : Executor) (answers : Answers x) (clock : ℕ → ℕ × ℕ) where
  -- The start of a process gives one of two events about its job.
  abbrev Starts : x.State → x.State → ℕ → Effect → Type 0
  Starts s s' id effect =
      ((process : ℕ) × (io : ℕ) × (x.apply s effect
          ≡ some (s', some (Event.process_started id process io))))
      ⊎ ((message : String) × (x.apply s effect
            ≡ some (s', some (Event.process_spawn_failed id message))))

  start_event :
      (s s' : x.State) (id : ℕ) (exec : ExecSpec) (policy : ExecPolicy) (event : Option Event)
      → Fits (Effect.start_process id exec policy) event
      → x.apply s (Effect.start_process id exec policy) ≡ some (s', event)
      → Starts s s' id (Effect.start_process id exec policy)
  start_event s s' id exec policy none f e = absurd f
  start_event s s' id exec policy (some (Event.process_started j process io)) f e =
      inl (process, io, rw f at e)
  start_event s s' id exec policy (some (Event.process_spawn_failed j message)) f e =
      inr (message, rw f at e)
  start_event s s' id exec policy (some (Event.process_exited j status)) f e = absurd f
  start_event s s' id exec policy (some (Event.job_fd_ready j r w o)) f e = absurd f

  -- The queue after the start of a job that is in the table.
  abbrev pub Started : ℕ → List Action → Type 0
  Started id more =
      (more
        ≡ Action.started id
          ∷ Action.register_interest id IoStream.stdout
          ∷ Action.register_interest id IoStream.stderr
          ∷ Action.register_interest id IoStream.stdin
          ∷ [])
      ⊎ ((event : LogEvent) × (more
            ≡ Action.rejected id ∷ Action.emit_log LogLevel.error event ∷ []))

  -- The actions that the event puts on the queue.
  abbrev seen : Daemon x → Event → List Action
  seen d event = ((dispatch_event d.state event).1 ++ []) ++ []

  turn_event :
      (d : Daemon x) (s : x.State) (id : ℕ) (exec : ExecSpec) (policy : ExecPolicy) (event : Event)
      → x.apply d.executor (Effect.start_process id exec policy) ≡ some (s, some event)
      → turn x clock d (Action.start_process id exec policy)
        ≡ some (
          record d {
            executor = s;
            state = (dispatch_event d.state event).0;
            rounds = d.rounds + 1;
          },
          seen d event,
          [],
        )
  unfolding turn dispatch Process.handle Io.handle resolve_effects resolve apply_all observed
      intercept_all
  turn_event d s id exec policy event e = rw (e, turn) refl

  Started-Started :
      (d : Daemon x) (id process io : ℕ) (job : JobState)
      → get id d.state.jobs ≡ some job
      → Started id (seen d (Event.process_started id process io))
  unfolding dispatch_event Lifecycle.handle_event Io.handle_event
  Started-Started d id process io job present = inl (rw (present, Lifecycle.handle_event) refl)

  failed-Started :
      (d : Daemon x) (id : ℕ) (message : String)
      → Started id (seen d (Event.process_spawn_failed id message))
  unfolding dispatch_event Lifecycle.handle_event
  failed-Started d id message = inr (LogEvent.error id message, refl)

  pub turn_start :
      (d : Daemon x) (id : ℕ) (exec : ExecSpec) (policy : ExecPolicy) (job : JobState)
      → get id d.state.jobs ≡ some job
      → (d' : Daemon x) × (more : List Action) × (turn x clock d
            (Action.start_process id exec policy)
          ≡ some (d', more, []))
        × (d'.ipc ≡ d.ipc)
        × Started id more
  turn_start d id exec policy job present =
      let effect = Effect.start_process id exec policy in
      let ((s, event), e) = answers d.executor effect in
      elim (start_event d.executor s id exec policy event (x.apply-Fits d.executor effect s event e)
        e) [
          | inl (process, io, q) ↦ (
            _,
            _,
            turn_event d s id exec policy (Event.process_started id process io) q,
            refl,
            Started-Started d id process io job present,
          )
          | inr (message, q) ↦ (
            _,
            _,
            turn_event d s id exec policy (Event.process_spawn_failed id message) q,
            refl,
            failed-Started d id message,
          )
        ]
