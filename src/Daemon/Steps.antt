-- ===== src/Daemon/Steps.antt =====
-- The rounds of the queue of run_daemon (lib.rs), action by action.
use core_shift.Base.{
  ℕ, zero, suc, ◌+◌, ◌<◌, ◌≡◌, refl, Option, none, some, List, [], ◌∷◌, ◌++◌, arith, length,
  length-append, All, All-append, ◌∙◌,
}
use core_shift.Base.HashMap.{get}
use core_shift.Core.Types.{Action, Effect, Event, ExecutionState, JobState}
use core_shift.Core.Dispatcher.{Dispatcher, dispatch}
use core_shift.Core.Effects.{with_io, resolve, resolve_effects}
use core_shift.MidLevel.Ipc.{IpcModule, Act}
use core_shift.Daemon.Interface.{Executor, Fits}
use core_shift.Daemon.Rank.{Answers}
use core_shift.Daemon.{Daemon, observed, apply_all, turn, drain_queue, intercept_all}

module _ (x : Executor) where
  -- A round and the rest of the loop.
  pub drain_queue-cons :
      (fuel : ℕ) (clock : ℕ → ℕ × ℕ) (d d' last : Daemon x) (a : Action) (queue more : List Action)
      (acts rest : List Act)
      → turn x clock d a ≡ some (d', more, acts)
      → drain_queue x fuel clock d' (queue ++ more) ≡ some (last, rest)
      → drain_queue x (suc fuel) clock d (a ∷ queue) ≡ some (last, acts ++ rest)
  unfolding drain_queue
  drain_queue-cons fuel clock d d' last a queue more acts rest e f = rw (e, f, drain_queue) refl

  -- An effect that gives no event.
  abbrev pub Silent : Effect → Type 0
  Silent (Effect.log level event) = Unit
  Silent (Effect.watch_stream id io stream) = Unit
  Silent (Effect.kill_process id signal process target) = Unit
  Silent _ = ⊥

  no_event :
      (s s' : x.State) (effect : Effect) (event : Option Event)
      → Silent effect
      → Fits effect event
      → x.apply s effect ≡ some (s', event)
      → x.apply s effect ≡ some (s', none)
  no_event s s' effect none u f e = e
  no_event s s' (Effect.log level event) (some _) u f e = absurd f
  no_event s s' (Effect.watch_stream id io stream) (some _) u f e = absurd f
  no_event s s' (Effect.kill_process id signal process target) (some _) u f e = absurd f
  no_event s s' _ (some _) u f e = absurd u

  -- The daemon has this dispatcher, this state and this server.
  pub record Has (c : Dispatcher) (s : ExecutionState) (m : IpcModule) (d : Daemon x) : Type 0 where
    pub core : d.core ≡ c
    pub state : d.state ≡ s
    pub ipc : d.ipc ≡ m

  module _ (answers : Answers x) where
    apply-Silent :
        (effects : List Effect) (d : Daemon x)
        → All Silent effects
        → (d' : Daemon x) × (apply_all x d effects ≡ some (d', [])) × Has d.core d.state d.ipc d'
    unfolding apply_all observed
    apply-Silent [] d h = (d, refl, record { core = refl; state = refl; ipc = refl })
    apply-Silent (effect ∷ effects) d h =
        let ((s, event), e) = answers d.executor effect in
        let q =
          no_event d.executor s effect event h.0 (x.apply-Fits d.executor effect s event e) e in
        let (last, r, same) = apply-Silent effects (record d { executor = s }) h.1 in
        (
          last,
          rw (q, r, apply_all) refl,
          record { core = same.core; state = same.state; ipc = same.ipc },
        )

    -- A log line, or the interest in a stream.
    abbrev pub Quiet : Action → Type 0
    Quiet (Action.emit_log level event) = Unit
    Quiet (Action.register_interest id stream) = Unit
    Quiet _ = ⊥

    pub Quiet-Silent :
        (s : ExecutionState) (a : Action) → Quiet a → All Silent (resolve_effects s (a ∷ [])).1
    unfolding resolve_effects resolve
    Quiet-Silent s (Action.emit_log level event) h = (tt, tt)
    Quiet-Silent s (Action.register_interest id stream) h = by_job (get id s.jobs)
      where
        by_handle :
            (o : Option ℕ)
            → All Silent
                (elim o [ none ↦ [] | some io ↦ Effect.watch_stream id io stream ∷ [] ] ++ [])
        by_handle none = tt
        by_handle (some io) = (tt, tt)

        by_job :
            (o : Option JobState)
            → All Silent (with_io o (λ io. Effect.watch_stream id io stream) ++ [])
        by_job none = tt
        by_job (some job) = by_handle job.io
    Quiet-Silent s _ h = absurd h

    -- A round whose effects give no event.
    pub turn-Silent :
        (clock : ℕ → ℕ × ℕ) (d : Daemon x) (a : Action)
        → let r = dispatch (clock d.rounds).0 (clock d.rounds).1 d.core d.state a in
          let resolved = resolve_effects r.state (a ∷ []) in
          let served = intercept_all d.ipc resolved.0 in
          All Silent resolved.1
          → (d' : Daemon x) × (turn x clock d a ≡ some (d', r.actions, served.1))
            × Has r.dispatcher r.state served.0 d'
    unfolding turn
    turn-Silent clock d a h =
        let r = dispatch (clock d.rounds).0 (clock d.rounds).1 d.core d.state a in
        let resolved = resolve_effects r.state (a ∷ []) in
        let d' : Daemon x = record d {
          core = r.dispatcher;
          state = r.state;
          ipc = (intercept_all d.ipc resolved.0).0;
          rounds = d.rounds + 1;
        } in
        let (last, e, has) = apply-Silent resolved.1 d' h in (last, rw (e, turn) refl, has)

    pub turn-Quiet :
        (clock : ℕ → ℕ × ℕ) (d : Daemon x) (a : Action)
        → Quiet a
        → (d' : Daemon x) × (turn x clock d a ≡ some (d', [], [])) × Has d.core d.state d.ipc d'
    unfolding dispatch intercept_all resolve_effects resolve
    turn-Quiet clock d (Action.emit_log level event) h =
        turn-Silent clock d (Action.emit_log level event)
          (Quiet-Silent d.state (Action.emit_log level event) h)
    turn-Quiet clock d (Action.register_interest id stream) h =
        turn-Silent clock d (Action.register_interest id stream)
          (Quiet-Silent d.state (Action.register_interest id stream) h)
    turn-Quiet clock d _ h = absurd h

    -- A queue of such actions is emptied, and nobody is answered.
    pub drain_queue-Quiet :
        (fuel : ℕ) (clock : ℕ → ℕ × ℕ) (d : Daemon x) (queue : List Action)
        → All Quiet queue
        → length queue < fuel
        → (d' : Daemon x) × (drain_queue x fuel clock d queue ≡ some (d', []))
          × Has d.core d.state d.ipc d'
    unfolding drain_queue
    drain_queue-Quiet zero clock d queue q h = absurd (omega arith)
    drain_queue-Quiet (suc fuel) clock d [] q h =
        (d, refl, record { core = refl; state = refl; ipc = refl })
    drain_queue-Quiet (suc fuel) clock d (a ∷ queue) q h =
        let (d', e, has) = turn-Quiet clock d a q.0 in
        let (last, r, same) =
          drain_queue-Quiet fuel clock d' (queue ++ []) (All-append Quiet queue [] q.1 tt)
            (omega (arith, h, length-append queue [])) in
        (
          last,
          drain_queue-cons fuel clock d d' last a queue [] [] [] e r,
          record {
            core = same.core ∙ has.core;
            state = same.state ∙ has.state;
            ipc = same.ipc ∙ has.ipc;
          },
        )
