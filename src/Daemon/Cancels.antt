-- ===== src/Daemon/Cancels.antt =====
-- What a client that asks for the stop of a job gets of an iteration of run_daemon (lib.rs).
use core_shift.Base.{
  ℕ, ◌≡◌, refl, sym, ap, subst, ◌∙◌, true, false, ◌⊎◌, Option, none, some, List, [], ◌∷◌, ◌++◌, ok,
  inl, inr, All, is_some, ◌||◌, Option-cases, Bool-cases,
}
use core_shift.Base.HashMap.{get, get-insert_self}
use core_shift.Core.Types.{Action, Effect, ExecutionState, JobState, JobLifecycle, ControlSignal}
use core_shift.Core.Lifecycle
use core_shift.Core.Process
use core_shift.Core.Process.{can_signal}
use core_shift.Core.Dispatcher.{dispatch}
use core_shift.Core.Effects.{resolve, resolve_effects, with_process}
use core_shift.LowLevel.Reactor
use core_shift.MidLevel.Router.{cancel, handle as route}
use core_shift.MidLevel.Wire.{WireResponse}
use core_shift.MidLevel.Ipc.{
  IpcModule, Act, Connection, respond, close, routed, mapped, admit, intercept_action,
}
use core_shift.MidLevel.Ipc.Answered.{reply_to}
use core_shift.Daemon.Interface.{Executor}
use core_shift.Daemon.Rank.{Answers}
use core_shift.Daemon.Steps
use core_shift.Daemon.Steps.{Silent}
use core_shift.Daemon.Replies.{Waits}
use core_shift.Daemon.Clients.{Requests, one, handle_all-one, iterate_calm}
use core_shift.Daemon.{
  Daemon, turn, drain_queue, intercept_all, handle_all, iterate, weigh, weigh_all,
}

admit_cancel :
    (m : IpcModule) (fd uid id : ℕ)
    → let r = admit m fd (ok (some (cancel uid id))) in
      (r.actions ≡ Action.control id ControlSignal.graceful_stop ∷ [])
      × (r.acts ≡ [])
      × Waits r.ipc id fd
unfolding admit route routed mapped
admit_cancel m fd uid id = (
  refl,
  refl,
  record {
    client = m.next_client_id;
    mapped = get-insert_self id m.next_client_id m.job_to_client;
    open_fd = get-insert_self m.next_client_id fd m.clients;
  },
)

of_some : {a b : JobState} → some a ≡ some b → a ≡ b
of_some e = cc

true-ne-false : true ≡ false → ⊥
true-ne-false e = cc

-- What a graceful stop leaves of a job in the table, and that it emits nothing.
stop-noted :
    (s : ExecutionState) (id : ℕ) (job : JobState)
    → get id s.jobs ≡ some job
    → let r = Lifecycle.handle s (Action.signal_process id ControlSignal.graceful_stop) in
      (r.1 ≡ [])
      × (get id r.0.jobs ≡ some (record job { timed_out = true }))
      × (get id r.0.lifecycle ≡ some JobLifecycle.terminating)
unfolding Lifecycle.handle Lifecycle.note_signal
stop-noted s id job e =
    rw (e, Lifecycle.handle) (refl, get-insert_self id _ s.jobs, get-insert_self id _ s.lifecycle)

-- A job in the table that runs and has not been asked to stop.
abbrev pub Stoppable : ExecutionState → ℕ → JobState → Type 0
Stoppable s id job = (get id s.jobs ≡ some job) × (can_signal job ≡ true)

module _ (x : Executor) where
  -- The request is answered, and noted on the job.
  abbrev pub Stopped : Daemon x → ℕ → ℕ → Daemon x × List Act → Type 0
  Stopped d id fd out =
      (job : JobState) × Stoppable d.state id job
      × (out.1 ≡ respond fd WireResponse.cancel_ok ∷ close fd ∷ [])
      × (get id out.0.state.jobs ≡ some (record job { timed_out = true }))
      × (get id out.0.state.lifecycle ≡ some JobLifecycle.terminating)

  -- Nothing is sent, and the client goes on waiting.
  abbrev pub Unanswered : Daemon x → ℕ → ℕ → Daemon x × List Act → Type 0
  Unanswered d id fd out =
      (¬ ((job : JobState) × Stoppable d.state id job))
      × (out.1 ≡ [])
      × (out.0.state ≡ d.state)
      × Waits out.0.ipc id fd

module _ (x : Executor) (answers : Answers x) (clock : ℕ → ℕ × ℕ) where
  kill-Silent :
      (s : ExecutionState) (id : ℕ) (signal : ControlSignal)
      → All (Silent x) (resolve_effects s (Action.signal_process id signal ∷ [])).1
  unfolding resolve_effects resolve
  kill-Silent s id signal = by_job (get id s.jobs)
    where
      by_handle :
          (job : JobState) (o : Option ℕ)
          → All (Silent x) (
              elim o [
                | none ↦ []
                | some process ↦
                    Effect.kill_process id signal process (is_some job.pgroup || job.isolated) ∷ []
              ]
              ++ [])
      by_handle job none = tt
      by_handle job (some process) = (tt, tt)

      by_job :
          (o : Option JobState)
          → All (Silent x) (
              with_process o (λ job process.
                Effect.kill_process id signal process (is_some job.pgroup || job.isolated))
              ++ [])
      by_job none = tt
      by_job (some job) = by_handle job job.process

  turn_control :
      (d : Daemon x) (id : ℕ) (signal : ControlSignal)
      → (d' : Daemon x) × (turn x clock d (Action.control id signal)
          ≡ some (d', Process.handle d.state (Action.control id signal), []))
        × (d'.state ≡ d.state)
        × (d'.ipc ≡ d.ipc)
  unfolding dispatch intercept_all resolve_effects resolve intercept_action
  turn_control d id signal =
      let (d', e, has) = Steps.turn-Silent x answers clock d (Action.control id signal) tt in
      (d', e, has.state, has.ipc)

  turn-stop :
      (d : Daemon x) (id : ℕ) (job : JobState)
      → get id d.state.jobs ≡ some job
      → (d' : Daemon x) × (turn x clock d (Action.signal_process id ControlSignal.graceful_stop)
          ≡ some (d', [], []))
        × (d'.ipc ≡ d.ipc)
        × (get id d'.state.jobs ≡ some (record job { timed_out = true }))
        × (get id d'.state.lifecycle ≡ some JobLifecycle.terminating)
  unfolding dispatch intercept_all resolve_effects resolve Process.handle
  turn-stop d id job e =
      let a = Action.signal_process id ControlSignal.graceful_stop in
      let (quiet, noted, stage) = stop-noted d.state id job e in
      let (d', t, has) =
        Steps.turn-Silent x answers clock d a
          (kill-Silent (Lifecycle.handle d.state a).0 id ControlSignal.graceful_stop) in
      (
        d',
        t ∙ ap (λ l. some (d', l ++ [], [])) quiet,
        has.ipc,
        ap (λ s. get id s.jobs) has.state ∙ noted,
        ap (λ s. get id s.lifecycle) has.state ∙ stage,
      )

  turn_controlled :
      (d : Daemon x) (id fd : ℕ)
      → Waits d.ipc id fd
      → (d' : Daemon x) × (turn x clock d (Action.controlled id)
          ≡ some (d', [], respond fd WireResponse.cancel_ok ∷ close fd ∷ []))
        × (d'.state ≡ d.state)
  unfolding dispatch intercept_all resolve_effects resolve intercept_action
  turn_controlled d id fd w =
      let (d', e, has) = Steps.turn-Silent x answers clock d (Action.controlled id) tt in
      let acts = reply_to d.ipc id w.client fd WireResponse.cancel_ok w.mapped w.open_fd in
      (d', e ∙ ap (λ l. some (d', [], l ++ [])) acts, has.state)

  abbrev Cancels : Daemon x → ℕ → ℕ → Type 0
  Cancels d id fd =
      (out : Daemon x × List Act) × (drain_queue x 4 clock d
          (Action.control id ControlSignal.graceful_stop ∷ [])
        ≡ some out)
      × (Stopped x d id fd out ⊎ Unanswered x d id fd out)

  control-Stopped :
      (d : Daemon x) (id fd : ℕ) (job : JobState)
      → Waits d.ipc id fd
      → Stoppable d.state id job
      → Cancels d id fd
  unfolding Process.handle drain_queue
  control-Stopped d id fd job w (e, can) =
      let a = Action.control id ControlSignal.graceful_stop in
      let b = Action.signal_process id ControlSignal.graceful_stop in
      let (d1, t1, same, ipc1) = turn_control d id ControlSignal.graceful_stop in
      let present : get id d1.state.jobs ≡ some job = ap (λ s. get id s.jobs) same ∙ e in
      let (d2, t2, ipc2, noted, stage) = turn-stop d1 id job present in
      let (d3, t3, kept) =
        turn_controlled d2 id fd (subst (λ m. Waits m id fd) (sym (ipc2 ∙ ipc1)) w) in
      let asked : Process.handle d.state a ≡ b ∷ Action.controlled id ∷ [] =
        rw (e, Process.handle, can) refl in
      (
        (d3, _),
        Steps.drain_queue-cons x 3 clock d d1 d3 a [] (b ∷ Action.controlled id ∷ []) [] _
            (t1 ∙ ap (λ l. some (d1, l, [])) asked)
            (Steps.drain_queue-cons x 2 clock d1 d2 d3 b (Action.controlled id ∷ []) [] [] _ t2 (
              Steps.drain_queue-cons x 1 clock d2 d3 d3 (Action.controlled id) [] [] _ [] t3 refl)),
        inl (
          job,
          (e, can),
          refl,
          ap (λ s. get id s.jobs) kept ∙ noted,
          ap (λ s. get id s.lifecycle) kept ∙ stage,
        ),
      )

  control-Unanswered :
      (d : Daemon x) (id fd : ℕ)
      → Waits d.ipc id fd
      → Process.handle d.state (Action.control id ControlSignal.graceful_stop) ≡ []
      → (¬ ((job : JobState) × Stoppable d.state id job))
      → Cancels d id fd
  unfolding drain_queue
  control-Unanswered d id fd w nothing never =
      let a = Action.control id ControlSignal.graceful_stop in
      let (d1, t1, same, ipc1) = turn_control d id ControlSignal.graceful_stop in
      (
        (d1, []),
        Steps.drain_queue-cons x 3 clock d d1 d1 a [] [] [] []
            (t1 ∙ ap (λ l. some (d1, l, [])) nothing) refl,
        inr (never, refl, same, subst (λ m. Waits m id fd) (sym ipc1) w),
      )

  queue_control : (d : Daemon x) (id fd : ℕ) → Waits d.ipc id fd → Cancels d id fd
  unfolding Process.handle
  queue_control d id fd w = elim (Option-cases (get id d.state.jobs)) [
    | inl e ↦ control-Unanswered d id fd w (rw (e, Process.handle) refl) (λ p. cc)
    | inr (job, e) ↦ elim (Bool-cases (can_signal job)) [
      | inl can ↦ control-Stopped d id fd job w (e, can)
      | inr not_now ↦
          control-Unanswered d id fd w (rw (e, Process.handle, not_now) refl)
            (λ p. true-ne-false (sym p.1.1 ∙ ap can_signal (of_some (sym p.1.0 ∙ e)) ∙ not_now))
    ]
  ]

  -- The same from the connection of the client, at an event that is about no stream.
  pub cancel_answered :
      (d : Daemon x) (e : Reactor.Event) (connection : Connection) (uid id : ℕ)
      → Requests d.ipc e connection (cancel uid id)
      → x.ready d.executor (e ∷ []) ≡ []
      → (out : Daemon x × List Act) × (iterate x clock d (ok (one e connection)) ≡ some out)
        × (Stopped x d id connection.client_fd out ⊎ Unanswered x d id connection.client_fd out)
  unfolding weigh_all weigh
  cancel_answered d e connection uid id h f =
      let a = Action.control id ControlSignal.graceful_stop in
      let r = admit d.ipc connection.client_fd (ok (some (cancel uid id))) in
      let (asked, quiet, w) = admit_cancel d.ipc connection.client_fd uid id in
      let served : handle_all d.ipc (one e connection) ≡ (r.ipc, a ∷ [], []) =
        handle_all-one d.ipc e connection (cancel uid id) h
        ∙ ap (λ l. (r.ipc, (l ++ []) ++ [], (r.acts ++ []) ++ [])) asked
        ∙ ap (λ l. (r.ipc, a ∷ [], (l ++ []) ++ [])) quiet in
      let ((last, acts), g, has) =
        queue_control (record d { ipc = r.ipc }) id connection.client_fd w in
      (
        (last, acts),
        iterate_calm x answers clock d last (one e connection) r.ipc (a ∷ []) [] acts served f g,
        has,
      )
