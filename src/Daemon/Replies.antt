-- ===== src/Daemon/Replies.antt =====
-- The rounds of the queue of run_daemon (lib.rs) from the submission of a command to the reply.
use Prim.Native.String.{◌++◌ as concat}
use core_shift.Base.{
  false, ℕ, suc, ◌<◌, ◌≡◌, refl, sym, subst, ◌∙◌, none, some, List, [], ◌∷◌, ◌++◌, arith, length,
  length-append, All, All-append, ap, inl, inr, ◌⊎◌, leb, Bool-cases,
}
use mathlib.Core.List.{append-nil}
use core_shift.Base.Text.{to_string}
use core_shift.Base.HashMap.{get, get-insert_self}
use core_shift.Core.Types.{
  Action, ExecutionState, ExecSpec, ExecPolicy, JobState, LogLevel, LogEvent,
}
use core_shift.Core.Admission
use core_shift.Core.Lifecycle
use core_shift.Core.Timeout
use core_shift.Core.Dispatcher.{Dispatcher, dispatch}
use core_shift.Core.Effects.{resolve, resolve_effects}
use core_shift.MidLevel.Ipc.{IpcModule, Act, respond, close, reply, intercept_action}
use core_shift.MidLevel.Wire.{WireResponse}
use core_shift.MidLevel.Ipc.Answered.{reply_to}
use core_shift.Daemon.Interface.{Executor}
use core_shift.Daemon.Rank.{Answers}
use core_shift.Daemon.Steps
use core_shift.Daemon.Launched.{Started, turn_start}
use core_shift.Daemon.{Daemon, turn, drain_queue, intercept_all}

-- A client waits for the job on this descriptor.
pub record Waits (m : IpcModule) (id fd : ℕ) : Type 0 where
  pub client : ℕ
  pub mapped : get id m.job_to_client ≡ some client
  pub open_fd : get client m.clients ≡ some fd

-- The client is told that the job runs, or that it was turned down; its descriptor is closed.
abbrev pub Reply : ℕ → ℕ → List Act → Type 0
Reply id fd acts =
    (acts ≡ respond fd (WireResponse.exec id) ∷ close fd ∷ [])
    ⊎ (acts ≡ respond fd WireResponse.error ∷ close fd ∷ [])

submit-actions :
    (now later : ℕ) (d : Dispatcher) (s : ExecutionState) (id owner : ℕ) (exec : ExecSpec)
    (policy : ExecPolicy)
    → let r = dispatch now later d s (Action.submit id owner exec policy) in
      (r.actions ≡ Action.admitted id owner exec policy ∷ [])
      ⊎ ((event : LogEvent) × (r.actions
            ≡ Action.rejected id ∷ Action.emit_log LogLevel.error event ∷ []))
unfolding dispatch Admission.handle
submit-actions now later d s id owner exec policy =
    elim (Bool-cases (leb d.admission.max_jobs d.admission.active_jobs)) [
      | inl full ↦ inr (
        LogEvent.error id (concat "max_jobs " (concat (to_string d.admission.max_jobs) " reached")),
        rw full refl,
      )
      | inr room ↦ inl (rw room refl)
    ]

module _ (x : Executor) (answers : Answers x) (clock : ℕ → ℕ × ℕ) where
  -- The queue is emptied with an answer of the client.
  abbrev Replies : ℕ → Daemon x → List Action → ℕ → ℕ → Type 0
  Replies fuel d queue id fd =
      (out : Daemon x × List Act) × (drain_queue x fuel clock d queue ≡ some out)
      × Reply id fd out.1

  cons-Replies :
      (fuel : ℕ) (d d' : Daemon x) (a : Action) (queue more : List Action) (id fd : ℕ)
      → turn x clock d a ≡ some (d', more, [])
      → Replies fuel d' (queue ++ more) id fd
      → Replies (suc fuel) d (a ∷ queue) id fd
  cons-Replies fuel d d' a queue more id fd e ((last, acts), r, reply) =
      ((last, acts), Steps.drain_queue-cons x fuel clock d d' last a queue more [] acts e r, reply)

  turn-started :
      (d : Daemon x) (id fd : ℕ)
      → Waits d.ipc id fd
      → (d' : Daemon x) × (turn x clock d (Action.started id)
          ≡ some (d', [], respond fd (WireResponse.exec id) ∷ close fd ∷ []))
  unfolding dispatch intercept_all resolve_effects resolve intercept_action
  turn-started d id fd w =
      let (d', e, has) = Steps.turn-Silent x answers clock d (Action.started id) tt in
      let acts = reply_to d.ipc id w.client fd (WireResponse.exec id) w.mapped w.open_fd in
      (d', e ∙ ap (λ l. some (d', [], l ++ [])) acts)

  turn_rejected :
      (d : Daemon x) (id fd : ℕ)
      → Waits d.ipc id fd
      → (d' : Daemon x) × (turn x clock d (Action.rejected id)
          ≡ some (d', [], respond fd WireResponse.error ∷ close fd ∷ []))
  unfolding dispatch intercept_all resolve_effects resolve intercept_action
  turn_rejected d id fd w =
      let (d', e, has) = Steps.turn-Silent x answers clock d (Action.rejected id) tt in
      let acts = reply_to d.ipc id w.client fd WireResponse.error w.mapped w.open_fd in
      (d', e ∙ ap (λ l. some (d', [], l ++ [])) acts)

  -- An action that answers, in front of actions that answer nobody.
  last-Replies :
      (fuel : ℕ) (d d' : Daemon x) (a : Action) (queue : List Action) (acts : List Act) (id fd : ℕ)
      → turn x clock d a ≡ some (d', [], acts)
      → Reply id fd acts
      → All (Steps.Quiet x answers) queue
      → length queue < fuel
      → Replies (suc fuel) d (a ∷ queue) id fd
  last-Replies fuel d d' a queue acts id fd e reply q h =
      let (last, r, has) =
        Steps.drain_queue-Quiet x answers fuel clock d' (queue ++ [])
          (All-append (Steps.Quiet x answers) queue [] q tt)
          (omega (arith, h, length-append queue [])) in
      (
        (last, acts ++ []),
        Steps.drain_queue-cons x fuel clock d d' last a queue [] acts [] e r,
        subst (λ l. Reply id fd l) (sym (append-nil acts)) reply,
      )

  rejected-Replies :
      (fuel : ℕ) (d : Daemon x) (id fd : ℕ) (log : LogEvent)
      → Waits d.ipc id fd
      → 1 < fuel
      → Replies (suc fuel) d (Action.rejected id ∷ Action.emit_log LogLevel.error log ∷ []) id fd
  rejected-Replies fuel d id fd log w h =
      let (d', e) = turn_rejected d id fd w in
      last-Replies fuel d d' (Action.rejected id) (Action.emit_log LogLevel.error log ∷ []) _ id fd
        e (inr refl) (tt, tt) h

  Started-Replies :
      (d : Daemon x) (id fd : ℕ) (more : List Action)
      → Waits d.ipc id fd
      → Started x answers clock id more
      → Replies 5 d more id fd
  Started-Replies d id fd more w h = elim h [
    | inl up ↦
        let (d', e) = turn-started d id fd w in
        rw up (
          last-Replies 4 d d' (Action.started id) _ _ id fd e (inl refl) (tt, (tt, (tt, tt)))
            (omega arith))
    | inr (log, down) ↦ rw down (rejected-Replies 4 d id fd log w (omega arith))
  ]

  -- After a log line, which the start leaves in front.
  logged-Replies :
      (d : Daemon x) (id fd : ℕ) (event : LogEvent) (more : List Action)
      → Waits d.ipc id fd
      → Started x answers clock id more
      → Replies 6 d (Action.emit_log LogLevel.info event ∷ more) id fd
  logged-Replies d id fd event more w h =
      let (d', e, has) =
        Steps.turn-Quiet x answers clock d (Action.emit_log LogLevel.info event) tt in
      let w' : Waits d'.ipc id fd = subst (λ m. Waits m id fd) (sym has.ipc) w in
      cons-Replies 5 d d' (Action.emit_log LogLevel.info event) more [] id fd e (
        subst (λ l. Replies 5 d' l id fd) (sym (append-nil more))
          (Started-Replies d' id fd more w' h))

  admitted-Replies :
      (d : Daemon x) (id owner fd : ℕ) (exec : ExecSpec) (policy : ExecPolicy)
      → Waits d.ipc id fd
      → Replies 8 d (Action.admitted id owner exec policy ∷ []) id fd
  unfolding dispatch Lifecycle.handle Timeout.handle resolve_effects resolve intercept_all
      intercept_action
  admitted-Replies d id owner fd exec policy w =
      let a = Action.admitted id owner exec policy in
      let (d', e, has) = Steps.turn-Silent x answers clock d a tt in
      let w' : Waits d'.ipc id fd = subst (λ m. Waits m id fd) (sym has.ipc) w in
      let job : JobState = record {
        id = id;
        owner = owner;
        process = none;
        io = none;
        timed_out = false;
        pgroup = none;
        isolated = false;
      } in
      let present : get id d'.state.jobs ≡ some job =
        rw has.state (get-insert_self id job d.state.jobs) in
      let (d'', more, f, same, up) = turn_start x answers clock d' id exec policy job present in
      let w'' : Waits d''.ipc id fd = subst (λ m. Waits m id fd) (sym same) w' in
      cons-Replies 7 d d' a [] _ id fd e (
        cons-Replies 6 d' d'' (Action.start_process id exec policy)
          (Action.emit_log LogLevel.info (LogEvent.submit id) ∷ []) more id fd f
          (logged-Replies d'' id fd (LogEvent.submit id) more w'' up))

  -- A client that waits for a job that is submitted is told that it runs or that it was turned
  -- down, by the time that the queue is empty, and its descriptor is closed; nobody else is told
  -- anything.
  pub submit-Replies :
      (d : Daemon x) (id owner fd : ℕ) (exec : ExecSpec) (policy : ExecPolicy)
      → Waits d.ipc id fd
      → Replies 9 d (Action.submit id owner exec policy ∷ []) id fd
  unfolding resolve_effects resolve intercept_all intercept_action dispatch
  submit-Replies d id owner fd exec policy w =
      let a = Action.submit id owner exec policy in
      let (now, later) = clock d.rounds in
      let r = dispatch now later d.core d.state a in
      let (d', e, has) = Steps.turn-Silent x answers clock d a tt in
      let w' : Waits d'.ipc id fd = subst (λ m. Waits m id fd) (sym has.ipc) w in
      cons-Replies 8 d d' a [] r.actions id fd e
        (elim (submit-actions now later d.core d.state id owner exec policy) [
          | inl room ↦ rw room (admitted-Replies d' id owner fd exec policy w')
          | inr (log, full) ↦ rw full (rejected-Replies 7 d' id fd log w' (omega arith))
        ])
