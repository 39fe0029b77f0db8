-- ===== src/Core/Machine/Stages/Followed.antt =====
-- Every job in the core (core/mod.rs) follows the steps of its life.
use core_shift.Base.{
  ℕ, ◌≡◌, ◌≢◌, refl, sym, subst, Option, none, some, Result, String, List, [], ◌∷◌,
}
use native.Mathlib.Decide.{ℕ_discrete}
use core_shift.Base.HashMap.{get, get-insert_self, get-remove_self}
use core_shift.Core.Types.{
  Action, Event, ExecutionState, ExecSpec, ExecPolicy, ExecResult, ExecError, JobState,
  ControlSignal,
}
use core_shift.Core.Lifecycle
use core_shift.Core.ResultStore
use core_shift.Core.Dispatcher.{dispatch, dispatch_event}
use core_shift.Core.Dispatcher.Isolation.{
  SameJob, query-SameJob, about, dispatch_isolated, dispatch_event_isolated,
}
use core_shift.Core.Machine.{Machine, Input, act, observe, step, run}
use core_shift.Core.Machine.Stages.{
  phase_of, project, Elsewhere, JobStep, Life, admit, start, stop, kill, fail, fail_unknown, finish,
  ignore, pass, done, next,
}

project-SameJob : (id : ℕ) (s t : ExecutionState) → SameJob id s t → project id t ≡ project id s
project-SameJob id s t h = rw (h.job, h.stage) refl

passes :
    (id : ℕ) (i : Input) (s t : ExecutionState)
    → Elsewhere id i
    → SameJob id s t
    → JobStep id i (project id s) (project id t)
passes id i s t e h =
    subst (JobStep id i (project id s)) (sym (project-SameJob id s t h)) (pass i (project id s) e)

-- What becomes of the job itself.
module _ (id : ℕ) (s : ExecutionState) where
  signal-JobStep :
      (now later : ℕ) (signal : ControlSignal) (o : Option JobState)
      → get id s.jobs ≡ o
      → JobStep id
          (act now later (Action.signal_process id signal))
          (phase_of o (get id s.lifecycle))
          (project id (Lifecycle.handle s (Action.signal_process id signal)).0)
  unfolding Lifecycle.handle Lifecycle.note_signal
  signal-JobStep now later signal none e =
      rw (e, Lifecycle.handle, e)
        (ignore (act now later (Action.signal_process id signal)) (get id s.lifecycle) tt)
  signal-JobStep now later ControlSignal.graceful_stop (some job) e =
      rw (e, Lifecycle.handle, get-insert_self, get-insert_self)
        (stop now later _ job.timed_out (get id s.lifecycle))
  signal-JobStep now later ControlSignal.force_kill (some job) e =
      rw (e, Lifecycle.handle, e, get-insert_self)
        (kill now later _ job.timed_out (get id s.lifecycle))

  finished-JobStep :
      (now later now' later' : ℕ) (result : Result ExecResult ExecError) (o : Option JobState)
      → get id s.jobs ≡ o
      → JobStep id
          (act now later (Action.finished id result))
          (phase_of o (get id s.lifecycle))
          (project id (ResultStore.handle now' later' s (Action.finished id result)).0)
  unfolding ResultStore.handle
  finished-JobStep now later now' later' result none e =
      rw (e, ResultStore.handle, e)
        (ignore (act now later (Action.finished id result)) (get id s.lifecycle) tt)
  finished-JobStep now later now' later' result (some job) e =
      rw (e, ResultStore.handle, get-remove_self)
        (finish now later result _ job.timed_out (get id s.lifecycle))

  started-JobStep :
      (process io : ℕ) (o : Option JobState)
      → get id s.jobs ≡ o
      → JobStep id
          (observe (Event.process_started id process io))
          (phase_of o (get id s.lifecycle))
          (project id (Lifecycle.handle_event s (Event.process_started id process io)).0)
  unfolding Lifecycle.handle_event
  started-JobStep process io none e =
      rw (e, Lifecycle.handle_event, e)
        (ignore (observe (Event.process_started id process io)) (get id s.lifecycle) tt)
  started-JobStep process io (some job) e =
      rw (e, Lifecycle.handle_event, get-insert_self, get-insert_self)
        (start process io _ job.timed_out (get id s.lifecycle))

  failed-JobStep :
      (message : String) (o : Option JobState)
      → get id s.jobs ≡ o
      → JobStep id
          (observe (Event.process_spawn_failed id message))
          (phase_of o (get id s.lifecycle))
          (project id (Lifecycle.handle_event s (Event.process_spawn_failed id message)).0)
  unfolding Lifecycle.handle_event
  failed-JobStep message none e =
      rw (e, get-insert_self) (fail_unknown message (get id s.lifecycle))
  failed-JobStep message (some job) e =
      rw (e, get-insert_self) (fail message _ job.timed_out (get id s.lifecycle))

  admitted-JobStep :
      (now later owner : ℕ) (exec : ExecSpec) (policy : ExecPolicy)
      → JobStep id
          (act now later (Action.admitted id owner exec policy))
          (project id s)
          (project id (Lifecycle.handle s (Action.admitted id owner exec policy)).0)
  unfolding Lifecycle.handle
  admitted-JobStep now later owner exec policy =
      rw (get-insert_self, get-insert_self) (admit now later owner exec policy (project id s))

of_some : {a b : ℕ} → some a ≡ some b → a ≡ b
of_some e = cc

-- An action or an event about this job, or about another.
module _ (id : ℕ) (m : Machine) where
  other_act :
      (now later : ℕ) (a : Action)
      → Elsewhere id (act now later a)
      → about a ≢ some id
      → JobStep id
          (act now later a)
          (project id m.state)
          (project id (step m (act now later a)).0.state)
  unfolding step
  other_act now later a e ne =
      passes id (act now later a) m.state _ e
        (dispatch_isolated id m.state now later m.dispatcher a ne).0

  unchanged :
      (now later : ℕ) (a : Action)
      → Elsewhere id (act now later a)
      → JobStep id (act now later a) (project id m.state) (project id m.state)
  unchanged now later a e = pass (act now later a) (project id m.state) e

  act-JobStep :
      (now later : ℕ) (a : Action)
      → JobStep id
          (act now later a)
          (project id m.state)
          (project id (step m (act now later a)).0.state)
  unfolding step dispatch
  act-JobStep now later (Action.admitted j owner exec policy) = elim (ℕ_discrete j id) [
    | yes q ↦
        subst
          (λ k.
            JobStep k (act now later (Action.admitted j owner exec policy)) (project k m.state)
              (project k (step m (act now later (Action.admitted j owner exec policy))).0.state))
          q (admitted-JobStep j m.state now later owner exec policy)
    | no ne ↦ other_act now later (Action.admitted j owner exec policy) ne (λ e. ne (of_some e))
  ]
  act-JobStep now later (Action.signal_process j signal) = elim (ℕ_discrete j id) [
    | yes q ↦
        subst
          (λ k.
            JobStep k (act now later (Action.signal_process j signal)) (project k m.state)
              (project k (step m (act now later (Action.signal_process j signal))).0.state))
          q (signal-JobStep j m.state now later signal (get j m.state.jobs) refl)
    | no ne ↦ other_act now later (Action.signal_process j signal) ne (λ e. ne (of_some e))
  ]
  act-JobStep now later (Action.finished j result) = elim (ℕ_discrete j id) [
    | yes q ↦
        subst
          (λ k.
            JobStep k (act now later (Action.finished j result)) (project k m.state)
              (project k (step m (act now later (Action.finished j result))).0.state))
          q (finished-JobStep j m.state now later now later result (get j m.state.jobs) refl)
    | no ne ↦ other_act now later (Action.finished j result) ne (λ e. ne (of_some e))
  ]
  act-JobStep now later (Action.query j) =
      passes id (act now later (Action.query j)) m.state _ tt
        (query-SameJob id m.state now later j (get j m.state.results) refl)
  act-JobStep now later (Action.submit j owner exec policy) =
      unchanged now later (Action.submit j owner exec policy) tt
  act-JobStep now later (Action.rejected j) = unchanged now later (Action.rejected j) tt
  act-JobStep now later (Action.started j) = unchanged now later (Action.started j) tt
  act-JobStep now later (Action.controlled j) = unchanged now later (Action.controlled j) tt
  act-JobStep now later (Action.query_result j result) =
      unchanged now later (Action.query_result j result) tt
  act-JobStep now later (Action.start_process j exec policy) =
      unchanged now later (Action.start_process j exec policy) tt
  act-JobStep now later (Action.poll_process j) = unchanged now later (Action.poll_process j) tt
  act-JobStep now later (Action.perform_io j) = unchanged now later (Action.perform_io j) tt
  act-JobStep now later (Action.register_interest j stream) =
      unchanged now later (Action.register_interest j stream) tt
  act-JobStep now later (Action.remove_interest j stream) =
      unchanged now later (Action.remove_interest j stream) tt
  act-JobStep now later (Action.emit_log level event) =
      unchanged now later (Action.emit_log level event) tt
  act-JobStep now later (Action.control j signal) = unchanged now later (Action.control j signal) tt
  act-JobStep now later (Action.timeout_reached j) =
      unchanged now later (Action.timeout_reached j) tt
  act-JobStep now later (Action.kill_deadline_reached j) =
      unchanged now later (Action.kill_deadline_reached j) tt

  observe-JobStep :
      (e : Event)
      → JobStep id (observe e) (project id m.state) (project id (step m (observe e)).0.state)
  unfolding step dispatch_event
  observe-JobStep (Event.process_started j process io) = elim (ℕ_discrete j id) [
    | yes q ↦
        subst
          (λ k.
            JobStep k (observe (Event.process_started j process io)) (project k m.state)
              (project k (step m (observe (Event.process_started j process io))).0.state))
          q (started-JobStep j m.state process io (get j m.state.jobs) refl)
    | no ne ↦
        passes id (observe (Event.process_started j process io)) m.state _ ne
          (dispatch_event_isolated id m.state (Event.process_started j process io) ne)
  ]
  observe-JobStep (Event.process_spawn_failed j message) = elim (ℕ_discrete j id) [
    | yes q ↦
        subst
          (λ k.
            JobStep k (observe (Event.process_spawn_failed j message)) (project k m.state)
              (project k (step m (observe (Event.process_spawn_failed j message))).0.state))
          q (failed-JobStep j m.state message (get j m.state.jobs) refl)
    | no ne ↦
        passes id (observe (Event.process_spawn_failed j message)) m.state _ ne
          (dispatch_event_isolated id m.state (Event.process_spawn_failed j message) ne)
  ]
  observe-JobStep (Event.process_exited j status) =
      pass (observe (Event.process_exited j status)) (project id m.state) tt
  observe-JobStep (Event.job_fd_ready j readable writable error) =
      pass (observe (Event.job_fd_ready j readable writable error)) (project id m.state) tt

step-JobStep :
    (id : ℕ) (m : Machine) (i : Input)
    → JobStep id i (project id m.state) (project id (step m i).0.state)
step-JobStep id m (act now later a) = act-JobStep id m now later a
step-JobStep id m (observe e) = observe-JobStep id m e

-- Whatever is dispatched and observed, and in whatever order: every job goes through the steps of its
-- life, in which a job is in the table from its admission to its end, has a process once one has
-- started for it, has been asked to stop from a graceful stop on, and changes its stage only at an
-- input about it, and, but for its admission and a failed start, only while it is in the table.
pub run-Life :
    (id : ℕ) (m : Machine) (inputs : List Input)
    → Life id inputs (project id m.state) (project id (run m inputs).0.state)
unfolding run
run-Life id m [] = done (project id m.state)
run-Life id m (i ∷ inputs) =
    next i inputs _ _ _ (step-JobStep id m i) (run-Life id (step m i).0 inputs)
