-- ===== src/Core/Machine/Muted.antt =====
-- Escalation from SIGTERM to SIGKILL: the flag `timed_out` that core/lifecycle.rs sets on a
-- graceful stop is the flag that core/process.rs tests before every signal.
use core_shift.Base.{ℕ, ◌≡◌, ◌≢◌, refl, Result, true, Option, none, some, List, [], ◌∷◌, arith}
use core_shift.Base.HashMap.{get, map_laws}
use core_shift.Core.Types.{
  Action, Event, ExecutionState, ExecResult, ExecError, ExecSpec, ExecPolicy, JobState,
  StoredResult, ControlSignal,
}
use core_shift.Core.Lifecycle
use core_shift.Core.Process
use core_shift.Core.ResultStore
use core_shift.Core.Dispatcher.{Dispatcher, dispatch, dispatch_event}
use core_shift.Core.Machine.{Machine, Input, act, observe, step, run}

-- The job, if there is one, has been asked to stop.
abbrev pub Muted : Option JobState → Type 0
Muted none = Unit
Muted (some job) = job.timed_out ≡ true

-- The input does not admit the job `id` anew.
abbrev pub Keeps : ℕ → Input → Type 0
Keeps id (act now later (Action.admitted j owner exec policy)) = j ≢ id
Keeps id _ = Unit

abbrev pub KeepsAll : ℕ → List Input → Type 0
KeepsAll id [] = Unit
KeepsAll id (i ∷ inputs) = Keeps id i × KeepsAll id inputs

module _ (id : ℕ) where
  abbrev MutedIn : ExecutionState → Type 0
  MutedIn s = Muted (get id s.jobs)

  signal-Muted :
      (s : ExecutionState) (j : ℕ) (signal : ControlSignal) (o : Option JobState)
      → get j s.jobs ≡ o
      → MutedIn s
      → MutedIn (Lifecycle.handle s (Action.signal_process j signal)).0
  unfolding Lifecycle.handle Lifecycle.note_signal
  signal-Muted s j signal none e h = rw (e, Lifecycle.handle) h
  signal-Muted s j ControlSignal.graceful_stop (some job) e h =
      rw (e, Lifecycle.handle) (simp map_laws (ground arith))
  signal-Muted s j ControlSignal.force_kill (some job) e h = rw (e, Lifecycle.handle) h

  muted_at :
      (s : ExecutionState) (j : ℕ) (job : JobState)
      → get j s.jobs ≡ some job
      → MutedIn s
      → j ≡ id
      → job.timed_out ≡ true
  muted_at s j job e h same = rw e at (rw (← same) at h)

  started-Muted :
      (s : ExecutionState) (j process io : ℕ) (o : Option JobState)
      → get j s.jobs ≡ o
      → MutedIn s
      → MutedIn (Lifecycle.handle_event s (Event.process_started j process io)).0
  unfolding Lifecycle.handle_event
  started-Muted s j process io none e h = rw (e, Lifecycle.handle_event) h
  started-Muted s j process io (some job) e h =
      rw (e, Lifecycle.handle_event) (simp map_laws (ground (arith, muted_at s j job e h)))

  finished-Muted :
      (now later : ℕ) (s : ExecutionState) (j : ℕ) (result : Result ExecResult ExecError)
      (o : Option JobState)
      → get j s.jobs ≡ o
      → MutedIn s
      → MutedIn (ResultStore.handle now later s (Action.finished j result)).0
  unfolding ResultStore.handle
  finished-Muted now later s j result none e h = rw (e, ResultStore.handle) h
  finished-Muted now later s j result (some job) e h =
      rw (e, ResultStore.handle) (simp map_laws (ground arith))

  admit-Muted :
      (s : ExecutionState) (now later j owner : ℕ) (exec : ExecSpec) (policy : ExecPolicy)
      → j ≢ id
      → MutedIn s
      → MutedIn (Lifecycle.handle s (Action.admitted j owner exec policy)).0
  unfolding Lifecycle.handle
  admit-Muted s now later j owner exec policy ne h = simp map_laws (ground arith)

  query-Muted :
      (now later : ℕ) (s : ExecutionState) (j : ℕ) (o : Option StoredResult)
      → get j s.results ≡ o
      → MutedIn s
      → MutedIn (ResultStore.handle now later s (Action.query j)).0
  unfolding ResultStore.handle
  query-Muted now later s j none e h = rw (e, ResultStore.handle) h
  query-Muted now later s j (some r) e h = rw (e, ResultStore.handle) h

  act-Muted :
      (now later : ℕ) (d : Dispatcher) (s : ExecutionState) (a : Action)
      → Keeps id (act now later a)
      → MutedIn s
      → MutedIn (dispatch now later d s a).state
  unfolding dispatch
  act-Muted now later d s (Action.admitted j owner exec policy) k h =
      admit-Muted s now later j owner exec policy k h
  act-Muted now later d s (Action.signal_process j signal) k h =
      signal-Muted s j signal (get j s.jobs) refl h
  act-Muted now later d s (Action.finished j result) k h =
      finished-Muted now later s j result (get j s.jobs) refl h
  act-Muted now later d s (Action.query j) k h = query-Muted now later s j (get j s.results) refl h
  act-Muted now later d s _ k h = h

  observe-Muted : (s : ExecutionState) (e : Event) → MutedIn s → MutedIn (dispatch_event s e).0
  unfolding dispatch_event
  observe-Muted s (Event.process_started j process io) h =
      started-Muted s j process io (get j s.jobs) refl h
  observe-Muted s (Event.process_spawn_failed j message) h = unfold Lifecycle.handle_event in h
  observe-Muted s (Event.process_exited j status) h = h
  observe-Muted s (Event.job_fd_ready j readable writable error) h = h

  run-Muted :
      (m : Machine) (inputs : List Input)
      → KeepsAll id inputs
      → MutedIn m.state
      → MutedIn (run m inputs).0.state
  unfolding run step
  run-Muted m [] k h = h
  run-Muted m (act now later a ∷ inputs) k h =
      run-Muted (step m (act now later a)).0 inputs k.1
        (act-Muted now later m.dispatcher m.state a k.0 h)
  run-Muted m (observe e ∷ inputs) k h =
      run-Muted (step m (observe e)).0 inputs k.1 (observe-Muted m.state e h)

  -- Nothing that asks for a signal gets one for a muted job.
  abbrev Silent : ℕ → ℕ → Machine → Action → Type 0
  Silent now later m a = (dispatch now later m.dispatcher m.state a).actions ≡ []

  Muted-Silent :
      (now later : ℕ) (m : Machine) (signal : ControlSignal) (o : Option JobState)
      → get id m.state.jobs ≡ o
      → Muted o
      → Silent now later m (Action.kill_deadline_reached id)
        × Silent now later m (Action.timeout_reached id)
        × Silent now later m (Action.control id signal)
  unfolding dispatch Process.handle
  Muted-Silent now later m signal none e h = ground arith
  Muted-Silent now later m signal (some job) e h = ground arith

  graceful_stop-Muted :
      (now later : ℕ) (m : Machine) (o : Option JobState)
      → get id m.state.jobs ≡ o
      → MutedIn
          (step m (act now later (Action.signal_process id ControlSignal.graceful_stop))).0.state
  unfolding step dispatch Lifecycle.handle Lifecycle.note_signal
  graceful_stop-Muted now later m none e = rw (e, Lifecycle.handle) (rw e tt)
  graceful_stop-Muted now later m (some job) e =
      rw (e, Lifecycle.handle) (simp map_laws (ground arith))

-- Once a graceful stop of job `id` has been dispatched, then, whatever else is dispatched or
-- observed, as long as the job is not admitted anew, its kill deadline, its timeout and every
-- control request for it emit no action: the job is never signalled again.
pub graceful_stop_never_escalates :
    (id : ℕ) (m : Machine) (inputs : List Input) (now later now' later' : ℕ)
    (signal : ControlSignal)
    → KeepsAll id inputs
    → let stopped =
        (step m (act now later (Action.signal_process id ControlSignal.graceful_stop))).0 in
      let last = (run stopped inputs).0 in
      Silent id now' later' last (Action.kill_deadline_reached id)
      × Silent id now' later' last (Action.timeout_reached id)
      × Silent id now' later' last (Action.control id signal)
graceful_stop_never_escalates id m inputs now later now' later' signal k =
    Muted-Silent id now' later' _ signal _ refl
      (run-Muted id _ inputs k (graceful_stop-Muted id now later m _ refl))
