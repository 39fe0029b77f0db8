-- ===== src/Core/Dispatcher/Isolation.antt =====
-- An action or event about one job leaves every other job alone (core/mod.rs).
use core_shift.Base.{ℕ, ◌≡◌, ◌≢◌, refl, ap, Option, none, some, Result}
use core_shift.Base.HashMap.{HashMap, get, get-insert_ne, get-remove_ne}
use core_shift.Core.Types.{
  Action, Event, ExecutionState, ExecResult, ExecError, ExecPolicy, JobState, StoredResult,
  ControlSignal,
}
use core_shift.Core.Timeout
use core_shift.Core.Timeout.{TimeoutEntry}
use core_shift.Core.Lifecycle
use core_shift.Core.ResultStore
use core_shift.Core.Dispatcher.{Dispatcher, dispatch, dispatch_event}

-- The job that an action is about; a log line is about none.
abbrev pub about : Action → Option ℕ
about (Action.submit id owner exec policy) = some id
about (Action.admitted id owner exec policy) = some id
about (Action.rejected id) = some id
about (Action.started id) = some id
about (Action.controlled id) = some id
about (Action.finished id result) = some id
about (Action.query_result id result) = some id
about (Action.start_process id exec policy) = some id
about (Action.signal_process id signal) = some id
about (Action.poll_process id) = some id
about (Action.perform_io id) = some id
about (Action.register_interest id stream) = some id
about (Action.remove_interest id stream) = some id
about (Action.emit_log level event) = none
about (Action.control id signal) = some id
about (Action.query id) = some id
about (Action.timeout_reached id) = some id
about (Action.kill_deadline_reached id) = some id

abbrev pub event_about : Event → ℕ
event_about (Event.process_started id process io) = id
event_about (Event.process_spawn_failed id message) = id
event_about (Event.process_exited id status) = id
event_about (Event.job_fd_ready id readable writable error) = id

-- The job `k` and its stage are the same in both states.
pub record SameJob (k : ℕ) (s t : ExecutionState) : Type 0 where
  pub job : get k t.jobs ≡ get k s.jobs
  pub stage : get k t.lifecycle ≡ get k s.lifecycle

pub same : (k : ℕ) (s : ExecutionState) → SameJob k s s
same k s = record { job = refl; stage = refl }

module _ (k : ℕ) (s : ExecutionState) where
  signal-SameJob :
      (id : ℕ) (signal : ControlSignal) (o : Option JobState)
      → get id s.jobs ≡ o
      → id ≢ k
      → SameJob k s (Lifecycle.handle s (Action.signal_process id signal)).0
  unfolding Lifecycle.handle Lifecycle.note_signal
  signal-SameJob id signal none e h = rw (e, Lifecycle.handle) (same k s)
  signal-SameJob id ControlSignal.graceful_stop (some job) e h =
      rw (e, Lifecycle.handle)
        (record { job = get-insert_ne id k _ s.jobs h; stage = get-insert_ne id k _ s.lifecycle h })
  signal-SameJob id ControlSignal.force_kill (some job) e h =
      rw (e, Lifecycle.handle) (record { job = refl; stage = get-insert_ne id k _ s.lifecycle h })

  finished-SameJob :
      (now later id : ℕ) (result : Result ExecResult ExecError) (o : Option JobState)
      → get id s.jobs ≡ o
      → id ≢ k
      → SameJob k s (ResultStore.handle now later s (Action.finished id result)).0
  unfolding ResultStore.handle
  finished-SameJob now later id result none e h =
      rw (e, ResultStore.handle) (record { job = refl; stage = refl })
  finished-SameJob now later id result (some job) e h =
      rw (e, ResultStore.handle) (record { job = get-remove_ne id k s.jobs h; stage = refl })

  pub query-SameJob :
      (now later id : ℕ) (o : Option StoredResult)
      → get id s.results ≡ o
      → SameJob k s (ResultStore.handle now later s (Action.query id)).0
  unfolding ResultStore.handle
  query-SameJob now later id none e = rw (e, ResultStore.handle) (same k s)
  query-SameJob now later id (some r) e =
      rw (e, ResultStore.handle) (record { job = refl; stage = refl })

  started-SameJob :
      (id process io : ℕ) (o : Option JobState)
      → get id s.jobs ≡ o
      → id ≢ k
      → SameJob k s (Lifecycle.handle_event s (Event.process_started id process io)).0
  unfolding Lifecycle.handle_event
  started-SameJob id process io none e h = rw (e, Lifecycle.handle_event) (same k s)
  started-SameJob id process io (some job) e h =
      rw (e, Lifecycle.handle_event)
        (record { job = get-insert_ne id k _ s.jobs h; stage = get-insert_ne id k _ s.lifecycle h })

  get-track_ne :
      (now id : ℕ) (policy : ExecPolicy) (t : Option ℕ) (tracking : HashMap TimeoutEntry)
      → id ≢ k
      → get k (Timeout.track now id policy t tracking) ≡ get k tracking
  unfolding Timeout.track
  get-track_ne now id policy none tracking h = refl
  get-track_ne now id policy (some t) tracking h = get-insert_ne id k _ tracking h

  -- An action about another job leaves the job `k`, its stage and its deadline as they are.
  pub dispatch_isolated :
      (now later : ℕ) (d : Dispatcher) (a : Action)
      → about a ≢ some k
      → let r = dispatch now later d s a in
        SameJob k s r.state × (get k r.dispatcher.timeout.tracking ≡ get k d.timeout.tracking)
  unfolding dispatch Timeout.handle
  dispatch_isolated now later d (Action.admitted id owner exec policy) h = (
    unfold Lifecycle.handle in
        record {
          job = get-insert_ne id k _ s.jobs (λ e. h (ap some e));
          stage = get-insert_ne id k _ s.lifecycle (λ e. h (ap some e));
        },
    get-track_ne now id policy policy.timeout_ms d.timeout.tracking (λ e. h (ap some e)),
  )
  dispatch_isolated now later d (Action.signal_process id signal) h =
      (signal-SameJob id signal (get id s.jobs) refl (λ e. h (ap some e)), refl)
  dispatch_isolated now later d (Action.finished id result) h = (
    finished-SameJob now later id result (get id s.jobs) refl (λ e. h (ap some e)),
    get-remove_ne id k d.timeout.tracking (λ e. h (ap some e)),
  )
  dispatch_isolated now later d (Action.query id) h =
      (query-SameJob now later id (get id s.results) refl, refl)
  dispatch_isolated now later d _ h = (same k s, refl)

  -- An event about another job leaves the job `k` and its stage as they are.
  pub dispatch_event_isolated : (e : Event) → event_about e ≢ k → SameJob k s (dispatch_event s e).0
  unfolding dispatch_event
  dispatch_event_isolated (Event.process_started id process io) h =
      started-SameJob id process io (get id s.jobs) refl h
  dispatch_event_isolated (Event.process_spawn_failed id message) h =
      unfold Lifecycle.handle_event in
      record { job = refl; stage = get-insert_ne id k _ s.lifecycle h }
  dispatch_event_isolated (Event.process_exited id status) h = same k s
  dispatch_event_isolated (Event.job_fd_ready id readable writable error) h = same k s
